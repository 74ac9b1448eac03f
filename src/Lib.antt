-- ===== src/Lib.antt =====
-- The fan project of CSEL1 (Projet/): a kernel module that blinks an LED in place of a fan, a
-- daemon that steers it from buttons, from a message queue and on a small display, and a client
-- for the command line. Beside it, the drivers and programs of the exercises that led to it
-- (Pilote_ex2/, modules_Ex/, environment/), each on its own.
--
-- The parts, and the files that model them:
--
-- FanPwm (Projet/module_noyau/fan_pwm_driver.c): the record Driver holds the module's globals and
-- the static of toggleLed; toggle_led, timer_callback, mode_store, mode_show, freq_store,
-- freq_show, temp_cpu_show and temp_gpu_show are the functions of those names. kstrtol,
-- msecs_to_jiffies and the reading of a sysfs page are the fields of Kernel, and IsDocumented is
-- what is asked of them. A division by zero is the value `fault div_by_zero`. FanPwm/History has
-- the calls that the kernel makes as events, FanPwm/Lifecycle skeleton_init and skeleton_exit on
-- what is registered (Held) and the kernel's answers, FanPwm/Attributes and FanPwm/Blink what the
-- attributes and the callback do.
--
-- Ssd1306 (Projet/daemon/ssd1306.c, and the same text in Projet/oled): each function gives the
-- messages that it sends on the bus, or the fault of a read outside the font. Ssd1306/Font has the
-- table, Ssd1306/Frames what the messages do.
--
-- Daemon (Projet/daemon/daemon.c): Daemon/World has the globals (the record Daemon), the system
-- calls as a trace, and the answers that the calls will get; a function of the daemon is a
-- function from the state to a fault, or to its result, the state after it and its calls.
-- Daemon/Lcd has the display's lines, Daemon/Fan the access to the module's files and the handlers
-- that read them, Daemon/Gpio the pins, Daemon/Buttons the timer and K1, K2 and K3,
-- Daemon/Messages the loop of main, Daemon/Events the events thread and its set-up, Daemon/Locking
-- the mutex. Daemon/Startup has the steps that make the process a daemon, as the calls that are
-- made and the status if it exits, and Daemon/Body the whole of main (the record Process).
-- Daemon/Threads runs the two threads together: their calls interleave in every order that the
-- mutex and the queue of the answers, which holds ten, allow, and what one of them does to the
-- globals is seen by the other when it begins with its next message or event.
--
-- Client (Projet/app_userspace/main.c): main gives what it sends and prints, from its arguments
-- and from what is in its memory and in the queue.
--
-- System: the parts together. System/Requests has a request from the client to the daemon,
-- System/Control the writes of a trace as the module sees them and the frequency of both,
-- System/Modes their mode, also when the daemon starts (System/Start), System/Replies what the
-- daemon answers, System/Stop the end of the process. System/Controller is the whole as a user
-- sees it: the record Fan is what the user knows, an Act what happens, and run_machine runs the
-- daemon on it and delivers its writes to the module; System/Controller/Simulation has the
-- relation of the two.
--
-- Blinker (environment/Ex5_1_sysfs_gpio/main.c): an LED that blinks with a duty cycle and three
-- buttons for its period, on its own. The record Blinker holds the globals and statics and what
-- the system calls will answer; Blinker/Setup has main up to its loop and the loop, Blinker/Period
-- and Blinker/Cycle what the buttons and the timer do.
--
-- CharDevice (Pilote_ex2/ex2_fops_base/skeleton.c): a kernel module with a device that keeps the
-- last text written to it. The record Device holds its globals; CharDevice/Transfer has the reads
-- and writes.
--
-- MultiDevice (Pilote_ex2/ex3_fops_base_2/skeleton.c): several such devices in two shared arrays
-- (the record Devices), indexed by the minor number. MultiDevice/First has the first device,
-- MultiDevice/Index the others, MultiDevice/Loading the loading.
--
-- Sysfs (Pilote_ex2/ex5_sysfs): the loading of skeleton.c and of skeleton_bus_platform.c as the
-- registrations and removals that they make, with the kernel's answers (Answers); Sysfs/Unwinding
-- follows them on a stack.
--
-- Devicetree (Pilote_ex2/ex6_dtb/skeleton.c): one device for each child of a node whose attribute
-- is on, each with a structure of its own. A child is its name and what the library finds as its
-- attribute; the answers of misc_register are a function of the device's number. Devicetree/Probe
-- has the probe, Devicetree/Children the node's children that are on, Devicetree/Bounds the
-- writes. Devicetree/Arrays is skeleton_1.c, which has the same children and the arrays of
-- MultiDevice, Devicetree/Arrays/Reach what can be used of it.
--
-- PollDevice (Pilote_ex2/ex7_Op_Bloq/skeleton.c, and its client environment/Ex7_Op_Bloq/main.c):
-- buttons whose interrupt wakes a poll. PollDevice/Presses follows interrupts and the two halves
-- of the poll, its test and its reset, as events, PollDevice/Loading what a load leaves
-- registered.
--
-- Listing (environment/code_exemples/ls_exemple.c): a listing of directories. The directories are
-- numbers, with the entries, and what stat and chdir answer there, as the functions of FileSystem;
-- Listing/Mode has the string of a mode, Listing/Paths the recursion, Listing/Stuck a
-- directory that cannot be entered.
--
-- Fibonacci (environment/fibonacci/fibonacci.c): the recursive function in 64 bits, and the
-- numbers that are printed. Leaks (environment/memory_leaks/mem_leaks.c): the list of the elements
-- that are allocated, as their attributes; the numbers of its two loops are arguments of main.
--
-- ElementList (modules_Ex/module_mem_lib_2/skeleton.c): a list of the kernel in a memory of cells,
-- which are read and written by their addresses and can be given back; ElementList/Chain has the
-- list that a load makes.
--
-- MultiDevice/Private (Pilote_ex2/ex3_fops_base_2/skeleton_dt.c): the same devices as a platform
-- driver; the sizes of the kernel's structures are the fields of Layout.
-- MultiDevice/Private/Overflow has its loads.
--
-- SocketPair (environment/Ex_process_socket/main.c): a child that writes messages into a stream,
-- and its parent on what its reads answer; SocketPair/Ending says when the parent ends.
--
-- PosixThreads (environment/code_exemples/threads.c) and WaitQueue
-- (modules_Ex/module_sommeil_5/skeleton.c): threads as places in their code, and runs as lists of
-- turns in any order. PosixThreads/Cleaning has the cleanup handlers, PosixThreads/Joining the
-- joins of main, WaitQueue/Notices the notifications and WaitQueue/Unloading the end of both
-- threads; Unloading and Joining use Prelude/Rounds, where rounds with a turn of each thread bring
-- a measure to 0.
--
-- SleepDaemon (environment/daemon/daemon.c and environment/process/process.c): the steps of
-- Daemon/Startup, and a sleep that signals interrupt. LedLoop
-- (environment/code_exemples/led_exemple.c): an LED that blinks by polling the clock;
-- LedLoop/Phases has how long it is on and off. PinToggle (environment/gpio/gpio.c and
-- environment/mmio/mmio.c): a pin that is toggled by writes to its file and by an exclusive or on
-- its register; PinToggle/Waves compares them.
--
-- ButtonIrq (modules_Ex/module_interrupt_6/skeleton.c): the interrupts of three buttons.
-- ChipRegisters (modules_Ex/module_IO_3/skeleton.c and
-- environment/Ex1_pilote_mem_user_space/main.c): registers that a module maps, and a program
-- through /dev/mem; ChipRegisters/Agreement compares what both print.
--
-- Cstd is what the code uses of the C library (strings of bytes, sprintf, atoi, sscanf), on lists
-- of bytes, with undefined behaviour as a fault. Prelude has the numbers, their bits and lists,
-- and rounds of turns. Tests has a run of each part, and each theorem that has hypotheses at a
-- concrete input.
--
-- Bounds: `int` is 32 bits wide (to_int32, IsInt32), `long` 64, in which a period of an int in
-- milliseconds is counted in nanoseconds without overflow. The loops of the programs take the list
-- of what they will receive, and are structural on it: they stop at its end, or earlier as the
-- code does. The loop that unloads the kernel list has as many rounds as the list has cells, and
-- one more. The recursion into directories has as many calls inside each other as the stack is
-- given, which a tree of no more levels does not use up. No other function needs fuel.
--
-- Not modelled: what is only printed or logged, a change of a global by one thread of the daemon
-- while the other is inside a message or an event, and the other exercises: the rest of
-- modules_Ex/ and the programs of environment/ that are there to be traced, measured or debugged.
pub mod Prelude
pub mod Cstd
pub mod FanPwm
pub mod Ssd1306
pub mod Daemon
pub mod Client
pub mod Blinker
pub mod CharDevice
pub mod MultiDevice
pub mod Devicetree
pub mod PollDevice
pub mod SocketPair
pub mod WaitQueue
pub mod PosixThreads
pub mod SleepDaemon
pub mod ButtonIrq
pub mod LedLoop
pub mod PinToggle
pub mod ChipRegisters
pub mod Sysfs
pub mod Listing
pub mod Fibonacci
pub mod Leaks
pub mod ElementList
pub mod System
pub mod Tests
