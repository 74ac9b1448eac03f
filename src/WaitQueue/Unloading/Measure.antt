-- ===== src/WaitQueue/Unloading/Measure.antt =====
-- What is left of the unloading, and which turns make it less.
use csel.Prelude.{ℕ, ◌+◌, ◌≤◌, ◌≡◌, true, false, Option, some, ◌==◌, arith, Progress, if◌then◌else◌}
use csel.WaitQueue.{
  Waiter, tests_stop, checks_flag, asleep, resets_flag, ended, Notifier, tests, sets_flag, wakes,
  pauses, stopped, Unloader, loaded, stops_waiter, joins_waiter, stops_notifier, joins_notifier,
  unloaded, State, Thread, waiting, notifying, unloading, turn, thread_fn_wait, thread_fn_notif,
  skeleton_exit,
}

-- What each point of the unloading says of the two threads.
abbrev pub AtPoint : Unloader → State → Type 0
AtPoint loaded s = (s.stop_waiter ≡ false) × (s.stop_notifier ≡ false)
AtPoint stops_waiter s = (s.stop_waiter ≡ false) × (s.stop_notifier ≡ false)
AtPoint joins_waiter s = (s.stop_waiter ≡ true) × (s.stop_notifier ≡ false)
AtPoint stops_notifier s = (s.stop_notifier ≡ false) × (s.waiter ≡ ended)
AtPoint joins_notifier s = (s.stop_notifier ≡ true) × (s.waiter ≡ ended)
AtPoint unloaded s = Unit

abbrev pub IsSound : State → Type 0
IsSound s =
    AtPoint s.unloader s
    × (s.waiter ≡ asleep → s.flag ≡ 1 → s.notifier ≡ wakes)
    × (s.notifier ≡ stopped → s.stop_notifier ≡ true)

pub turn-IsSound : (t : Thread) (s : State) → IsSound s → IsSound (turn t s)
unfolding turn thread_fn_wait thread_fn_notif skeleton_exit
turn-IsSound waiting s inv = ground arith
turn-IsSound notifying s inv = ground arith
turn-IsSound unloading s inv = ground arith

-- The turns that the notifier needs to set the flag, and then to wake the waiter.
abbrev to_notice : Notifier → ℕ
to_notice sets_flag = 5
to_notice tests = 6
to_notice pauses = 7
to_notice wakes = 8
to_notice stopped = 9

-- The turns that the waiter, which is to stop, needs to end.
abbrev to_end : Waiter → State → ℕ
to_end ended s = 0
to_end tests_stop s = 1
to_end resets_flag s = 2
to_end checks_flag s = if s.flag == 1 then 3 else to_notice s.notifier
to_end asleep s = if s.flag == 1 then 4 else to_notice s.notifier

abbrev to_stop : Notifier → ℕ
to_stop stopped = 0
to_stop tests = 1
to_stop pauses = 2
to_stop wakes = 3
to_stop sets_flag = 4

-- The turns that are left for the unloading, of the threads that it waits for.
abbrev turns_left : Unloader → State → ℕ
turns_left loaded s = 18
turns_left stops_waiter s = 17
turns_left joins_waiter s = 7 + to_end s.waiter s
turns_left stops_notifier s = 6
turns_left joins_notifier s = 1 + to_stop s.notifier
turns_left unloaded s = 0

-- The thread that it waits for.
abbrev waited_for : Waiter → State → Thread
waited_for ended s = unloading
waited_for tests_stop s = waiting
waited_for resets_flag s = waiting
waited_for checks_flag s = if s.flag == 1 then waiting else notifying
waited_for asleep s = notifying

abbrev at_stop : Notifier → Thread
at_stop stopped = unloading
at_stop n = notifying

abbrev helpful : Unloader → State → Thread
helpful joins_waiter s = waited_for s.waiter s
helpful joins_notifier s = at_stop s.notifier
helpful u s = unloading

abbrev pub left : State → ℕ
left s = turns_left s.unloader s

abbrev pub waited : State → Thread
waited s = helpful s.unloader s

abbrev pub who : Thread → Option Thread
who t = some t

pub turn-Progress : (t : Thread) (s : State) → IsSound s → Progress turn who left waited t s
unfolding turn thread_fn_wait thread_fn_notif skeleton_exit
turn-Progress waiting s inv = ground arith
turn-Progress notifying s inv = ground arith
turn-Progress unloading s inv = ground arith

pub left-le : (s : State) → left s ≤ 18
left-le s = ground arith

pub left-unloaded : (s : State) → left s ≤ 0 → s.unloader ≡ unloaded
left-unloaded s h = ground arith
