-- ===== src/PosixThreads/Joining/Measure.antt =====
-- What is left until main has joined all of the threads, and which turns make it less.
use csel.Prelude.{ℕ, ◌+◌, ◌≤◌, ◌≡◌, ◌≢◌, Option, some, none, true, false, arith, Progress}
use csel.PosixThreads.{
  Place, not_created, tests, prints, sleeps, pops, leaves, ended, Main, creates_1, creates_2,
  creates_3, reads_key, clears_running, joins_3, joins_2, joins_1, finished, State, Turn, turn_1,
  turn_2, turn_3, turn_main, signal, turn, catch_signal,
}

pub data Thread : Type 0 where
  first second third main_thread : Thread

-- Whose turn it is: a turn of main counts if there is a key, and a signal is no thread's.
abbrev pub who : Turn → Option Thread
who (turn_1 acts) = some first
who turn_2 = some second
who turn_3 = some third
who (turn_main true) = some main_thread
who (turn_main false) = none
who (signal in_main) = none

-- The threads that are created at each point of main, and is_running.
abbrev pub AtPoint : Main → State → Type 0
AtPoint creates_1 s = Unit
AtPoint creates_2 s = s.thread_1 ≢ not_created
AtPoint creates_3 s = (s.thread_1 ≢ not_created) × (s.thread_2 ≢ not_created)
AtPoint joins_3 s =
    (s.thread_1 ≢ not_created)
    × (s.thread_2 ≢ not_created)
    × (s.thread_3 ≢ not_created)
    × (s.is_running ≡ false)
AtPoint joins_2 s = (s.thread_1 ≢ not_created) × (s.thread_2 ≢ not_created) × (s.is_running ≡ false)
AtPoint joins_1 s = (s.thread_1 ≢ not_created) × (s.is_running ≡ false)
AtPoint finished s = Unit
AtPoint m s = (s.thread_1 ≢ not_created) × (s.thread_2 ≢ not_created) × (s.thread_3 ≢ not_created)

abbrev pub IsCreated : State → Type 0
IsCreated s = AtPoint s.main s × (s.thread_3 ≢ pops)

pub turn-IsCreated : (t : Turn) (s : State) → IsCreated s → IsCreated (turn t s)
unfolding turn catch_signal
turn-IsCreated (turn_1 acts) s inv = ground arith
turn-IsCreated turn_2 s inv = ground arith
turn-IsCreated turn_3 s inv = ground arith
turn-IsCreated (turn_main key) s inv = ground arith
turn-IsCreated (signal in_main) s inv = ground arith

-- The turns that a thread needs to end when is_running is false.
abbrev to_end : Place → ℕ
to_end (ended r) = 0
to_end leaves = 1
to_end pops = 2
to_end tests = 3
to_end sleeps = 4
to_end prints = 5
to_end not_created = 6

abbrev turns_left : Main → State → ℕ
turns_left creates_1 s = 26
turns_left creates_2 s = 25
turns_left creates_3 s = 24
turns_left reads_key s = 23
turns_left clears_running s = 22
turns_left joins_3 s = 15 + to_end s.thread_3
turns_left joins_2 s = 8 + to_end s.thread_2
turns_left joins_1 s = 1 + to_end s.thread_1
turns_left finished s = 0

abbrev pub left : State → ℕ
left s = turns_left s.main s

-- The thread that main waits for, or main.
abbrev running_of : Thread → Place → Thread
running_of t (ended r) = main_thread
running_of t p = t

abbrev waited_at : Main → State → Thread
waited_at joins_3 s = running_of third s.thread_3
waited_at joins_2 s = running_of second s.thread_2
waited_at joins_1 s = running_of first s.thread_1
waited_at m s = main_thread

abbrev pub waited : State → Thread
waited s = waited_at s.main s

pub turn-Progress : (t : Turn) (s : State) → IsCreated s → Progress turn who left waited t s
unfolding turn catch_signal
turn-Progress (turn_1 acts) s inv = ground arith
turn-Progress turn_2 s inv = ground arith
turn-Progress turn_3 s inv = ground arith
turn-Progress (turn_main true) s inv = ground arith
turn-Progress (turn_main false) s inv = ground arith
turn-Progress (signal in_main) s inv = ground arith

pub left-le : (s : State) → left s ≤ 26
left-le s = ground arith

pub left-finished : (s : State) → left s ≤ 0 → s.main ≡ finished
left-finished s h = ground arith
