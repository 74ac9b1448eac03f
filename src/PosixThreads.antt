-- ===== src/PosixThreads.antt =====
-- environment/code_exemples/threads.c: three threads, of which a signal cancels the first, and their main, which
-- waits for all of them.
pub mod Cleaning
pub mod Joining
use csel.Prelude.{ℕ, ◌+◌, List, [], ◌∷◌, ◌++◌, Bool, true, false, ◌&&◌, turns, if◌then◌else◌}

-- What pthread_join gives: the value that the thread has returned, or PTHREAD_CANCELED.
pub data Result : Type 0 where
  value : ℕ → Result
  canceled : Result

-- Where a thread is: not created, at its test of is_running, in printf, in sleep, at
-- pthread_cleanup_pop, at pthread_exit or return, or at its end. thread_3 has no cleanup.
pub data Place : Type 0 where
  not_created tests prints sleeps pops leaves : Place
  ended : Result → Place

-- Where main is: at a pthread_create, in getchar, at `is_running = false`, at a pthread_join, or
-- at its end.
pub data Main : Type 0 where
  creates_1 creates_2 creates_3 reads_key clears_running joins_3 joins_2 joins_1 finished : Main

-- `cancel` is a pending cancellation of thread_1, `undefined` a pthread_cancel for no thread. The
-- runs of `cleaner` are counted for each thread that has pushed it; `joined` are the values that
-- main has printed.
pub record State : Type 0 where
  pub is_running : Bool
  pub thread_1 : Place
  pub thread_2 : Place
  pub thread_3 : Place
  pub cancel : Bool
  pub undefined : Bool
  pub cleaned_1 : ℕ
  pub cleaned_2 : ℕ
  pub main : Main
  pub joined : List Result

-- The end of thread_1 by cancellation runs what it has pushed.
abbrev pub cancel_1 : State → State
cancel_1 s = record s { thread_1 = ended canceled; cleaned_1 = s.cleaned_1 + 1 }

-- A turn of thread_1. The threads' calls of printf may act on a cancellation, sleep always does.
abbrev pub thread_1_at : Place → (acts : Bool) → State → State
thread_1_at tests acts s = record s { thread_1 = if s.is_running then prints else pops }
thread_1_at prints acts s = if s.cancel && acts then cancel_1 s else record s { thread_1 = sleeps }
thread_1_at sleeps acts s = if s.cancel then cancel_1 s else record s { thread_1 = tests }
thread_1_at pops acts s = record s {
  cleaned_1 = s.cleaned_1 + 1;
  thread_1 = if s.cancel && acts then ended canceled else leaves;
}
thread_1_at leaves acts s = record s { thread_1 = ended (value 1) }
thread_1_at p acts s = s

-- A turn of thread_2, which pops the cleanup without a run of it,
abbrev pub thread_2_at : Place → State → State
thread_2_at tests s = record s { thread_2 = if s.is_running then prints else pops }
thread_2_at prints s = record s { thread_2 = sleeps }
thread_2_at sleeps s = record s { thread_2 = tests }
thread_2_at pops s = record s { thread_2 = leaves }
thread_2_at leaves s = record s { thread_2 = ended (value 0) }
thread_2_at p s = s

-- and of thread_3.
abbrev pub thread_3_at : Place → State → State
thread_3_at tests s = record s { thread_3 = if s.is_running then prints else leaves }
thread_3_at prints s = record s { thread_3 = sleeps }
thread_3_at sleeps s = record s { thread_3 = tests }
thread_3_at leaves s = record s { thread_3 = ended (value 3) }
thread_3_at p s = s

-- pthread_join returns when the thread has ended.
abbrev pub join : Place → Main → State → State
join (ended r) next s = record s { main = next; joined = s.joined ++ r ∷ [] }
join p next s = s

-- A turn of main. getchar returns when there is a key.
abbrev pub main_at : Main → (key : Bool) → State → State
main_at creates_1 key s = record s { main = creates_2; thread_1 = tests }
main_at creates_2 key s = record s { main = creates_3; thread_2 = tests }
main_at creates_3 key s = record s { main = reads_key; thread_3 = tests }
main_at reads_key key s = if key then record s { main = clears_running } else s
main_at clears_running key s = record s { main = joins_3; is_running = false }
main_at joins_3 key s = join s.thread_3 joins_2 s
main_at joins_2 key s = join s.thread_2 joins_1 s
main_at joins_1 key s = join s.thread_1 finished s
main_at finished key s = s

-- Whether thread_id[0] is the identifier of a thread: created, and not joined yet.
abbrev pub has_thread_1 : Main → Bool
has_thread_1 creates_1 = false
has_thread_1 finished = false
has_thread_1 m = true

-- getchar returns where the signal is handled by main's thread.
abbrev pub interrupted : Main → (in_main : Bool) → Main
interrupted reads_key true = clears_running
interrupted m in_main = m

unfoldable pub catch_signal : (in_main : Bool) → State → State
catch_signal in_main s =
    let valid = has_thread_1 s.main in
    record s {
      cancel = if valid then true else s.cancel;
      undefined = if valid then s.undefined else true;
      is_running = false;
      main = interrupted s.main in_main;
    }

pub data Turn : Type 0 where
  turn_1 : (acts : Bool) → Turn
  turn_2 turn_3 : Turn
  turn_main : (key : Bool) → Turn
  signal : (in_main : Bool) → Turn

unfoldable pub turn : Turn → State → State
unfolding catch_signal
turn (turn_1 acts) s = thread_1_at s.thread_1 acts s
turn turn_2 s = thread_2_at s.thread_2 s
turn turn_3 s = thread_3_at s.thread_3 s
turn (turn_main key) s = main_at s.main key s
turn (signal in_main) s = catch_signal in_main s

abbrev pub run : List Turn → State → State
run = turns turn

-- The program behind install_catch_signal.
abbrev pub start : State
start = record {
  is_running = true;
  thread_1 = not_created;
  thread_2 = not_created;
  thread_3 = not_created;
  cancel = false;
  undefined = false;
  cleaned_1 = 0;
  cleaned_2 = 0;
  main = creates_1;
  joined = [];
}
