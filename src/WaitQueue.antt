-- ===== src/WaitQueue.antt =====
-- modules_Ex/module_sommeil_5/skeleton.c: a thread that waits on a queue, and one that notifies it every five
-- seconds.
pub mod Notices
pub mod Unloading
use csel.Prelude.{ℕ, List, [], ◌∷◌, Bool, true, false, ◌==◌, turns, if◌then◌else◌}
use csel.Cstd.{Outcome, ok, fault, and_then, null_pointer}

-- Where thread_fn_wait is: at the test of kthread_should_stop, at the test of the condition in
-- wait_event_interruptible, asleep on the queue, at `flag = 0`, or at its end.
pub data Waiter : Type 0 where
  tests_stop checks_flag asleep resets_flag ended : Waiter

-- Where thread_fn_notif is: at its test, at `flag = 1`, at wake_up, in ssleep, or at its end.
pub data Notifier : Type 0 where
  tests sets_flag wakes pauses stopped : Notifier

-- Where skeleton_exit is: not called, at a kthread_stop, waiting there for the end of the thread,
-- or at its end.
pub data Unloader : Type 0 where
  loaded stops_waiter joins_waiter stops_notifier joins_notifier unloaded : Unloader

-- `stop_waiter` and `stop_notifier` are what kthread_should_stop answers to thread1 and thread2.
pub record State : Type 0 where
  pub flag : ℕ
  pub waiter : Waiter
  pub notifier : Notifier
  pub unloader : Unloader
  pub stop_waiter : Bool
  pub stop_notifier : Bool

-- wake_up on the queue, and the wake-up of kthread_stop: the waiter tests its condition again.
abbrev pub woken : Waiter → Waiter
woken asleep = checks_flag
woken w = w

-- A turn of thread1; one that sleeps does nothing.
abbrev pub wait_at : Waiter → State → State
wait_at tests_stop s = record s { waiter = if s.stop_waiter then ended else checks_flag }
wait_at checks_flag s = record s { waiter = if s.flag == 1 then resets_flag else asleep }
wait_at asleep s = s
wait_at resets_flag s = record s { flag = 0; waiter = tests_stop }
wait_at ended s = s

unfoldable pub thread_fn_wait : State → State
thread_fn_wait s = wait_at s.waiter s

-- A turn of thread2.
abbrev pub notify_at : Notifier → State → State
notify_at tests s = record s { notifier = if s.stop_notifier then stopped else sets_flag }
notify_at sets_flag s = record s { flag = 1; notifier = wakes }
notify_at wakes s = record s { waiter = woken s.waiter; notifier = pauses }
notify_at pauses s = record s { notifier = tests }
notify_at stopped s = s

unfoldable pub thread_fn_notif : State → State
thread_fn_notif s = notify_at s.notifier s

-- kthread_stop returns when the thread has ended.
abbrev pub join_waiter : Waiter → State → State
join_waiter ended s = record s { unloader = stops_notifier }
join_waiter w s = s

abbrev pub join_notifier : Notifier → State → State
join_notifier stopped s = record s { unloader = unloaded }
join_notifier n s = s

-- A turn of rmmod: the first calls skeleton_exit.
abbrev pub exit_at : Unloader → State → State
exit_at loaded s = record s { unloader = stops_waiter }
exit_at stops_waiter s = record s {
  stop_waiter = true;
  waiter = woken s.waiter;
  unloader = joins_waiter;
}
exit_at joins_waiter s = join_waiter s.waiter s
exit_at stops_notifier s = record s { stop_notifier = true; unloader = joins_notifier }
exit_at joins_notifier s = join_notifier s.notifier s
exit_at unloaded s = s

unfoldable pub skeleton_exit : State → State
skeleton_exit s = exit_at s.unloader s

pub data Thread : Type 0 where
  waiting notifying unloading : Thread

unfoldable pub turn : Thread → State → State
unfolding thread_fn_wait thread_fn_notif skeleton_exit
turn waiting s = thread_fn_wait s
turn notifying s = thread_fn_notif s
turn unloading s = skeleton_exit s

-- The turns in the order in which they are taken.
abbrev pub run : List Thread → State → State
run = turns turn

-- What kthread_create answers: a thread, or an error as a pointer, which is not NULL.
pub data Created : Type 0 where
  thread error_pointer : Created

-- wake_up_process, behind a test of the pointer for NULL that an error passes
abbrev pub wake_up_process : Created → Outcome (Unit {0})
wake_up_process thread = ok tt
wake_up_process error_pointer = fault null_pointer

abbrev pub running : State
running = record {
  flag = 0;
  waiter = tests_stop;
  notifier = tests;
  unloader = loaded;
  stop_waiter = false;
  stop_notifier = false;
}

unfoldable pub skeleton_init : (thread1 thread2 : Created) → Outcome State
skeleton_init thread1 thread2 =
    and_then (wake_up_process thread1) λ _. and_then (wake_up_process thread2) λ _. ok running
