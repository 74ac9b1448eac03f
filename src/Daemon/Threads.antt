-- ===== src/Daemon/Threads.antt =====
-- The two threads together, from pthread_create on: their calls interleave in any order that the mutex
-- allows. A thread sees what the other has done to the globals when it begins to handle a message or an
-- event.
pub mod Exclusion
pub mod Loops
pub mod Progress
use csel.Prelude.{ℕ, suc, ◌<◌, ◌≤◌, ◌≡◌, Bool, true, false, Option, none, some, List, [], ◌∷◌, ◌++◌}
use csel.Cstd.{Bytes, Outcome, ok}
use csel.Daemon.World.{M, Daemon, Trace, Syscall, Handler, lock, unlock, sent}
use csel.Daemon.Messages.{Locals, receive}
use csel.Daemon.Events.{run_handler}

-- The calls of a thread that runs `handle` again and again, each time on the globals as they are then.
pub data Runs {A : Type 0} (handle : A → M (Unit {0})) : Trace → Type 0 where
  finished : Runs handle []
  handled :
      (a : A) (d d' : Daemon) (t u : Trace)
      → handle a d ≡ ok (tt, d', t)
      → Runs handle u
      → Runs handle (t ++ u)

-- The messages of main, and the events of events_thread.
abbrev pub MainRuns : Trace → Type 0
MainRuns = Runs receive

abbrev pub handle_event : Handler → M (Unit {0})
handle_event h d = run_handler h d.file_descriptors d

abbrev pub EventsRuns : Trace → Type 0
EventsRuns = Runs handle_event

pub data Side : Type 0 where
  main_thread events_side : Side

-- mq_maxmsg of the queue of the answers
abbrev pub max_answers : ℕ
max_answers = 10

-- The calls that are left of each thread, the thread that holds lcd_mutex_lock, and the number of the answers
-- in the queue.
pub record Machine : Type 0 where
  pub main_calls : Trace
  pub events_calls : Trace
  pub holder : Option Side
  pub queued : ℕ

abbrev pub same_side : Side → Side → Bool
same_side main_thread main_thread = true
same_side events_side events_side = true
same_side a b = false

abbrev pub holds : Side → Option Side → Bool
holds s none = false
holds s (some s') = same_side s s'

-- One call of a thread, and what it does to the mutex and to the queue: lock waits until nobody holds the
-- mutex, and mq_send, which blocks, until the queue has room.
pub data Call (s : Side) : Option Side → ℕ → Syscall → Option Side → ℕ → Type 0 where
  take_lock : {q : ℕ} → Call s none q lock (some s) q
  give_lock : {h : Option Side} {q : ℕ} → Call s h q unlock none q
  queues : {h : Option Side} {q : ℕ} {m : Bytes} → q < max_answers → Call s h q (sent m) h (suc q)
  other :
      {h : Option Side} {q : ℕ} {c : Syscall}
      → (c ≡ lock → ⊥)
      → (c ≡ unlock → ⊥)
      → ((m : Bytes) → c ≡ sent m → ⊥)
      → Call s h q c h q

-- A call of one of the threads, or the client takes an answer out of the queue.
pub data Step : Machine → Machine → Type 0 where
  main_step :
      {c : Syscall} {t u : Trace} {h h' : Option Side} {q q' : ℕ}
      → Call main_thread h q c h' q'
      → Step
          (record { main_calls = c ∷ t; events_calls = u; holder = h; queued = q })
          (record { main_calls = t; events_calls = u; holder = h'; queued = q' })
  events_step :
      {c : Syscall} {t u : Trace} {h h' : Option Side} {q q' : ℕ}
      → Call events_side h q c h' q'
      → Step
          (record { main_calls = t; events_calls = c ∷ u; holder = h; queued = q })
          (record { main_calls = t; events_calls = u; holder = h'; queued = q' })
  client_takes :
      {t u : Trace} {h : Option Side} {q : ℕ}
      → Step
          (record { main_calls = t; events_calls = u; holder = h; queued = suc q })
          (record { main_calls = t; events_calls = u; holder = h; queued = q })

-- Reachable from the point at which both threads run and nobody holds the mutex; the queue may have
-- answers then that were left in it before.
pub data Reach : Machine → Type 0 where
  start :
      {t u : Trace} {q : ℕ}
      → MainRuns t
      → EventsRuns u
      → q ≤ max_answers
      → Reach (record { main_calls = t; events_calls = u; holder = none; queued = q })
  later : {m n : Machine} → Reach m → Step m n → Reach n
