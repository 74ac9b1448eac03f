-- ===== src/Daemon/Threads/Exclusion.antt =====
-- At most one thread writes to the display.
use csel.Prelude.{
  ℕ, ◌≤◌, ◌≡◌, refl, inl, inr, Bool, true, false, Bool-cases, subst, ◌∙◌, Option, none, some, [],
  ◌∷◌, arith,
}
use csel.Daemon.World.{M, Daemon, Trace, Syscall, lock, unlock, i2c, sent}
use csel.Cstd.{Bytes}
use csel.Daemon.Messages.{receive}
use csel.Daemon.Locking.{discipline, discipline-append, IsGuarded}
use csel.Daemon.Locking.Loops.{receive-IsGuarded, run_handler-IsGuarded}
use csel.Daemon.Threads.{
  Runs, finished, handled, handle_event, Side, main_thread, events_side, Machine, holds, Call,
  take_lock, give_lock, queues, max_answers, client_takes, other, Step, main_step, events_step,
  Reach, start, later,
}

Runs-discipline :
    {A : Type 0} (handle : A → M (Unit {0}))
    → ((a : A) (d : Daemon) → IsGuarded (handle a d))
    → (t : Trace) → Runs handle t
    → discipline false t ≡ some false
unfolding discipline
Runs-discipline handle guards [] finished = refl
Runs-discipline handle guards t (handled a d d' v u runs rest) =
    let g : discipline false v ≡ some false = subst IsGuarded runs (guards a d) in
    discipline-append false false v u g ∙ Runs-discipline handle guards u rest

-- Each thread keeps the discipline, from what it holds, and the queue its size.
pub record IsDisciplined (m : Machine) : Type 0 where
  pub by_main : discipline (holds main_thread m.holder) m.main_calls ≡ some false
  pub by_events : discipline (holds events_side m.holder) m.events_calls ≡ some false
  pub queue : m.queued ≤ max_answers

discipline-sent :
    (h : Bool) (m : Bytes) (t : Trace)
    → discipline h (sent m ∷ t) ≡ some false
    → discipline h t ≡ some false
unfolding discipline
discipline-sent h m t e = ground arith

discipline-other :
    (h : Bool) (c : Syscall) (t : Trace)
    → (c ≡ lock → ⊥)
    → (c ≡ unlock → ⊥)
    → discipline h (c ∷ t) ≡ some false
    → discipline h t ≡ some false
unfolding discipline
discipline-other h lock t n m e = absurd (n refl)
discipline-other h unlock t n m e = absurd (m refl)
discipline-other h (i2c b) t n m e = ground arith
discipline-other h (sent b) t n m e = ground arith
discipline-other h (_) t n m e = e

abbrev pub other_side : Side → Side
other_side main_thread = events_side
other_side events_side = main_thread

-- A call keeps the discipline of the thread that makes it, and that of the other thread, and the size of
-- the queue.
call_self :
    (s : Side) (h h' : Option Side) (q q' : ℕ) (c : Syscall) (t : Trace)
    → Call s h q c h' q'
    → discipline (holds s h) (c ∷ t) ≡ some false
    → discipline (holds s h') t ≡ some false
unfolding discipline
call_self main_thread h h' q q' c t take_lock e = e
call_self events_side h h' q q' c t take_lock e = e
call_self s h h' q q' c t give_lock e = ground arith
call_self s h h' q q' c t (queues {m} room) e = discipline-sent (holds s h) m t e
call_self s h h' q q' c t (other n m o) e = discipline-other (holds s h) c t n m e

call_other :
    (s : Side) (h h' : Option Side) (q q' : ℕ) (c : Syscall) (t u : Trace)
    → Call s h q c h' q'
    → discipline (holds s h) (c ∷ t) ≡ some false
    → discipline (holds (other_side s) h) u ≡ some false
    → discipline (holds (other_side s) h') u ≡ some false
unfolding discipline
call_other main_thread h h' q q' c t u take_lock e f = f
call_other events_side h h' q q' c t u take_lock e f = f
call_other s none h' q q' c t u give_lock e f = absurd cc
call_other main_thread (some main_thread) h' q q' c t u give_lock e f = f
call_other main_thread (some events_side) h' q q' c t u give_lock e f = absurd cc
call_other events_side (some main_thread) h' q q' c t u give_lock e f = absurd cc
call_other events_side (some events_side) h' q q' c t u give_lock e f = f
call_other s h h' q q' c t u (queues room) e f = f
call_other s h h' q q' c t u (other n m o) e f = f

call_queue :
    (s : Side) (h h' : Option Side) (q q' : ℕ) (c : Syscall)
    → Call s h q c h' q'
    → q ≤ max_answers
    → q' ≤ max_answers
call_queue s h h' q q' c take_lock e = e
call_queue s h h' q q' c give_lock e = e
call_queue s h h' q q' c (queues room) e = omega arith
call_queue s h h' q q' c (other n m o) e = e

Step-IsDisciplined : (m n : Machine) → IsDisciplined m → Step m n → IsDisciplined n
Step-IsDisciplined m n d (main_step {c} {t} {u} {h} {h'} {q} {q'} k) = record {
  by_main = call_self main_thread h h' q q' c t k d.by_main;
  by_events = call_other main_thread h h' q q' c t u k d.by_main d.by_events;
  queue = call_queue main_thread h h' q q' c k d.queue;
}
Step-IsDisciplined m n d (events_step {c} {t} {u} {h} {h'} {q} {q'} k) = record {
  by_main = call_other events_side h h' q q' c u t k d.by_events d.by_main;
  by_events = call_self events_side h h' q q' c u k d.by_events;
  queue = call_queue events_side h h' q q' c k d.queue;
}
Step-IsDisciplined m n d (client_takes {q}) = record {
  by_main = d.by_main;
  by_events = d.by_events;
  queue = let full = d.queue in omega arith;
}

pub Reach-IsDisciplined : (m : Machine) → Reach m → IsDisciplined m
Reach-IsDisciplined m (start {t} {u} main events room) = record {
  by_main = Runs-discipline receive receive-IsGuarded t main;
  by_events =
      Runs-discipline handle_event (λ h d. run_handler-IsGuarded h d.file_descriptors d) u events;
  queue = room;
}
Reach-IsDisciplined m (later {m = l} r s) = Step-IsDisciplined l m (Reach-IsDisciplined l r) s

abbrev pub calls : Side → Machine → Trace
calls main_thread m = m.main_calls
calls events_side m = m.events_calls

-- A thread that is inside: its next call writes to the display or gives the mutex back.
abbrev pub is_inside : Trace → Bool
is_inside (i2c b ∷ t) = true
is_inside (unlock ∷ t) = true
is_inside _ = false

discipline-inside :
    (h : Bool) (t : Trace) → discipline h t ≡ some false → is_inside t ≡ true → h ≡ true
unfolding discipline
discipline-inside h [] e i = absurd cc
discipline-inside h (i2c b ∷ t) e i = ground arith
discipline-inside h (unlock ∷ t) e i = ground arith
discipline-inside h (_ ∷ t) e i = absurd cc

holds-eq : (s : Side) (h : Option Side) → holds s h ≡ true → h ≡ some s
holds-eq main_thread (some main_thread) e = refl
holds-eq events_side (some events_side) e = refl
holds-eq s none e = absurd cc
holds-eq main_thread (some events_side) e = absurd cc
holds-eq events_side (some main_thread) e = absurd cc

only_one : (s : Side) → holds (other_side s) (some s) ≡ false
only_one main_thread = refl
only_one events_side = refl

discipline_of :
    (s : Side) (m : Machine)
    → IsDisciplined m
    → discipline (holds s m.holder) (calls s m) ≡ some false
discipline_of main_thread m d = d.by_main
discipline_of events_side m d = d.by_events

-- However the calls of main's loop and of the events thread interleave, from the point at which
-- both run and nobody holds the mutex: where a thread's next call writes to the display's bus or
-- gives the mutex back, this thread holds the mutex, and the other thread is at no such call.
pub display_exclusion :
    (m : Machine) (s : Side)
    → Reach m
    → is_inside (calls s m) ≡ true
    → (m.holder ≡ some s) × (is_inside (calls (other_side s) m) ≡ false)
display_exclusion m s r inside =
    let d = Reach-IsDisciplined m r in
    let mine = holds-eq s m.holder (discipline-inside _ (calls s m) (discipline_of s m d) inside) in
    (
      mine,
      elim (Bool-cases (is_inside (calls (other_side s) m))) [
        | inl both ↦
            let theirs =
              discipline-inside _ (calls (other_side s) m) (discipline_of (other_side s) m d)
                both in
            absurd (cc (theirs, mine, only_one s))
        | inr out ↦ out
      ],
    )
