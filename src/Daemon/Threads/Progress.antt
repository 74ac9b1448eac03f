-- ===== src/Daemon/Threads/Progress.antt =====
-- The threads never wait for each other for ever.
use csel.Prelude.{
  ℕ, suc, ◌≤◌, ◌≡◌, refl, ◌⊎◌, inl, inr, true, false, subst, sym, Option, none, some, [], ◌∷◌, ltb,
  Bool, Bool-cases, arith, ap,
}
use csel.Cstd.{Bytes}
use csel.Daemon.World.{Trace, Syscall, lock, unlock, sent}
use csel.Daemon.Locking.{discipline}
use csel.Daemon.Threads.{
  Side, main_thread, events_side, Machine, holds, Call, take_lock, give_lock, queues, max_answers,
  other, Step, main_step, events_step, Reach,
}
use csel.Daemon.Threads.Exclusion.{other_side, calls, IsDisciplined, Reach-IsDisciplined}

-- Whoever holds the mutex, a call can be made that neither takes it nor sends into a full queue.
can_call :
    (s : Side) (h : Option Side) (q : ℕ) (c : Syscall)
    → (c ≡ lock)
      ⊎ ((m : Bytes) × (c ≡ sent m) × (max_answers ≤ q))
      ⊎ ((h' : Option Side) × (q' : ℕ) × Call s h q c h' q')
can_call s h q lock = inl refl
can_call s h q unlock = inr (inr (none, q, give_lock))
can_call s h q (sent m) = elim (Bool-cases (ltb q max_answers)) [
  | inl room ↦ inr (inr (h, suc q, queues (ground arith)))
  | inr full ↦ inr (inl (m, refl, ground arith))
]
can_call s h q (_) = inr (inr (h, q, other (λ e. cc) (λ e. cc) (λ m e. cc)))

-- The thread holds the mutex, and can go on: it does not want the mutex again, and sends nothing.
holder_can_call :
    (s : Side) (h : Option Side) (q : ℕ) (c : Syscall) (t : Trace)
    → discipline true (c ∷ t) ≡ some false
    → (h' : Option Side) × (q' : ℕ) × Call s h q c h' q'
unfolding discipline
holder_can_call s h q c t d = elim (can_call s h q c) [
  | inl locks ↦
      let f : discipline true (lock ∷ t) ≡ some false =
        subst (λ x. discipline true (x ∷ t) ≡ some false) locks d in
      absurd cc
  | inr (inl (m, sends, full)) ↦
      let f : discipline true (sent m ∷ t) ≡ some false =
        subst (λ x. discipline true (x ∷ t) ≡ some false) sends d in
      absurd cc
  | inr (inr k) ↦ k
]

abbrev machine : Trace → Trace → Option Side → ℕ → Machine
machine t u h q = record { main_calls = t; events_calls = u; holder = h; queued = q }

-- A thread of the daemon makes its next call.
abbrev pub Advances : Machine → Type 0
Advances m =
    (s : Side) × (c : Syscall) × (n : Machine) × Step m n
    × (calls s m ≡ c ∷ calls s n)
    × (calls (other_side s) m ≡ calls (other_side s) n)

main-Advances :
    (c : Syscall) (t u : Trace) (h : Option Side) (q : ℕ)
    → ((h' : Option Side) × (q' : ℕ) × Call main_thread h q c h' q')
    → Advances (machine (c ∷ t) u h q)
main-Advances c t u h q (h', q', k) = (main_thread, c, machine t u h' q', main_step k, refl, refl)

events-Advances :
    (c : Syscall) (t u : Trace) (h : Option Side) (q : ℕ)
    → ((h' : Option Side) × (q' : ℕ) × Call events_side h q c h' q')
    → Advances (machine t (c ∷ u) h q)
events-Advances c t u h q (h', q', k) =
    (events_side, c, machine t u h' q', events_step k, refl, refl)

-- A thread that wants the mutex gets it, or its holder can go on.
main_locks :
    (t u : Trace) (h : Option Side) (q : ℕ)
    → discipline (holds main_thread h) (lock ∷ t) ≡ some false
    → discipline (holds events_side h) u ≡ some false
    → Advances (machine (lock ∷ t) u h q)
unfolding discipline
main_locks t u none q d e = main-Advances lock t u none q (_, _, take_lock)
main_locks t u (some main_thread) q d e = absurd cc
main_locks t [] (some events_side) q d e = absurd cc
main_locks t (c ∷ u) (some events_side) q d e =
    events-Advances c (lock ∷ t) u (some events_side) q (holder_can_call events_side _ q c u e)

events_lock :
    (t u : Trace) (h : Option Side) (q : ℕ)
    → discipline (holds main_thread h) t ≡ some false
    → discipline (holds events_side h) (lock ∷ u) ≡ some false
    → Advances (machine t (lock ∷ u) h q)
unfolding discipline
events_lock t u none q d e = events-Advances lock t u none q (_, _, take_lock)
events_lock t u (some events_side) q d e = absurd cc
events_lock [] u (some main_thread) q d e = absurd cc
events_lock (c ∷ t) u (some main_thread) q d e =
    main-Advances c t (lock ∷ u) (some main_thread) q (holder_can_call main_thread _ q c t d)

-- The thread has no call left, or sends an answer next.
abbrev pub SendsAtMost : Trace → Type 0
SendsAtMost t = (t ≡ []) ⊎ ((m : Bytes) × (u : Trace) × (t ≡ sent m ∷ u))

-- The queue is full, and what is left of the threads waits for the client.
abbrev pub AwaitsClient : Machine → Type 0
AwaitsClient m =
    (m.queued ≡ max_answers)
    × (m.holder ≡ none)
    × SendsAtMost m.main_calls
    × SendsAtMost m.events_calls

abbrev pub IsDone : Machine → Type 0
IsDone m = (m.main_calls ≡ []) × (m.events_calls ≡ []) × (m.holder ≡ none)

-- A thread that sends, or has no call left, does not hold the mutex.
sender_holds_nothing :
    (held : Bool) (t : Trace) → SendsAtMost t → discipline held t ≡ some false → held ≡ false
unfolding discipline
sender_holds_nothing held t (inl ends) d =
    let f : discipline held [] ≡ some false = subst (λ x. discipline held x ≡ some false) ends d in
    cc
sender_holds_nothing held t (inr (m, u, sends)) d =
    let f : discipline held (sent m ∷ u) ≡ some false =
      subst (λ x. discipline held x ≡ some false) sends d in
    ground arith

nobody_holds :
    (h : Option Side) → holds main_thread h ≡ false → holds events_side h ≡ false → h ≡ none
nobody_holds none e f = refl
nobody_holds (some main_thread) e f = absurd cc
nobody_holds (some events_side) e f = absurd cc

-- Each thread advances, or sends into the full queue, or has no call left.
main_goes_on :
    (t u : Trace) (h : Option Side) (q : ℕ)
    → discipline (holds main_thread h) t ≡ some false
    → discipline (holds events_side h) u ≡ some false
    → Advances (machine t u h q) ⊎ (t ≡ []) ⊎ (SendsAtMost t × (max_answers ≤ q))
main_goes_on [] u h q d e = inr (inl refl)
main_goes_on (c ∷ t) u h q d e = elim (can_call main_thread h q c) [
  | inl locks ↦
      let f = subst (λ x. discipline (holds main_thread h) (x ∷ t) ≡ some false) locks d in
      inl (subst (λ x. Advances (machine (x ∷ t) u h q)) (sym locks) (main_locks t u h q f e))
  | inr (inl (m, sends, full)) ↦ inr (inr (inr (m, t, ap (λ x. x ∷ t) sends), full))
  | inr (inr k) ↦ inl (main-Advances c t u h q k)
]

events_goes_on :
    (t u : Trace) (h : Option Side) (q : ℕ)
    → discipline (holds main_thread h) t ≡ some false
    → discipline (holds events_side h) u ≡ some false
    → Advances (machine t u h q) ⊎ (u ≡ []) ⊎ (SendsAtMost u × (max_answers ≤ q))
events_goes_on t [] h q d e = inr (inl refl)
events_goes_on t (c ∷ u) h q d e = elim (can_call events_side h q c) [
  | inl locks ↦
      let f = subst (λ x. discipline (holds events_side h) (x ∷ u) ≡ some false) locks e in
      inl (subst (λ x. Advances (machine t (x ∷ u) h q)) (sym locks) (events_lock t u h q d f))
  | inr (inl (m, sends, full)) ↦ inr (inr (inr (m, u, ap (λ x. x ∷ u) sends), full))
  | inr (inr k) ↦ inl (events-Advances c t u h q k)
]

nothing_held :
    (m : Machine)
    → IsDisciplined m
    → SendsAtMost m.main_calls
    → SendsAtMost m.events_calls
    → m.holder ≡ none
nothing_held m d main events =
    nobody_holds m.holder (sender_holds_nothing _ m.main_calls main d.by_main)
      (sender_holds_nothing _ m.events_calls events d.by_events)

-- However the calls of main's loop and of the events thread interleave with each other and with a
-- client that takes answers out of the queue, from the point at which both run, nobody holds the
-- mutex and the queue has at most its ten answers: either neither thread has a call left and
-- nobody holds the mutex; or one of them can make its next call; or the queue is full, nobody
-- holds the mutex, and each thread that has a call left sends an answer next, so that they wait
-- for a client alone.
pub no_deadlock : (m : Machine) → Reach m → IsDone m ⊎ Advances m ⊎ AwaitsClient m
no_deadlock m r =
    let d = Reach-IsDisciplined m r in
    let room = d.queue in
    elim (main_goes_on m.main_calls m.events_calls m.holder m.queued d.by_main d.by_events) [
      | inl advances ↦ inr (inl advances)
      | inr (inl ends) ↦
          elim (events_goes_on m.main_calls m.events_calls m.holder m.queued d.by_main
            d.by_events) [
              | inl advances ↦ inr (inl advances)
              | inr (inl ends_too) ↦
                  inl (ends, ends_too, nothing_held m d (inl ends) (inl ends_too))
              | inr (inr (sends, full)) ↦
                  inr (inr (omega arith, nothing_held m d (inl ends) sends, inl ends, sends))
            ]
      | inr (inr (sends, full)) ↦
          elim (events_goes_on m.main_calls m.events_calls m.holder m.queued d.by_main
            d.by_events) [
              | inl advances ↦ inr (inl advances)
              | inr (inl ends) ↦
                  inr (inr (omega arith, nothing_held m d sends (inl ends), sends, inl ends))
              | inr (inr (sends_too, _)) ↦
                  inr (inr (omega arith, nothing_held m d sends sends_too, sends, sends_too))
            ]
    ]
