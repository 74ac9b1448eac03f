-- ===== src/Blinker/Period.antt =====
-- The period: its bounds under the buttons, the intervals that the timer gets, and the descriptor of
-- the timer when it cannot be set.
use csel.Prelude.{
  ℕ, ◌+◌, ◌*◌, ◌/◌, ◌%◌, ◌≤◌, ◌<◌, ◌≡◌, refl, inl, inr, List, [], ◌∷◌, ℤ, pos, ltb_ℤ, eqb_ℤ, leb,
  ◌+ℤ◌, ◌-ℤ◌, ◌-◌, drop, Bool, true, false, Bool-cases, arith, All, All-append, if◌then◌else◌,
}
use csel.Blinker.{
  Blinker, MyStruct, Handler, Call, handle_timer_1_ptr, handle_k1_ptr, handle_k2_ptr, handle_k3_ptr,
  closed, set_time, interval_of, setup_time_timer, restart_timer, run_handler, handle_events,
  first_answer, handle_timer_1, handle_k1, handle_k2, handle_k3,
}

-- The periods that the buttons can reach from one of them.
abbrev pub InRange : ℤ → Type 0
InRange p = (n : ℕ) × (p ≡ pos n) × (1 ≤ n) × (n ≤ 60099)

-- An interval that timerfd_settime accepts and that makes the timer fire again and again.
abbrev pub IsPeriodic : ℤ × ℤ → Type 0
IsPeriodic (sec, nsec) =
    (s : ℕ) × (f : ℕ) × (sec ≡ pos s) × (nsec ≡ pos f) × (f < 1000000000) × (1 ≤ s + f)

abbrev pub SetsPeriodic : Call → Type 0
SetsPeriodic (set_time tfd start interval) = IsPeriodic interval
SetsPeriodic c = Unit {0}

-- The interval for a period of n milliseconds is exactly a hundredth of it, n * 10000
-- nanoseconds, in seconds and less than 1000000000 nanoseconds.
interval_exact :
    (n : ℕ)
    → (s : ℕ) × (f : ℕ) × (interval_of (pos n) ≡ (pos s, pos f))
      × (f < 1000000000)
      × (s * 1000000000 + f ≡ n * 10000)
unfolding interval_of
interval_exact n =
    (n * 1000000 / 100 / 1000000000, n * 1000000 / 100 % 1000000000, refl, omega arith, omega arith)

interval-IsPeriodic : (p : ℤ) → InRange p → IsPeriodic (interval_of p)
interval-IsPeriodic p (n, e, low, high) =
    let (s, f, i, below, sum) = interval_exact n in rw (e, i) (s, f, refl, refl, below, omega arith)

-- What timerfd_settime answers, behind the time that clock_gettime stores.
abbrev pub settime_result : Blinker → ℤ
settime_result b = first_answer (drop 1 (drop 1 b.answers))

-- A restart of the timer sets it once, with the interval of the current period and the time that
-- was read as its start, and changes nothing but the answers that it consumed. If timerfd_settime
-- answers with a negative number, the timer's descriptor is closed twice after that, otherwise it
-- is not closed.
pub restart_timer_lem :
    (d : MyStruct) (b : Blinker)
    → restart_timer d b ≡ (
      tt,
      record b { answers = drop 1 (drop 1 (drop 1 b.answers)) },
      set_time d.timer_fd
            (first_answer b.answers, first_answer (drop 1 b.answers))
            (interval_of b.period_timer_ms)
          ∷ (if ltb_ℤ (settime_result b) (pos 0)
              then closed d.timer_fd ∷ closed d.timer_fd ∷ []
              else []),
    )
unfolding restart_timer setup_time_timer
restart_timer_lem d b = elim (Bool-cases (ltb_ℤ (settime_result b) (pos 0))) [
  | inl t ↦ ground (arith, t)
  | inr f ↦ ground (arith, f)
]

abbrev pub Keeps : (Unit {0}) × Blinker × List Call → Type 0
Keeps (_, b, calls) = InRange b.period_timer_ms × All SetsPeriodic calls

restart_timer-Keeps :
    (d : MyStruct) (b : Blinker) → InRange b.period_timer_ms → Keeps (restart_timer d b)
restart_timer-Keeps d b h =
    rw (restart_timer_lem d b)
      (h, (interval-IsPeriodic _ h, closings (ltb_ℤ (settime_result b) (pos 0))))
  where
    closings :
        (failed : Bool)
        → All SetsPeriodic (if failed then closed d.timer_fd ∷ closed d.timer_fd ∷ [] else [])
    closings true = (tt, (tt, tt))
    closings false = tt

pub handler-Keeps :
    (h : Handler) (d : MyStruct) (b : Blinker)
    → InRange b.period_timer_ms
    → Keeps (run_handler h d b)
unfolding run_handler handle_timer_1 handle_k1 handle_k2 handle_k3
handler-Keeps handle_timer_1_ptr d b h = elim (Bool-cases (eqb_ℤ (pos (b.count + 1)) d.duty)) [
  | inl t ↦ elim (Bool-cases (leb 100 (b.count + 1))) [
    | inl u ↦ rw (t, u) (h, (tt, (tt, (tt, tt))))
    | inr u ↦ rw (t, u) (h, (tt, (tt, tt)))
  ]
  | inr f ↦ elim (Bool-cases (leb 100 (b.count + 1))) [
    | inl u ↦ rw (f, u) (h, (tt, (tt, tt)))
    | inr u ↦ rw (f, u) (h, (tt, tt))
  ]
]
handler-Keeps handle_k1_ptr d b (n, e, low, high) =
    elim (Bool-cases (ltb_ℤ b.period_timer_ms (pos 60000))) [
      | inl t ↦
          let kept =
            restart_timer-Keeps d (record b { period_timer_ms = b.period_timer_ms +ℤ pos 100 })
              (n + 100, ground (arith, e), omega arith, ground (arith, e, t)) in
          rw t (kept.0, (tt, kept.1))
      | inr f ↦ let kept = restart_timer-Keeps d b (n, e, low, high) in rw f (kept.0, (tt, kept.1))
    ]
handler-Keeps handle_k2_ptr d b h =
    let kept =
      restart_timer-Keeps d (record b { period_timer_ms = pos 250 })
        (250, refl, omega arith, omega arith) in
    (kept.0, (tt, kept.1))
handler-Keeps handle_k3_ptr d b (n, e, low, high) =
    elim (Bool-cases (ltb_ℤ (pos 100) b.period_timer_ms)) [
      | inl t ↦
          let kept =
            restart_timer-Keeps d (record b { period_timer_ms = b.period_timer_ms -ℤ pos 100 })
              (n - 100, ground (arith, e, t), ground (arith, e, t), omega arith) in
          rw t (kept.0, (tt, kept.1))
      | inr f ↦ let kept = restart_timer-Keeps d b (n, e, low, high) in rw f (kept.0, (tt, kept.1))
    ]

-- From a period of 1 to 60099 milliseconds, whatever events come and whatever the system calls
-- answer, the period stays in these bounds, of which the upper lies above a minute, and each
-- interval that the timer is given has its nanoseconds below 1000000000 and is not 0, with which
-- the timer would fire once and no more.
pub handle_events-Keeps :
    (d : MyStruct) (hs : List Handler) (b : Blinker)
    → InRange b.period_timer_ms
    → Keeps (handle_events d hs b)
unfolding handle_events
handle_events-Keeps d [] b h = (h, tt)
handle_events-Keeps d (e ∷ hs) b h =
    let (kept, sets) = handler-Keeps e d b h in
    let (kept', sets') = handle_events-Keeps d hs _ kept in
    (kept', All-append SetsPeriodic _ _ sets sets')
