-- ===== src/Blinker/Cycle.antt =====
-- The duty cycle: what the ticks of the timer do to the LED.
use csel.Prelude.{
  ℕ, zero, suc, ◌+◌, ◌%◌, ◌≤◌, ◌<◌, ◌≡◌, refl, inl, inr, List, [], ◌∷◌, ◌++◌, ℤ, pos, eqb_ℤ, ltb,
  leb, ◌==◌, Bool, false, Bool-cases, arith, if◌then◌else◌, replicate,
}
use csel.Cstd.{Bytes}
use csel.Blinker.{
  Blinker, MyStruct, Call, handle_timer_1_ptr, opened, wrote, closed, read_8, pwrote_at_0,
  created_timer, created_epoll, epoll_added, set_time, waited, handle_events, run_handler,
  handle_timer_1, toggle_led,
}

abbrev is_on : Bytes → Bool
is_on [] = false
is_on (c ∷ rest) = c == b'1'

-- The level of the LED's pin after some calls.
unfoldable pub level : ℤ → Bool → List Call → Bool
level led on [] = on
level led on (pwrote_at_0 fd text ∷ t) = level led (if eqb_ℤ fd led then is_on text else on) t
level led on (_ ∷ t) = level led on t

level-append :
    (led : ℤ) (on : Bool) (t u : List Call) → level led on (t ++ u) ≡ level led (level led on t) u
unfolding level
level-append led on [] u = refl
level-append led on (pwrote_at_0 fd text ∷ t) u =
    level-append led (if eqb_ℤ fd led then is_on text else on) t u
level-append led on (opened path fd ∷ t) u = level-append led on t u
level-append led on (wrote fd text ∷ t) u = level-append led on t u
level-append led on (closed fd ∷ t) u = level-append led on t u
level-append led on (read_8 fd ∷ t) u = level-append led on t u
level-append led on (created_timer fd ∷ t) u = level-append led on t u
level-append led on (created_epoll fd ∷ t) u = level-append led on t u
level-append led on (epoll_added e fd h ∷ t) u = level-append led on t u
level-append led on (set_time fd s i ∷ t) u = level-append led on t u
level-append led on (waited e ∷ t) u = level-append led on t u

-- Where a cycle stands after `c` of its hundred ticks: the LED is on for the first `duty` of them.
abbrev pub StandsAt : ℕ → ℕ → ℤ → Bool → (Unit {0}) × Blinker × List Call → Type 0
StandsAt duty c led on (_, b, calls) =
    (b.count ≡ c) × (b.k ≡ (if ltb c duty then 0 else 1)) × (level led on calls ≡ ltb c duty)

tick_lem :
    (d : MyStruct) (duty c : ℕ) (b : Blinker)
    → d.duty ≡ pos duty
    → 1 ≤ duty
    → duty ≤ 99
    → c < 100
    → StandsAt duty c d.led_fd (ltb c duty) (tt, b, [])
    → StandsAt duty ((c + 1) % 100) d.led_fd (ltb c duty) (run_handler handle_timer_1_ptr d b)
unfolding run_handler handle_timer_1 toggle_led level
tick_lem d duty c b e low high below (count, k, on) =
    elim (Bool-cases (eqb_ℤ (pos (b.count + 1)) d.duty)) [
      | inl t ↦
          let u : leb 100 (b.count + 1) ≡ false = ground (arith, e, count, t) in
          rw (t, u)
            (
              ground (arith, e, count, t),
              ground (arith, e, count, t, k),
              ground (arith, e, count, t, k),
            )
      | inr f ↦ elim (Bool-cases (leb 100 (b.count + 1))) [
        | inl u ↦
            rw (f, u)
              (
                ground (arith, e, count, u),
                ground (arith, e, count, u, k),
                ground (arith, e, count, u, k),
              )
        | inr u ↦
            rw (f, u)
              (
                ground (arith, count, u),
                ground (arith, e, count, f, u, k),
                ground (arith, e, count, f, u, k),
              )
      ]
    ]

then_StandsAt :
    (duty c c' : ℕ) (led : ℤ) (on : Bool) (b b' : Blinker) (t u : List Call)
    → StandsAt duty c led on (tt, b, t)
    → StandsAt duty c' led (ltb c duty) (tt, b', u)
    → StandsAt duty c' led on (tt, b', t ++ u)
then_StandsAt duty c c' led on b b' t u now later =
    (later.0, later.1, rw (level-append led on t u, now.2) later.2)

-- With a duty cycle from 1 to 99: where a cycle stands at its tick c below 100 (the count is c,
-- and `k` and the LED's level are those of the first `duty` ticks or of the rest), n events of
-- the timer bring it to the tick (c + n) % 100, so that the LED is on exactly while this is below
-- the duty cycle.
pub blink_cycle :
    (d : MyStruct) (duty n c : ℕ) (b : Blinker)
    → d.duty ≡ pos duty
    → 1 ≤ duty
    → duty ≤ 99
    → c < 100
    → StandsAt duty c d.led_fd (ltb c duty) (tt, b, [])
    → StandsAt duty
        ((c + n) % 100)
        d.led_fd
        (ltb c duty)
        (handle_events d (replicate n handle_timer_1_ptr) b)
unfolding handle_events level
blink_cycle d duty zero c b e low high below (count, k, on) =
    let m : (c + 0) % 100 ≡ c = omega arith in rw m (count, k, refl)
blink_cycle d duty (suc n) c b e low high below at =
    let (_, b', t) = run_handler handle_timer_1_ptr d b in
    let (_, b'', u) = handle_events d (replicate n handle_timer_1_ptr) b' in
    let now : StandsAt duty ((c + 1) % 100) d.led_fd (ltb c duty) (tt, b', t) =
      tick_lem d duty c b e low high below at in
    let m : ((c + 1) % 100 + n) % 100 ≡ (c + suc n) % 100 = omega arith in
    let later : StandsAt duty (((c + 1) % 100 + n) % 100) d.led_fd (ltb ((c + 1) % 100) duty)
        (tt, b'', u) =
      blink_cycle d duty n ((c + 1) % 100) b' e low high (omega arith) (now.0, now.1, refl) in
    rw (← m) (then_StandsAt duty ((c + 1) % 100) _ d.led_fd (ltb c duty) b' b'' t u now later)
