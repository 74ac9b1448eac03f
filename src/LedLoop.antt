-- ===== src/LedLoop.antt =====
-- environment/code_exemples/led_exemple.c: a program that blinks an LED by polling the clock.
pub mod Phases
use csel.Prelude.{
  ℕ, suc, ◌-◌, ◌*◌, ◌/◌, ◌%◌, ◌+◌, List, [], ◌∷◌, Bool, not, ◌&&◌, ◌||◌, ◌==◌, Option, none, some,
  ℤ, pos, negsuc, sub_ℕ, ◌-ℤ◌, ltb_ℤ, if◌then◌else◌,
}
use csel.Cstd.{Bytes, codes}
use csel.PinToggle.{Write}

-- The writes of open_led, whose files are closed again.
abbrev pub open_led : List Write
open_led =
    record { path = codes "/sys/class/gpio/unexport"; text = codes "10" }
    ∷ record { path = codes "/sys/class/gpio/export"; text = codes "10" }
    ∷ record { path = codes "/sys/class/gpio/gpio10/direction"; text = codes "out" }
    ∷ []

-- The two parts of the period in nanoseconds.
pub record Periods : Type 0 where
  pub p1 : ℤ
  pub p2 : ℤ

-- duty
abbrev pub duty : ℕ
duty = 2

-- period * 1000000 / 100 * duty, where the division cuts towards 0, and what is left of the period
abbrev pub periods : ℤ → Periods
periods (pos n) =
    let p1 = n * 1000000 / 100 * duty in record { p1 = pos p1; p2 = pos (n * 1000000) -ℤ pos p1 }
periods (negsuc n) =
    let p1 = sub_ℕ 0 (suc n * 1000000 / 100 * duty) in
    record { p1 = p1; p2 = sub_ℕ 0 (suc n * 1000000) -ℤ p1 }

-- The milliseconds of the first argument, or 1000.
abbrev pub period_of : Option ℤ → ℤ
period_of none = pos 1000
period_of (some ms) = ms

-- The variables of main, with t1 in nanoseconds, and the last text written to the value of the LED.
pub record State : Type 0 where
  pub t1 : ℕ
  pub k : ℕ
  pub led : Bytes

abbrev pub start : ℕ → State
start t1 = record { t1 = t1; k = 0; led = codes "1" }

abbrev pub toggles : Periods → State → (t2 : ℕ) → Bool
toggles p s t2 =
    let delta = pos t2 -ℤ pos s.t1 in
    (s.k == 0 && not (ltb_ℤ delta p.p1)) || (s.k == 1 && not (ltb_ℤ delta p.p2))

abbrev pub toggled : State → (t2 : ℕ) → State
toggled s t2 =
    let k = (s.k + 1) % 2 in
    record { t1 = t2; k = k; led = if k == 0 then codes "1" else codes "0" }

-- A round of the loop, with what the clock says.
unfoldable pub poll : Periods → State → (t2 : ℕ) → State
poll p s t2 = if toggles p s t2 then toggled s t2 else s

unfoldable pub polls : Periods → State → List ℕ → State
unfolding poll
polls p s [] = s
polls p s (t2 ∷ ts) = polls p (poll p s t2) ts

-- main on its argument and the readings of the clock, the first of which is that before the loop.
abbrev pub main : Option ℤ → (t1 : ℕ) → List ℕ → State
main arg t1 ts = polls (periods (period_of arg)) (start t1) ts
