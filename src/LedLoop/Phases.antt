-- ===== src/LedLoop/Phases.antt =====
-- How long the LED is on and off.
use csel.Prelude.{
  ℕ, zero, suc, ◌+◌, ◌*◌, ◌≤◌, ◌≡◌, refl, ◌⊎◌, inl, inr, List, [], ◌∷◌, ◌==◌, Bool-cases, some, pos,
  true, false, arith, if◌then◌else◌,
}
use csel.Cstd.{Bytes, codes}
use csel.LedLoop.{Periods, State, start, toggles, toggled, poll, polls, main, periods}

-- The times that the loop has toggled the LED.
unfoldable pub toggle_count : Periods → State → List ℕ → ℕ
unfolding poll
toggle_count p s [] = 0
toggle_count p s (t2 ∷ ts) =
    let rest = toggle_count p (poll p s t2) ts in if toggles p s t2 then suc rest else rest

-- How long `n` phases of these lengths last together, from one of the first or of the second kind on.
unfoldable pub lasting : (p1 p2 k n : ℕ) → ℕ
lasting p1 p2 k zero = 0
lasting p1 p2 zero (suc n) = p1 + lasting p1 p2 1 n
lasting p1 p2 (suc k) (suc n) = p2 + lasting p1 p2 0 n

-- Each reading is at most `g` behind the one before.
abbrev pub Close : (g last : ℕ) → List ℕ → Type 0
Close g last [] = Unit
Close g last (t ∷ ts) = (last ≤ t) × (t ≤ last + g) × Close g t ts

abbrev lengths : (p1 p2 : ℕ) → Periods
lengths p1 p2 = record { p1 = pos p1; p2 = pos p2 }

abbrev at : (t1 k : ℕ) → Bytes → State
at t1 k led = record { t1 = t1; k = k; led = led }

polls-toggled :
    (p : Periods) (s : State) (t : ℕ) (ts : List ℕ)
    → toggles p s t ≡ true
    → (polls p s (t ∷ ts) ≡ polls p (toggled s t) ts)
      × (toggle_count p s (t ∷ ts) ≡ suc (toggle_count p (toggled s t) ts))
unfolding polls poll toggle_count
polls-toggled p s t ts h = rw h (refl, refl)

polls-waits :
    (p : Periods) (s : State) (t : ℕ) (ts : List ℕ)
    → toggles p s t ≡ false
    → (polls p s (t ∷ ts) ≡ polls p s ts) × (toggle_count p s (t ∷ ts) ≡ toggle_count p s ts)
unfolding polls poll toggle_count
polls-waits p s t ts h = rw h (refl, refl)

-- From a state whose last reading is `last`: what the phases of the toggles that follow take, and at most the
-- gap more for each.
polls-lasting :
    (g p1 p2 : ℕ) (ts : List ℕ) (last t1 k : ℕ) (led : Bytes)
    → let s = at t1 k led in
      let p = lengths p1 p2 in
      let n = toggle_count p s ts in
      k ≤ 1
      → t1 ≤ last
      → (toggles p s last ≡ false) ⊎ (last ≡ t1)
      → Close g last ts
      → (t1 + lasting p1 p2 k n ≤ (polls p s ts).t1)
        × ((polls p s ts).t1 ≤ t1 + lasting (p1 + g) (p2 + g) k n)
unfolding lasting
polls-lasting g p1 p2 [] last t1 k led small after quiet close =
    unfold polls toggle_count in omega arith
polls-lasting g p1 p2 (t ∷ ts) last t1 zero led small after quiet close =
    elim (Bool-cases (toggles (lengths p1 p2) (at t1 0 led) t)) [
      | inl now ↦
          let rest =
            polls-lasting g p1 p2 ts t t 1 (codes "0") (omega arith) (omega arith) (inr refl)
              close.2 in
          let early : p1 + t1 ≤ t = ground arith in
          let late : t ≤ t1 + p1 + g = ground arith in
          let (run, count) = polls-toggled (lengths p1 p2) (at t1 0 led) t ts now in
          rw (run, count) (omega arith)
      | inr wait ↦
          let (run, count) = polls-waits (lengths p1 p2) (at t1 0 led) t ts wait in
          rw (run, count)
            (polls-lasting g p1 p2 ts t t1 0 led small (omega arith) (inl wait) close.2)
    ]
polls-lasting g p1 p2 (t ∷ ts) last t1 (suc zero) led small after quiet close =
    elim (Bool-cases (toggles (lengths p1 p2) (at t1 1 led) t)) [
      | inl now ↦
          let rest =
            polls-lasting g p1 p2 ts t t 0 (codes "1") (omega arith) (omega arith) (inr refl)
              close.2 in
          let early : p2 + t1 ≤ t = ground arith in
          let late : t ≤ t1 + p2 + g = ground arith in
          let (run, count) = polls-toggled (lengths p1 p2) (at t1 1 led) t ts now in
          rw (run, count) (omega arith)
      | inr wait ↦
          let (run, count) = polls-waits (lengths p1 p2) (at t1 1 led) t ts wait in
          rw (run, count)
            (polls-lasting g p1 p2 ts t t1 1 led small (omega arith) (inl wait) close.2)
    ]
polls-lasting g p1 p2 (t ∷ ts) last t1 (suc (suc k)) led small after quiet close =
    absurd (omega arith)

-- The LED is on exactly while k is 0.
polls-led :
    (p : Periods) (ts : List ℕ) (s : State)
    → s.led ≡ (if s.k == 0 then codes "1" else codes "0")
    → (polls p s ts).led ≡ (if (polls p s ts).k == 0 then codes "1" else codes "0")
polls-led p [] s h = unfold polls in h
polls-led p (t ∷ ts) s h = elim (Bool-cases (toggles p s t)) [
  | inl now ↦ rw (polls-toggled p s t ts now).0 (polls-led p ts (toggled s t) refl)
  | inr wait ↦ rw (polls-waits p s t ts wait).0 (polls-led p ts s h)
]

-- For a period of `ms` milliseconds, and readings of the clock that do not go back and lie at
-- most `g` nanoseconds apart, the first of them at `t1`: the LED has been toggled for the last
-- time when as many phases had passed as it was toggled, on for two hundredths of the period and
-- off for the rest of it in turn, or later, by at most `g` for each phase; and the LED is on
-- exactly while k is 0.
pub phases_last :
    (ms t1 g : ℕ) (ts : List ℕ)
    → Close g t1 ts
    → let n = toggle_count (periods (pos ms)) (start t1) ts in
      (t1 + lasting (ms * 20000) (ms * 980000) 0 n ≤ (main (some (pos ms)) t1 ts).t1)
      × ((main (some (pos ms)) t1 ts).t1 ≤ t1 + lasting (ms * 20000 + g) (ms * 980000 + g) 0 n)
      × ((main (some (pos ms)) t1 ts).led
          ≡ (if (main (some (pos ms)) t1 ts).k == 0 then codes "1" else codes "0"))
phases_last ms t1 g ts close =
    let same : periods (pos ms) ≡ lengths (ms * 20000) (ms * 980000) = ground arith in
    let times : (t1
            + lasting (ms * 20000) (ms * 980000) 0 (toggle_count (periods (pos ms)) (start t1) ts)
          ≤ (main (some (pos ms)) t1 ts).t1)
        × ((main (some (pos ms)) t1 ts).t1
            ≤ t1
              + lasting (ms * 20000 + g) (ms * 980000 + g) 0
                  (toggle_count (periods (pos ms)) (start t1) ts)) =
      rw same (
        polls-lasting g (ms * 20000) (ms * 980000) ts t1 t1 0 (codes "1") (omega arith)
          (omega arith) (inr refl) close) in
    (times.0, times.1, polls-led (periods (pos ms)) ts (start t1) refl)
