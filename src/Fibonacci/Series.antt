-- ===== src/Fibonacci/Series.antt =====
-- The numbers against a reference that counts up.
use native.Mathlib.Nat.{add_comm}
use csel.Prelude.{
  ℕ, zero, suc, ◌+◌, ◌^◌, ◌≤◌, ◌≡◌, refl, ap, ◌∙◌, List, [], ◌∷◌, leb, if◌then◌else◌, true, false,
  ℤ, pos, some, arith, dec_lt,
}
use csel.Cstd.{ok, fault, and_then, signed_overflow}
use csel.Fibonacci.{in_long, fibonacci_from_zero, fibonacci, series, main}

-- F(n) and F(n + 1), without a bound.
unfoldable pub pair : ℕ → ℕ × ℕ
pair zero = (0, 1)
pair (suc n) = let (a, b) = pair n in (b, a + b)

abbrev pub reference : ℕ → ℕ
reference n = (pair n).0

unfoldable pub references : (rounds i : ℕ) → List ℤ
references zero i = []
references (suc rounds) i = pos (reference i) ∷ references rounds (i + 1)

in_long_sum :
    (a b : ℕ)
    → (and_then (in_long a) λ x. and_then (in_long b) λ y. in_long (x + y)) ≡ in_long (a + b)
in_long_sum a b = ground arith

-- Two neighbours at once.
fibonacci-pair :
    (n : ℕ)
    → (fibonacci_from_zero n ≡ in_long (pair n).0)
      × (fibonacci_from_zero (suc n) ≡ in_long (pair n).1)
unfolding fibonacci_from_zero pair
fibonacci-pair zero = (refl, refl)
fibonacci-pair (suc n) =
    let (here, next) = fibonacci-pair n in
    (
      next,
      rw (next, here)
          (in_long_sum (pair n).1 (pair n).0 ∙ ap in_long (add_comm (pair n).1 (pair n).0)),
    )

pair-ordered : (n : ℕ) → (pair n).0 ≤ (pair n).1
unfolding pair
pair-ordered zero = omega arith
pair-ordered (suc n) = omega arith

reference-grows : (m n : ℕ) → m ≤ n → reference m ≤ reference n
unfolding pair
reference-grows m zero h = let e : m ≡ 0 = omega arith in rw e (omega arith)
reference-grows m (suc n) h = elim (dec_lt m (suc n)) [
  | yes below ↦ omega (arith, reference-grows m n (omega arith), pair-ordered n)
  | no not_below ↦ let e : m ≡ suc n = omega arith in rw e (omega arith)
]

last_fit : reference 92 ≡ 7540113804746346429
unfolding pair
last_fit = refl

first_over : reference 93 ≡ 12200160415121876738
unfolding pair
first_over = refl

reference_fits : (n : ℕ) → n ≤ 92 → leb (2 ^ 63) (reference n) ≡ false
reference_fits n h = let low = reference-grows n 92 h in let last = last_fit in ground arith

reference_overflows : (n : ℕ) → 93 ≤ n → leb (2 ^ 63) (reference n) ≡ true
reference_overflows n h =
    let high = reference-grows 93 n h in let first = first_over in ground arith

fibonacci-reference :
    (n : ℕ)
    → fibonacci (pos n)
      ≡ (if leb (2 ^ 63) (reference n) then fault signed_overflow else ok (pos (reference n)))
unfolding fibonacci
fibonacci-reference n = rw ((fibonacci-pair n).0) (ground arith)

series-references : (rounds i : ℕ) → i + rounds ≤ 93 → series rounds i ≡ ok (references rounds i)
unfolding series references
series-references zero i h = refl
series-references (suc rounds) i h =
    rw
      (
        fibonacci-reference i,
        reference_fits i (omega arith),
        series-references rounds (i + 1) (omega arith),
      )
      refl

series_overflows :
    (rounds i : ℕ) → i ≤ 93 → 94 ≤ i + rounds → series rounds i ≡ fault signed_overflow
unfolding series
series_overflows zero i low h = absurd (omega arith)
series_overflows (suc rounds) i low h = elim (dec_lt i 93) [
  | yes fits ↦
      rw
        (
          fibonacci-reference i,
          reference_fits i (omega arith),
          series_overflows rounds (i + 1) (omega arith) (omega arith),
        )
        refl
  | no over ↦ rw (fibonacci-reference i, reference_overflows i (omega arith)) refl
]

-- For an argument of n, which is not negative, the program prints the Fibonacci numbers from F(0)
-- to F(n), as a reference that adds them up without a bound gives them, if n is at most 92;
-- above, `long` overflows.
pub main-references :
    (n : ℕ)
    → main (some (pos n)) ≡ (if leb n 92 then ok (references (n + 1) 0) else fault signed_overflow)
unfolding main
main-references n = elim (dec_lt n 93) [
  | yes fits ↦
      let low : leb n 92 ≡ true = ground arith in
      rw low
        (series-references (suc n) 0 (omega arith) ∙ ap (λ k. ok (references k 0)) (omega arith))
  | no over ↦
      let high : leb n 92 ≡ false = ground arith in
      rw high (series_overflows (suc n) 0 (omega arith) (omega arith))
]
