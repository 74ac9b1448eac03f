-- ===== src/Fibonacci.antt =====
-- environment/fibonacci/fibonacci.c, and the same functions in environment/tracing: the numbers of
-- Fibonacci in `long`, which has 64 bits.
pub mod Series
use csel.Prelude.{
  ℕ, zero, suc, ◌+◌, ◌^◌, List, [], ◌∷◌, leb, if◌then◌else◌, ℤ, pos, negsuc, Option, none, some,
}
use csel.Cstd.{Outcome, ok, fault, and_then, signed_overflow}

-- A result of an addition of two numbers that are not negative.
abbrev pub in_long : ℕ → Outcome ℕ
in_long v = if leb (2 ^ 63) v then fault signed_overflow else ok v

unfoldable pub fibonacci_from_zero : ℕ → Outcome ℕ
fibonacci_from_zero zero = ok 0
fibonacci_from_zero (suc zero) = ok 1
fibonacci_from_zero (suc (suc n)) =
    and_then (fibonacci_from_zero (suc n))
      λ a. and_then (fibonacci_from_zero n) λ b. in_long (a + b)

unfoldable pub fibonacci : ℤ → Outcome ℤ
unfolding fibonacci_from_zero
fibonacci (negsuc n) = ok (negsuc n)
fibonacci (pos n) = and_then (fibonacci_from_zero n) λ v. ok (pos v)

-- for (i = ...; i <= n; i++), `rounds` times.
unfoldable pub series : (rounds i : ℕ) → Outcome (List ℤ)
unfolding fibonacci
series zero i = ok []
series (suc rounds) i =
    let rest = series rounds (i + 1) in
    and_then (fibonacci (pos i)) λ v. and_then rest λ vs. ok (v ∷ vs)

abbrev pub rounds_of : ℤ → ℕ
rounds_of (pos n) = suc n
rounds_of (negsuc n) = 0

-- The numbers that are printed, for the argument as atol reads it.
unfoldable pub main : Option ℤ → Outcome (List ℤ)
unfolding series
main none = series (rounds_of (pos 0)) 0
main (some n) = series (rounds_of n) 0
