-- ===== src/Prelude/Ranges.antt =====
-- A test of every number below a bound, by evaluation.
use Prim.Native.Nat.{ℕ, zero, suc, ◌<◌}
use mathlib.Core.Path.{◌≡◌}
use mathlib.Core.Bool.{Bool, true, ◌&&◌}
use native.Mathlib.Omega.{arith}

unfoldable pub every : (ℕ → Bool) → ℕ → Bool
every test zero = true
every test (suc n) = test n && every test n

pub every_applies : (test : ℕ → Bool) (n x : ℕ) → every test n ≡ true → x < n → test x ≡ true
unfolding every
every_applies test zero x all below = absurd (omega arith)
every_applies test (suc n) x all below = ground (arith, every_applies test n x)
