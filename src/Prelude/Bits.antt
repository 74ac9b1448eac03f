-- ===== src/Prelude/Bits.antt =====
-- The bits of a number, and those of an exclusive or.
use native.Mathlib.Nat.{pow-suc}
use Prim.Native.Nat.{
  ℕ, zero, suc, ◌+◌, ◌*◌, ◌/◌, ◌%◌, ◌^◌, ◌≤◌, bit_xor, bit_xor-bitwise, digits, differ,
}
use mathlib.Core.Path.{◌≡◌, refl, ap, sym, ◌∙◌}
use native.Mathlib.Omega.{arith}
use csel.Prelude.Tests.{◌==◌, if◌then◌else◌}

-- Bit `k` of a number.
unfoldable pub bit : (k v : ℕ) → ℕ
bit zero v = v % 2
bit (suc k) v = bit k (v / 2)

-- What has not run out of digits does not depend on how many were to go.
digits-fuel :
    (n m a b : ℕ) → a ≤ n → a ≤ m → digits (λ c. c) differ n a b ≡ digits (λ c. c) differ m a b
digits-fuel zero zero a b h k = refl
digits-fuel zero (suc m) zero b h k = refl
digits-fuel (suc n) zero zero b h k = refl
digits-fuel (suc n) (suc m) zero b h k = refl
digits-fuel zero m (suc a) b h k = absurd (omega arith)
digits-fuel (suc n) zero (suc a) b h k = absurd (omega arith)
digits-fuel (suc n) (suc m) (suc a) b h k =
    ap (λ d. d * 2 + differ (suc a % 2) (b % 2))
      (digits-fuel n m (suc a / 2) (b / 2) (omega arith) (omega arith))

-- An exclusive or halves with its numbers.
bit_xor-halves : (a b : ℕ) → bit_xor a b ≡ bit_xor (a / 2) (b / 2) * 2 + differ (a % 2) (b % 2)
bit_xor-halves zero b =
    let whole : bit_xor 0 b ≡ b = bit_xor-bitwise 0 b in
    let half : bit_xor 0 (b / 2) ≡ b / 2 = bit_xor-bitwise 0 (b / 2) in
    rw (whole, half) (omega arith)
bit_xor-halves (suc a) b =
    let less = digits-fuel a (suc a / 2) (suc a / 2) (b / 2) (omega arith) (omega arith) in
    bit_xor-bitwise (suc a) b
    ∙ ap (λ d. d * 2 + differ (suc a % 2) (b % 2))
        (less ∙ sym (bit_xor-bitwise (suc a / 2) (b / 2)))

differ_le_one : (x y : ℕ) → x ≤ 1 → y ≤ 1 → differ x y ≤ 1
differ_le_one zero y h k = k
differ_le_one (suc x) zero h k = h
differ_le_one (suc zero) (suc zero) h k = omega arith
differ_le_one (suc zero) (suc (suc y)) h k = absurd (omega arith)
differ_le_one (suc (suc x)) (suc y) h k = absurd (omega arith)

bit_xor-digit :
    (a b : ℕ)
    → (bit_xor a b / 2 ≡ bit_xor (a / 2) (b / 2)) × (bit_xor a b % 2 ≡ differ (a % 2) (b % 2))
bit_xor-digit a b =
    let small = differ_le_one (a % 2) (b % 2) (omega arith) (omega arith) in
    let halves = bit_xor-halves a b in (omega arith, omega arith)

-- Bit `k` of an exclusive or is that of the two bits.
pub bit-bit_xor : (k a b : ℕ) → bit k (bit_xor a b) ≡ differ (bit k a) (bit k b)
unfolding bit
bit-bit_xor zero a b = (bit_xor-digit a b).1
bit-bit_xor (suc k) a b = rw (bit_xor-digit a b).0 (bit-bit_xor k (a / 2) (b / 2))

bit-zero : (k : ℕ) → bit k 0 ≡ 0
unfolding bit
bit-zero zero = refl
bit-zero (suc k) = bit-zero k

-- The only bit of a power of two.
pub bit-pow : (k m : ℕ) → bit k (2 ^ m) ≡ (if k == m then 1 else 0)
unfolding bit
bit-pow zero zero = refl
bit-pow zero (suc m) = ground (arith, pow-suc 2 m)
bit-pow (suc k) zero = ground (arith, bit-zero k)
bit-pow (suc k) (suc m) =
    let half : 2 ^ suc m / 2 ≡ 2 ^ m = omega (arith, pow-suc 2 m) in
    let rest = bit-pow k m in rw half (ground arith)
