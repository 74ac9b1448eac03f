-- ===== src/Cstd/Laws.antt =====
-- Laws of the decimal conversions: what "%d" prints is read back, and how long it is.
use native.Mathlib.Nat.{pow-suc}
use csel.Prelude.{
  ℕ, zero, suc, ◌+◌, ◌/◌, ◌%◌, ◌^◌, ◌≤◌, ◌<◌, ◌≡◌, refl, ◌∙◌, ◌↔◌, true, false, [], ◌∷◌, ◌++◌,
  append_assoc, some, arith, dec_lt, ltb, inl, inr, Bool-cases, length, length-append, All,
  All-append, ℤ, pos, negsuc, sub_ℕ, IsInt32, to_int32, to_int32_of_IsInt32,
}
use csel.Cstd.Text.{Bytes, is_digit, is_space, NoNul}
use csel.Cstd.Number.{
  digits, format_int, read_digits, read_signed, skip_space, atoi, starts_number, scan_int,
  read_word,
}

-- Reading the digits of `n` is reading on behind `n`.
read_digits-digits :
    (fuel n : ℕ) (t : Bytes) → n < fuel → read_digits 0 (digits fuel n ++ t) ≡ read_digits n t
unfolding digits read_digits
read_digits-digits zero n t h = absurd (omega arith)
read_digits-digits (suc fuel) n t h = elim (Bool-cases (ltb n 10)) [
  | inl low ↦ rw low (ground arith)
  | inr high ↦
      rw (high, append_assoc, read_digits-digits fuel (n / 10) _ (ground arith)) (ground arith)
]

abbrev IsDigit : ℕ → Type 0
IsDigit c = (b'0' ≤ c) × (c ≤ b'9')

digits-IsDigit : (fuel n : ℕ) → All IsDigit (digits fuel n)
unfolding digits
digits-IsDigit zero n = tt
digits-IsDigit (suc fuel) n = elim (Bool-cases (ltb n 10)) [
  | inl low ↦ rw low (ground arith)
  | inr high ↦ rw high (All-append IsDigit _ _ (digits-IsDigit fuel (n / 10)) (omega arith))
]

digits-ne-nil : (fuel n : ℕ) → n < fuel → 1 ≤ length (digits fuel n)
unfolding digits
digits-ne-nil zero n h = absurd (omega arith)
digits-ne-nil (suc fuel) n h =
    ground (arith, length-append (digits fuel (n / 10)) ((b'0' + n % 10) ∷ []))

-- A number below 10 ^ (k + 1) has k + 1 digits at most,
pub length-digits-le : (fuel n k : ℕ) → n < 10 ^ (suc k) → length (digits fuel n) ≤ suc k
unfolding digits
length-digits-le zero n k h = omega arith
length-digits-le (suc fuel) n zero h = ground arith
length-digits-le (suc fuel) n (suc k) h = ground (
  arith,
  pow-suc 10 (suc k),
  length-digits-le fuel (n / 10) k,
  length-append (digits fuel (n / 10)) ((b'0' + n % 10) ∷ []),
)

one-le-pow : (k : ℕ) → 1 ≤ 10 ^ k
one-le-pow zero = omega arith
one-le-pow (suc k) = omega (arith, pow-suc 10 k, one-le-pow k)

-- and a number from 10 ^ k on has more than k.
pub lt-length-digits : (fuel n k : ℕ) → n < fuel → 10 ^ k ≤ n → k < length (digits fuel n)
unfolding digits
lt-length-digits zero n k b h = absurd (omega arith)
lt-length-digits (suc fuel) n zero b h = digits-ne-nil (suc fuel) n b
lt-length-digits (suc fuel) n (suc k) b h = ground (
  arith,
  pow-suc 10 k,
  one-le-pow k,
  lt-length-digits fuel (n / 10) k,
  length-append (digits fuel (n / 10)) ((b'0' + n % 10) ∷ []),
)

-- The bytes of a printed integer.
abbrev IsNumeral : ℕ → Type 0
IsNumeral c = (b'-' ≤ c) × (c ≤ b'9')

All-map {ℓ κ} :
    {P : ℕ → Type ℓ} {Q : ℕ → Type κ} (f : (c : ℕ) → P c → Q c) (s : Bytes) → All P s → All Q s
All-map f [] h = tt
All-map f (c ∷ s) h = (f c h.0, All-map f s h.1)

format_int-IsNumeral : (a : ℤ) → All IsNumeral (format_int a)
unfolding format_int
format_int-IsNumeral (pos n) =
    All-map (λ c (h : IsDigit c). omega arith) _ (digits-IsDigit (suc n) n)
format_int-IsNumeral (negsuc n) = (
  omega arith,
  All-map (λ c (h : IsDigit c). omega arith) _ (digits-IsDigit (suc (suc n)) (suc n)),
)

pub format_int-NoNul : (a : ℤ) → NoNul (format_int a)
format_int-NoNul a = All-map (λ c (h : IsNumeral c). omega arith) _ (format_int-IsNumeral a)

-- No digit follows.
abbrev pub Stops : Bytes → Type 0
Stops [] = Unit
Stops (c ∷ t) = is_digit c ≡ false

read_digits-Stops : (n : ℕ) (t : Bytes) → Stops t → read_digits n t ≡ (n, t)
unfolding read_digits
read_digits-Stops n [] h = refl
read_digits-Stops n (c ∷ t) h = ground arith

read_digits-format : (n : ℕ) (t : Bytes) → Stops t → read_digits 0 (digits (suc n) n ++ t) ≡ (n, t)
read_digits-format n t h = read_digits-digits (suc n) n t (omega arith) ∙ read_digits-Stops n t h

-- A text that begins with a digit has no sign and no leading space.
read_signed_digit :
    (s : Bytes)
    → 1 ≤ length s
    → All IsDigit s
    → (t : Bytes)
    → read_signed (s ++ t) ≡ (let (n, r) = read_digits 0 (s ++ t) in (to_int32 (pos n), r))
unfolding read_signed
read_signed_digit [] p h t = absurd (omega arith)
read_signed_digit (c ∷ s) p h t = ground arith

zero-sub_ℕ : (n : ℕ) → sub_ℕ 0 (suc n) ≡ negsuc n
zero-sub_ℕ n = ground arith

-- What "%d" prints is read back as it was, whatever follows, if no digit follows.
pub read_signed-format :
    (a : ℤ) (t : Bytes) → IsInt32 a → Stops t → read_signed (format_int a ++ t) ≡ (a, t)
unfolding format_int
read_signed-format (pos n) t fits h = rw (
  read_signed_digit (digits (suc n) n) (digits-ne-nil (suc n) n (omega arith))
      (digits-IsDigit (suc n) n) t,
  read_digits-format n t h,
  to_int32_of_IsInt32 (pos n) fits,
)
read_signed-format (negsuc n) t fits h =
    unfold read_signed in
    rw (read_digits-format (suc n) t h, zero-sub_ℕ n, to_int32_of_IsInt32 (negsuc n) fits)

skip_space_numeral : (s t : Bytes) → 1 ≤ length s → All IsNumeral s → skip_space (s ++ t) ≡ s ++ t
unfolding skip_space
skip_space_numeral [] t p h = absurd (omega arith)
skip_space_numeral (c ∷ s) t p h = ground arith

pub format_int-ne-nil : (a : ℤ) → 1 ≤ length (format_int a)
unfolding format_int
format_int-ne-nil (pos n) = digits-ne-nil (suc n) n (omega arith)
format_int-ne-nil (negsuc n) = omega arith

pub skip_space-format : (a : ℤ) (t : Bytes) → skip_space (format_int a ++ t) ≡ format_int a ++ t
skip_space-format a t =
    skip_space_numeral (format_int a) t (format_int-ne-nil a) (format_int-IsNumeral a)

starts_number_digits : (s t : Bytes) → 1 ≤ length s → All IsDigit s → starts_number (s ++ t) ≡ true
starts_number_digits [] t p h = absurd (omega arith)
starts_number_digits (c ∷ []) [] p h = ground arith
starts_number_digits (c ∷ []) (d ∷ t) p h = ground arith
starts_number_digits (c ∷ d ∷ s) t p h = ground arith

starts_number_minus :
    (s t : Bytes) → 1 ≤ length s → All IsDigit s → starts_number (b'-' ∷ (s ++ t)) ≡ true
starts_number_minus [] t p h = absurd (omega arith)
starts_number_minus (c ∷ s) t p h = ground arith

starts_number-format : (a : ℤ) (t : Bytes) → starts_number (format_int a ++ t) ≡ true
unfolding format_int
starts_number-format (pos n) t =
    starts_number_digits _ t (digits-ne-nil (suc n) n (omega arith)) (digits-IsDigit (suc n) n)
starts_number-format (negsuc n) t =
    starts_number_minus _ t (digits-ne-nil (suc (suc n)) (suc n) (omega arith))
      (digits-IsDigit (suc (suc n)) (suc n))

-- atoi of a printed integer with a byte behind it that is no digit.
pub atoi-format :
    (a : ℤ) (c : ℕ) (t : Bytes)
    → IsInt32 a
    → is_digit c ≡ false
    → atoi (format_int a ++ c ∷ t) ≡ some a
unfolding atoi
atoi-format a c t fits h = rw (skip_space-format a (c ∷ t), read_signed-format a (c ∷ t) fits h)

-- sscanf "%d" reads a printed integer back.
pub scan_int-format :
    (a : ℤ) (t : Bytes) → IsInt32 a → Stops t → scan_int (format_int a ++ t) ≡ some a
unfolding scan_int
scan_int-format a t fits h =
    rw (skip_space-format a t, starts_number-format a t, read_signed-format a t fits h)

-- "%s" reads a word up to the space behind it.
pub read_word-append :
    (w t : Bytes) (c : ℕ)
    → All (λ b. is_space b ≡ false) w
    → is_space c ≡ true
    → read_word (w ++ c ∷ t) ≡ (w, c ∷ t)
unfolding read_word
read_word-append [] t c h e = ground arith
read_word-append (b ∷ w) t c h e = rw (read_word-append w t c h.1 e) (ground arith)

-- How long "%d" prints a number: within `k + 1` digits exactly if the number is below 10 ^ (k + 1).
pub length-format_int_pos : (n k : ℕ) → (length (format_int (pos n)) ≤ suc k) ↔ (n < 10 ^ (suc k))
unfolding format_int
length-format_int_pos n k = (
  λ h. elim (dec_lt n (10 ^ (suc k))) [
    | yes p ↦ p
    | no p ↦ absurd (omega (arith, lt-length-digits (suc n) n (suc k)))
  ],
  λ h. length-digits-le (suc n) n k h,
)

pub length-format_int_negsuc :
    (n k : ℕ) → (length (format_int (negsuc n)) ≤ suc (suc k)) ↔ (suc n < 10 ^ (suc k))
unfolding format_int
length-format_int_negsuc n k = (
  λ h. elim (dec_lt (suc n) (10 ^ (suc k))) [
    | yes p ↦ p
    | no p ↦ absurd (omega (arith, lt-length-digits (suc (suc n)) (suc n) (suc k)))
  ],
  λ h. omega (arith, length-digits-le (suc (suc n)) (suc n) k h),
)

-- An int is printed in 11 bytes at most.
pub length-format_int_le : (a : ℤ) → IsInt32 a → length (format_int a) ≤ 11
length-format_int_le (pos n) h = omega (arith, (length-format_int_pos n 9).1 (omega arith))
length-format_int_le (negsuc n) h = (length-format_int_negsuc n 9).1 (omega arith)
