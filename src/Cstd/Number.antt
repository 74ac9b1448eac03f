-- ===== src/Cstd/Number.antt =====
-- Decimal numbers: the conversion "%d" of sprintf and sscanf, and atoi.
use csel.Cstd.Fault.{Outcome, ok, fault, signed_overflow}
use csel.Prelude.{
  ℕ, zero, suc, ◌+◌, ◌-◌, ◌*◌, ◌/◌, ◌%◌, Bool, false, [], ◌∷◌, ◌++◌, Option, none, some, ltb, ◌==◌,
  if◌then◌else◌, ℤ, pos, negsuc, sub_ℕ, to_int32, ltb_ℤ, ◌||◌, ◌+ℤ◌, ◌-ℤ◌, ◌^◌,
}
use csel.Cstd.Text.{Bytes, is_space, is_digit}

-- The decimal digits of `n`, the highest first; `n + 1` rounds are enough.
unfoldable pub digits : ℕ → ℕ → Bytes
digits zero n = []
digits (suc fuel) n =
    let high = digits fuel (n / 10) in
    if ltb n 10 then (b'0' + n) ∷ [] else high ++ (b'0' + n % 10) ∷ []

-- sprintf (…, "%d", a)
unfoldable pub format_int : ℤ → Bytes
unfolding digits
format_int (pos n) = digits (suc n) n
format_int (negsuc n) = b'-' ∷ digits (suc (suc n)) (suc n)

-- The value of the leading digits behind `acc`, and what follows them.
unfoldable pub read_digits : ℕ → Bytes → ℕ × Bytes
read_digits acc [] = (acc, [])
read_digits acc (c ∷ s) =
    let more = read_digits (acc * 10 + (c - b'0')) s in if is_digit c then more else (acc, c ∷ s)

unfoldable pub skip_space : Bytes → Bytes
skip_space [] = []
skip_space (c ∷ s) = let more = skip_space s in if is_space c then more else c ∷ s

abbrev pub negate : ℕ × Bytes → ℤ × Bytes
negate (n, s) = (to_int32 (sub_ℕ 0 n), s)

abbrev pub keep : ℕ × Bytes → ℤ × Bytes
keep (n, s) = (to_int32 (pos n), s)

-- An optional sign and digits. The value is converted to `int` by its low 32 bits.
unfoldable pub read_signed : Bytes → ℤ × Bytes
unfolding read_digits
read_signed [] = (pos 0, [])
read_signed (c ∷ s) =
    if c == b'-'
    then negate (read_digits 0 s)
    else if c == b'+'
    then keep (read_digits 0 s)
    else keep (read_digits 0 (c ∷ s))

abbrev pub stopped : ℤ × Bytes → Option ℤ
stopped (v, []) = none
stopped (v, c ∷ rest) = some v

-- atoi of an array; `none` when it runs off the end of the array, having found nothing that stops it.
unfoldable pub atoi : Bytes → Option ℤ
unfolding read_signed skip_space
atoi s = stopped (read_signed (skip_space s))

abbrev pub starts_number : Bytes → Bool
starts_number [] = false
starts_number (c ∷ []) = is_digit c
starts_number (c ∷ d ∷ s) =
    if c == b'-' then is_digit d else if c == b'+' then is_digit d else is_digit c

-- sscanf (s, "%d", &value) on a string: `none` leaves `value` as it was.
unfoldable pub scan_int : Bytes → Option ℤ
unfolding read_signed skip_space
scan_int s = let t = skip_space s in if starts_number t then some (read_signed t).0 else none

-- The word that "%s" reads, and what follows it.
unfoldable pub read_word : Bytes → Bytes × Bytes
read_word [] = ([], [])
read_word (c ∷ s) = let (w, rest) = read_word s in if is_space c then ([], c ∷ s) else (c ∷ w, rest)

-- Addition and subtraction in `int`.
abbrev pub in_int32 : ℤ → Outcome ℤ
in_int32 a =
    if ltb_ℤ a (negsuc (2 ^ 31 - 1)) || ltb_ℤ (pos (2 ^ 31 - 1)) a
    then fault signed_overflow
    else ok a

abbrev pub add_int : ℤ → ℤ → Outcome ℤ
add_int a b = in_int32 (a +ℤ b)

abbrev pub sub_int : ℤ → ℤ → Outcome ℤ
sub_int a b = in_int32 (a -ℤ b)
