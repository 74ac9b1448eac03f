-- ===== src/Cstd/Text.antt =====
-- Bytes, and the strings of C that lie in arrays of bytes.
use Prim.Native.Char.{code}
use csel.Prelude.{
  ℕ, ◌+◌, ◌≤◌, ◌≡◌, refl, Bool, true, false, ◌&&◌, ◌||◌, List, [], ◌∷◌, ◌++◌, Option, none, some,
  String, arith, leb, ◌==◌, if◌then◌else◌, length, All, take, ◌-◌,
}
use csel.Cstd.Fault.{Outcome, ok, fault, buffer_overflow, over_read}

abbrev pub Bytes : Type 0
Bytes = List ℕ

-- The code points of a literal; these are its bytes when the text is ASCII.
abbrev pub codes : String → Bytes
codes String.[] = []
codes (String.◌∷◌ c s) = code c ∷ codes s

-- isspace in the C locale
abbrev pub is_space : ℕ → Bool
is_space c = c == b' ' || (leb 9 c && leb c 13)

abbrev pub is_digit : ℕ → Bool
is_digit c = leb b'0' c && leb c b'9'

-- strcmp (a, b) == 0
unfoldable pub str_eq : Bytes → Bytes → Bool
str_eq [] [] = true
str_eq [] (y ∷ ys) = false
str_eq (x ∷ xs) [] = false
str_eq (x ∷ xs) (y ∷ ys) = x == y && str_eq xs ys

pub str_eq-eq : (a b : Bytes) → str_eq a b ≡ true → a ≡ b
unfolding str_eq
str_eq-eq [] [] h = refl
str_eq-eq [] (y ∷ ys) h = cc
str_eq-eq (x ∷ xs) [] h = cc
str_eq-eq (x ∷ xs) (y ∷ ys) h = ground (arith, str_eq-eq xs ys)

pub str_eq_self : (a : Bytes) → str_eq a a ≡ true
unfolding str_eq
str_eq_self [] = refl
str_eq_self (x ∷ xs) = ground (arith, str_eq_self xs)

abbrev pub prepend : ℕ → Option Bytes → Option Bytes
prepend c none = none
prepend c (some s) = some (c ∷ s)

-- The string that begins an array: the bytes before the first NUL. `none` is an array without a
-- NUL, where a reader runs off the end.
unfoldable pub c_str : Bytes → Option Bytes
c_str [] = none
c_str (c ∷ s) = if c == 0 then some [] else prepend c (c_str s)

-- No byte of the text ends a string.
abbrev pub NoNul : Bytes → Type 0
NoNul = All (λ c. 1 ≤ c)

pub c_str-append : (s rest : Bytes) → NoNul s → c_str (s ++ 0 ∷ rest) ≡ some s
unfolding c_str
c_str-append [] rest h = refl
c_str-append (c ∷ s) rest h = ground (arith, c_str-append s rest h.1)

-- sprintf into an array of `cap` bytes: the text and its NUL have to fit.
unfoldable pub sprintf : ℕ → Bytes → Outcome Bytes
sprintf cap s = if leb (length s + 1) cap then ok (s ++ 0 ∷ []) else fault buffer_overflow

-- snprintf into an array of `size` bytes: the length of the whole text, and what the array gets.
unfoldable pub snprintf : ℕ → Bytes → ℕ × Bytes
snprintf size s = (length s, take (size - 1) s ++ 0 ∷ [])

abbrev pub terminated : Option Bytes → Outcome Bytes
terminated none = fault over_read
terminated (some s) = ok (s ++ 0 ∷ [])

-- strcpy from an array: the string that it begins with, and its NUL.
unfoldable pub strcpy : Bytes → Outcome Bytes
unfolding c_str
strcpy s = terminated (c_str s)

pub strcpy-append : (s rest : Bytes) → NoNul s → strcpy (s ++ 0 ∷ rest) ≡ ok (s ++ 0 ∷ [])
unfolding strcpy
strcpy-append s rest h = rw (c_str-append s rest h)
