-- ===== src/Listing/Mode.antt =====
-- What the string of a mode says, to a reader of the string.
use csel.Prelude.{
  ℕ, ◌+◌, ◌≡◌, ◌≢◌, refl, [], ◌∷◌, Bool, true, ◌||◌, not, Option, none, some, bit_and, ◌==◌,
  if◌then◌else◌, arith,
}
use csel.Cstd.{Bytes}
use csel.Listing.{mode2str, mode2filetype, flag, special, file_type}

-- The kind of file that a letter stands for.
abbrev type_of_letter : ℕ → ℕ
type_of_letter c =
    if c == b's'
    then 0xc000
    else if c == b'l'
    then 0xa000
    else if c == b'b'
    then 0x6000
    else if c == b'd'
    then 0x4000
    else if c == b'c'
    then 0x2000
    else if c == b'f'
    then 0x1000
    else 0x8000

abbrev weight_of : ℕ → ℕ → ℕ
weight_of c weight = if c == b'-' then 0 else weight

-- The kind of file and the bits that the eleven characters of a listing tell.
abbrev pub read_mode : Bytes → Option (ℕ × ℕ)
read_mode (t ∷ ur ∷ uw ∷ ux ∷ gr ∷ gw ∷ gx ∷ or ∷ ow ∷ ox ∷ vtx ∷ []) = some (
  type_of_letter t,
  weight_of ur 256
      + weight_of uw 128
      + weight_of ux 64
      + weight_of gr 32
      + weight_of gw 16
      + weight_of gx 8
      + weight_of or 4
      + weight_of ow 2
      + weight_of ox 1
      + weight_of vtx 512,
)
read_mode _ = none

-- A bit of the mode, as its weight; an x is hidden where the special bit over it is set.
abbrev pub has_bit : ℕ → ℕ → Bool
has_bit mode weight = not (bit_and mode weight == 0)

abbrev pub bit : ℕ → ℕ → ℕ
bit mode weight = if has_bit mode weight then weight else 0

abbrev pub shown_x : ℕ → ℕ → ℕ → ℕ
shown_x mode over weight = if has_bit mode over || has_bit mode weight then weight else 0

abbrev pub shown_bits : ℕ → ℕ
shown_bits mode =
    bit mode 256
    + bit mode 128
    + shown_x mode 2048 64
    + bit mode 32
    + bit mode 16
    + shown_x mode 1024 8
    + bit mode 4
    + bit mode 2
    + bit mode 1
    + bit mode 512

abbrev pub is_known : ℕ → Bool
is_known t =
    t == 0xc000
    || t == 0xa000
    || t == 0x8000
    || t == 0x6000
    || t == 0x4000
    || t == 0x2000
    || t == 0x1000

weight_of-flag :
    (mode weight c : ℕ) → c ≢ b'-' → weight_of (flag mode weight c) weight ≡ bit mode weight
weight_of-flag mode weight c h = ground arith

weight_of-special :
    (mode over weight : ℕ)
    → weight_of (special mode over (flag mode weight b'x')) weight ≡ shown_x mode over weight
weight_of-special mode over weight = ground arith

type_of_letter-filetype :
    (mode : ℕ)
    → is_known (file_type mode) ≡ true
    → type_of_letter (mode2filetype mode) ≡ file_type mode
unfolding mode2filetype
type_of_letter-filetype mode h = ground arith

-- The string that is printed for a mode whose file type is one of the seven that are known tells
-- the file type and each permission, except that an x of the user or of the group under the set-
-- id bit of the mode cannot be told from one that is missing, and reads as set.
pub read_mode-mode2str :
    (mode : ℕ)
    → is_known (file_type mode) ≡ true
    → read_mode (mode2str mode) ≡ some (file_type mode, shown_bits mode)
unfolding mode2str
read_mode-mode2str mode h =
    rw
      (
        type_of_letter-filetype mode h,
        weight_of-flag mode 256 b'r' (ground arith),
        weight_of-flag mode 128 b'w' (ground arith),
        weight_of-special mode 2048 64,
        weight_of-flag mode 32 b'r' (ground arith),
        weight_of-flag mode 16 b'w' (ground arith),
        weight_of-special mode 1024 8,
        weight_of-flag mode 4 b'r' (ground arith),
        weight_of-flag mode 2 b'w' (ground arith),
        weight_of-flag mode 1 b'x' (ground arith),
        weight_of-flag mode 512 b't' (ground arith),
      )
      refl
