-- ===== src/Ssd1306.antt =====
-- Projet/daemon/ssd1306.c (the same file as Projet/oled/ssd1306.c), the driver of the OLED display. A
-- function returns the messages that it writes to the I2C bus, in order. A failed write is only
-- printed, so that what follows does not depend on it.
mod Font
pub mod Frames
use csel.Prelude.{
  ℕ, zero, suc, ◌+◌, ◌-◌, ◌*◌, ◌/◌, ◌%◌, ◌^◌, bit_and, List, [], ◌∷◌, ◌++◌, Option, none, some,
  ◌||◌, ltb, if◌then◌else◌, get_elem?, ℤ, pos, negsuc, ltb_ℤ,
}
use csel.Cstd.{Bytes, Outcome, ok, fault, over_read, and_then}
unfoldable pub use Font.{font}

abbrev pub oled_command_mode : ℕ
oled_command_mode = 0x00

abbrev pub oled_data_mode : ℕ
oled_data_mode = 0x40

abbrev oled_display_off_cmd : ℕ
oled_display_off_cmd = 0xae

abbrev oled_display_on_cmd : ℕ
oled_display_on_cmd = 0xaf

abbrev pub init_commands : Bytes
init_commands =
    0xAE ∷ 0x00 ∷ 0x10 ∷ 0x40 ∷ 0xB0 ∷ 0x81 ∷ 0xCF ∷ 0xA1 ∷ 0xA6 ∷ 0xA8 ∷ 0x3F ∷ 0xC8 ∷ 0xD3 ∷ 0x00
    ∷ 0xD5 ∷ 0x80 ∷ 0xD9 ∷ 0xF1 ∷ 0xDA ∷ 0x12 ∷ 0xDB ∷ 0x40 ∷ 0x8D ∷ 0x14 ∷ 0xAF ∷ []

-- Two calls in a row, each of which may run into a fault.
infixl 20 ◌then_send◌
abbrev pub ◌then_send◌ : Outcome (List Bytes) → Outcome (List Bytes) → Outcome (List Bytes)
a then_send b = and_then a λ xs. and_then b λ ys. ok (xs ++ ys)

-- The argument is a uint8_t.
abbrev pub send_command : ℕ → List Bytes
send_command cmd = (oled_command_mode ∷ cmd % 256 ∷ []) ∷ []

abbrev pub send_data : ℕ → List Bytes
send_data byte = (oled_data_mode ∷ byte % 256 ∷ []) ∷ []

-- Both arguments are uint32_t.
unfoldable pub set_position : ℕ → ℕ → List Bytes
set_position column row =
    let x = 8 * column % 2 ^ 32 in
    send_command ((0xb0 + row) % 2 ^ 32)
    ++ send_command (0x00 + bit_and x 0x0f)
    ++ send_command (0x10 + bit_and (x / 2 ^ 4) 0x0f)

abbrev data_of : Option ℕ → Outcome (List Bytes)
data_of none = fault over_read
data_of (some byte) = ok (send_data byte)

-- The rounds of `for (i = 0; i < 8; i++)` that are left, from `i` on.
unfoldable pub send_columns : ℕ → ℕ → Bytes → Outcome (List Bytes)
send_columns zero i row = ok []
send_columns (suc rounds) i row =
    data_of (get_elem? row i) then_send send_columns rounds (i + 1) row

abbrev send_glyph : Option Bytes → Outcome (List Bytes)
send_glyph none = fault over_read
send_glyph (some row) = send_columns 8 0 row

-- A `char` as the byte that it is. Where `char` is signed, the bytes above 127 are negative, and the
-- first test takes them instead of the second.
abbrev pub printable : ℕ → ℕ
printable c = if ltb c 32 || ltb 127 c then b' ' else c

unfoldable pub putc : ℕ → Outcome (List Bytes)
unfolding font send_columns
putc c = send_glyph (get_elem? font (printable c - 32))

-- The bytes of the string, without its NUL.
unfoldable pub puts : Bytes → Outcome (List Bytes)
puts [] = ok []
puts (c ∷ str) = putc c then_send puts str

-- for (i = 0; i < rounds; i++) ssd1306_putc (' ')
unfoldable pub clear_row : ℕ → Outcome (List Bytes)
clear_row zero = ok []
clear_row (suc rounds) = putc b' ' then_send clear_row rounds

unfoldable pub clear_rows : ℕ → ℕ → Outcome (List Bytes)
clear_rows zero j = ok []
clear_rows (suc rounds) j =
    ok (set_position 0 j) then_send clear_row 16 then_send clear_rows rounds (j + 1)

unfoldable pub clear_display : Outcome (List Bytes)
clear_display =
    ok (send_command oled_display_off_cmd)
    then_send clear_rows 8 0
    then_send ok (send_command oled_display_on_cmd)
    then_send ok (set_position 0 0)

unfoldable pub send_commands : Bytes → List Bytes
send_commands [] = []
send_commands (c ∷ cs) = send_command c ++ send_commands cs

-- `fd` and `access` are what open and ioctl return.
unfoldable pub init : ℤ → ℤ → Outcome (ℤ × List Bytes)
init fd access =
    if ltb_ℤ fd (pos 0)
    then ok (negsuc 0, [])
    else if ltb_ℤ access (pos 0)
    then ok (negsuc 0, [])
    else and_then (ok (send_commands init_commands) then_send clear_display)
        λ sent. ok (pos 0, sent)
