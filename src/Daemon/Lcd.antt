-- ===== src/Daemon/Lcd.antt =====
-- The lines of the display.
pub mod Bounds
use csel.Prelude.{ℕ, List, [], ◌∷◌, ◌++◌, ℤ, pos, eqb_ℤ, if◌then◌else◌}
use csel.Cstd.{Bytes, codes, Outcome, ok, sprintf, format_int}
use csel.Ssd1306.{set_position, puts, ◌then_send◌}
use csel.Daemon.World.{M, ◌>>=◌, ◌>>◌, lift, display}

-- ssd1306_set_position and ssd1306_puts
abbrev pub line : ℕ → Bytes → Outcome (List Bytes)
line row text = ok (set_position 0 row) then_send puts text

abbrev pub header_top : Bytes
header_top = codes "CSEL1a - Projet"

abbrev pub header_name : Bytes
header_name = codes "  Daemon"

abbrev pub header_rule : Bytes
header_rule = codes "--------------"

unfoldable pub lcd_write_header : M (Unit {0})
lcd_write_header = do
  display (line 0 header_top)
  display (line 1 header_name)
  display (line 2 header_rule)

abbrev pub freq_text : ℤ → Bytes
freq_text freq = codes "Freq: " ++ (format_int freq ++ codes " [Hz]")

abbrev pub temp_text : ℤ → Bytes
temp_text temp = codes "CPU temp: " ++ format_int temp

abbrev pub mode_text : ℤ → Bytes
mode_text mode = if eqb_ℤ mode (pos 0) then codes "Auto mode   " else codes "Manual mode "

-- A text that is printed into an array of 15 bytes, and then shown.
unfoldable pub print_line : ℕ → Bytes → M (Unit {0})
unfolding sprintf
print_line row text = do _ ← lift (sprintf 15 text); display (line row text)

unfoldable pub lcd_write_freq : ℤ → M (Unit {0})
unfolding print_line
lcd_write_freq freq = print_line 4 (freq_text freq)

unfoldable pub lcd_write_temp : ℤ → M (Unit {0})
unfolding print_line
lcd_write_temp temp = print_line 5 (temp_text temp)

unfoldable pub lcd_write_mode : ℤ → M (Unit {0})
lcd_write_mode mode = display (line 3 (mode_text mode))
