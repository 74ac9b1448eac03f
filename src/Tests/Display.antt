-- ===== src/Tests/Display.antt =====
-- Runs of the display's driver, and of the lines that the daemon shows.
use csel.Prelude.{◌≡◌, refl, ◌↔◌, ◌⊎◌, [], ◌∷◌, pos, negsuc, ◌≤ℤ◌}
use csel.Cstd.{codes, ok, fault, buffer_overflow}
use csel.Ssd1306.{putc, puts}
use csel.Ssd1306.Frames.{SendsPixels, puts-SendsPixels}
use csel.Daemon.Lcd.{lcd_write_freq}
use csel.Daemon.Lcd.Bounds.{lcd_write_freq_overflows}
use csel.Tests.Fixtures.{daemon}

letter :
    putc b'A'
    ≡ ok (
        (0x40 ∷ 0x00 ∷ [])
        ∷ (0x40 ∷ 0x7e ∷ [])
        ∷ (0x40 ∷ 0x09 ∷ [])
        ∷ (0x40 ∷ 0x09 ∷ [])
        ∷ (0x40 ∷ 0x09 ∷ [])
        ∷ (0x40 ∷ 0x7e ∷ [])
        ∷ (0x40 ∷ 0x00 ∷ [])
        ∷ (0x40 ∷ 0x00 ∷ [])
        ∷ [])
unfolding putc
letter = refl

puts-SendsPixels_example : SendsPixels 24 (puts (codes "1Hz"))
puts-SendsPixels_example = puts-SendsPixels (codes "1Hz")

lcd_write_freq_overflows_example :
    (lcd_write_freq (pos 1000) daemon ≡ fault buffer_overflow)
    ↔ ((pos 1000 ≤ℤ pos 1000) ⊎ (pos 1000 ≤ℤ negsuc 99))
lcd_write_freq_overflows_example = lcd_write_freq_overflows (pos 1000) daemon
