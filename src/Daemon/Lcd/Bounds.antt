-- ===== src/Daemon/Lcd/Bounds.antt =====
-- Which numbers the arrays for the display's lines have room for.
use csel.Prelude.{
  ℕ, ◌+◌, ◌≤◌, ◌≡◌, ◌↔◌, ◌⊎◌, inl, inr, List, ◌++◌, map, arith, length, length-append, ℤ, pos,
  negsuc, ◌≤ℤ◌, dec_lt,
}
use csel.Cstd.{Bytes, codes, ok, fault, buffer_overflow, format_int}
use csel.Cstd.Laws.{length-format_int_pos, length-format_int_negsuc}
use csel.Ssd1306.{set_position}
use csel.Ssd1306.Frames.{puts-SendsPixels}
use csel.Daemon.World.{Daemon, i2c}
use csel.Daemon.Lcd.{
  line, freq_text, temp_text, mode_text, lcd_write_freq, lcd_write_temp, lcd_write_mode, print_line,
}

iff_trans : {A B C : Type 0} → A ↔ B → B ↔ C → A ↔ C
iff_trans p q = (λ a. q.0 (p.0 a), λ c. p.1 (q.1 c))

-- A line of text always reaches the display.
pub line_total : (row : ℕ) (text : Bytes) → (ms : List Bytes) × (line row text ≡ ok ms)
line_total row text =
    let (ms, sent, _, _) = puts-SendsPixels text in (set_position 0 row ++ ms, rw sent)

print_line_overflows :
    (row : ℕ) (text : Bytes) (d : Daemon)
    → (print_line row text d ≡ fault buffer_overflow) ↔ (15 ≤ length text)
unfolding print_line
print_line_overflows row text d =
    let (ms, shown) = line_total row text in
    (λ h. ground (arith, shown), λ h. ground (arith, shown))

pub print_line_fits :
    (row : ℕ) (text : Bytes) (d : Daemon)
    → length text ≤ 14
    → (ms : List Bytes) × (print_line row text d ≡ ok (tt, d, map i2c ms))
unfolding print_line
print_line_fits row text d h = let (ms, shown) = line_total row text in (ms, ground (arith, shown))

-- A line is shown, or its text overflows the array.
print_line_cases :
    (row : ℕ) (text : Bytes)
    → ((d : Daemon) → print_line row text d ≡ fault buffer_overflow)
      ⊎ ((ms : List Bytes) × ((d : Daemon) → print_line row text d ≡ ok (tt, d, map i2c ms)))
unfolding print_line
print_line_cases row text =
    let (ms, shown) = line_total row text in
    elim (dec_lt (length text) 15) [
      | yes fits ↦ inr (ms, λ d. ground (arith, shown))
      | no long ↦ inl (λ d. ground arith)
    ]

pub lcd_write_freq_cases :
    (freq : ℤ)
    → ((d : Daemon) → lcd_write_freq freq d ≡ fault buffer_overflow)
      ⊎ ((ms : List Bytes) × ((d : Daemon) → lcd_write_freq freq d ≡ ok (tt, d, map i2c ms)))
unfolding lcd_write_freq
lcd_write_freq_cases freq = print_line_cases 4 (freq_text freq)

pub lcd_write_temp_cases :
    (temp : ℤ)
    → ((d : Daemon) → lcd_write_temp temp d ≡ fault buffer_overflow)
      ⊎ ((ms : List Bytes) × ((d : Daemon) → lcd_write_temp temp d ≡ ok (tt, d, map i2c ms)))
unfolding lcd_write_temp
lcd_write_temp_cases temp = print_line_cases 5 (temp_text temp)

length-freq_text : (a : ℤ) → length (freq_text a) ≡ length (format_int a) + 11
length-freq_text a = omega (arith, length-append (format_int a) (codes " [Hz]"))

length-temp_text : (a : ℤ) → length (temp_text a) ≡ length (format_int a) + 10
length-temp_text a = omega arith

three_bytes : (a : ℤ) → (15 ≤ length (freq_text a)) ↔ ((pos 1000 ≤ℤ a) ⊎ (a ≤ℤ negsuc 99))
three_bytes (pos n) = (
  λ h. ground (arith, length-freq_text (pos n), (length-format_int_pos n 2).1),
  λ h. ground (arith, length-freq_text (pos n), (length-format_int_pos n 2).0),
)
three_bytes (negsuc n) = (
  λ h. ground (arith, length-freq_text (negsuc n), (length-format_int_negsuc n 1).1),
  λ h. ground (arith, length-freq_text (negsuc n), (length-format_int_negsuc n 1).0),
)

four_bytes : (a : ℤ) → (15 ≤ length (temp_text a)) ↔ ((pos 10000 ≤ℤ a) ⊎ (a ≤ℤ negsuc 999))
four_bytes (pos n) = (
  λ h. ground (arith, length-temp_text (pos n), (length-format_int_pos n 3).1),
  λ h. ground (arith, length-temp_text (pos n), (length-format_int_pos n 3).0),
)
four_bytes (negsuc n) = (
  λ h. ground (arith, length-temp_text (negsuc n), (length-format_int_negsuc n 2).1),
  λ h. ground (arith, length-temp_text (negsuc n), (length-format_int_negsuc n 2).0),
)

-- The line of the frequency overflows its array of 15 bytes exactly for the frequencies from 1000
-- on and from -100 down.
pub lcd_write_freq_overflows :
    (freq : ℤ) (d : Daemon)
    → (lcd_write_freq freq d ≡ fault buffer_overflow) ↔ ((pos 1000 ≤ℤ freq) ⊎ (freq ≤ℤ negsuc 99))
unfolding lcd_write_freq
lcd_write_freq_overflows freq d =
    iff_trans (print_line_overflows 4 (freq_text freq) d) (three_bytes freq)

-- The line of the temperature overflows its array exactly from 10000 on, and from -1000 down: the
-- driver gives thousandths of a degree, so that 10 degrees are too much.
pub lcd_write_temp_overflows :
    (temp : ℤ) (d : Daemon)
    → (lcd_write_temp temp d ≡ fault buffer_overflow) ↔ ((pos 10000 ≤ℤ temp) ⊎ (temp ≤ℤ negsuc 999))
unfolding lcd_write_temp
lcd_write_temp_overflows temp d =
    iff_trans (print_line_overflows 5 (temp_text temp) d) (four_bytes temp)

below : {n : ℕ} {B : Type 0} → (15 ≤ n) ↔ B → (B → ⊥) → n ≤ 14
below {n} e h = elim (dec_lt n 15) [ yes p ↦ omega arith | no p ↦ absurd (h (e.0 (omega arith))) ]

-- Between these bounds a line is shown.
pub lcd_write_freq_fits :
    (freq : ℤ) (d : Daemon)
    → negsuc 98 ≤ℤ freq
    → freq ≤ℤ pos 999
    → (ms : List Bytes) × (lcd_write_freq freq d ≡ ok (tt, d, map i2c ms))
unfolding lcd_write_freq
lcd_write_freq_fits freq d low high =
    print_line_fits 4 (freq_text freq) d (below (three_bytes freq) (λ h. absurd (omega arith)))

pub lcd_write_temp_fits :
    (temp : ℤ) (d : Daemon)
    → negsuc 998 ≤ℤ temp
    → temp ≤ℤ pos 9999
    → (ms : List Bytes) × (lcd_write_temp temp d ≡ ok (tt, d, map i2c ms))
unfolding lcd_write_temp
lcd_write_temp_fits temp d low high =
    print_line_fits 5 (temp_text temp) d (below (four_bytes temp) (λ h. absurd (omega arith)))

-- The line of the mode is always shown.
pub lcd_write_mode_total :
    (mode : ℤ) → (ms : List Bytes) × ((d : Daemon) → lcd_write_mode mode d ≡ ok (tt, d, map i2c ms))
unfolding lcd_write_mode
lcd_write_mode_total mode = let (ms, shown) = line_total 3 (mode_text mode) in (ms, λ d. rw shown)
