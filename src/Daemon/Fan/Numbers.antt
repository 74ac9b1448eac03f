-- ===== src/Daemon/Fan/Numbers.antt =====
-- Numbers on their way to the fan's attributes and back.
use csel.Prelude.{
  ℕ, ◌+◌, ◌-◌, ◌≤◌, ◌≡◌, refl, ◌↔◌, some, List, [], ◌∷◌, ◌++◌, append_assoc, arith, length,
  length-append, take, take_all, replicate, map, ℤ, pos, negsuc, ◌≤ℤ◌, IsInt32, drop,
}
use csel.Cstd.{Bytes, ok, fault, buffer_overflow, format_int, atoi}
use csel.Cstd.Laws.{length-format_int_pos, length-format_int_negsuc, atoi-format}
use csel.Daemon.World.{Daemon, FileDesc, pwrote_at_0, pread_at_0, filled, lock, unlock, i2c}
use csel.Daemon.Lcd.Bounds.{lcd_write_freq_fits, lcd_write_temp_overflows}
use csel.Daemon.Fan.{set_freq, freq_handler, cpu_temp_handler}

-- Setting a frequency writes it in decimal to the descriptor of the attribute, if it is an int above
-- -1000000000; the others overflow the array of 11 bytes.
pub set_freq_lem :
    (freq : ℤ) (d : Daemon)
    → negsuc 999999998 ≤ℤ freq
    → IsInt32 freq
    → set_freq freq d ≡ ok (tt, d, pwrote_at_0 d.file_descriptors.freq_fd (format_int freq) ∷ [])
unfolding set_freq
set_freq_lem (pos n) d low fits = ground (arith, (length-format_int_pos n 9).1)
set_freq_lem (negsuc n) d low fits = ground (arith, (length-format_int_negsuc n 8).1)

-- The ints for which `set_freq` overflows its array of 11 bytes are those from -1000000000 down.
pub set_freq_overflows :
    (freq : ℤ) (d : Daemon)
    → IsInt32 freq
    → (set_freq freq d ≡ fault buffer_overflow) ↔ (freq ≤ℤ negsuc 999999999)
unfolding set_freq
set_freq_overflows (pos n) d fits =
    (λ h. ground (arith, (length-format_int_pos n 9).1), λ h. absurd (omega arith))
set_freq_overflows (negsuc n) d fits = (
  λ h. ground (arith, (length-format_int_negsuc n 8).1),
  λ h. ground (arith, (length-format_int_negsuc n 8).0),
)

-- atoi of a printed number in an array that has room for it, its line end included.
pub atoi-filled :
    (a : ℤ) (size : ℕ)
    → IsInt32 a
    → length (format_int a) + 1 ≤ size
    → atoi (filled size (take size (format_int a ++ b'\n' ∷ []))) ≡ some a
atoi-filled a size fits room =
    let text = format_int a ++ b'\n' ∷ [] in
    rw
      (
        take_all size text (omega (arith, length-append (format_int a) (b'\n' ∷ []))),
        append_assoc (format_int a) (b'\n' ∷ []) (replicate (size - length text) 0),
      )
      (atoi-format a b'\n' _ fits refl)

short_freq : (a : ℤ) → negsuc 98 ≤ℤ a → a ≤ℤ pos 999 → length (format_int a) + 1 ≤ 11
short_freq (pos n) low high = omega (arith, (length-format_int_pos n 2).1 (omega arith))
short_freq (negsuc n) low high = omega (arith, (length-format_int_negsuc n 1).1 (omega arith))

-- Where the driver's line for the frequency is read and is a number a from -99 to 999, the
-- handler of the frequency takes a over as the daemon's frequency and consumes the line that was
-- read: it reads the attribute, takes the mutex, sends only messages to the display, and gives
-- the mutex back.
pub freq_handler_lem :
    (a : ℤ) (fds : FileDesc) (d : Daemon) (rest : List Bytes)
    → negsuc 98 ≤ℤ a
    → a ≤ℤ pos 999
    → d.answers.reads ≡ (format_int a ++ b'\n' ∷ []) ∷ rest
    → (ms : List Bytes) × (freq_handler fds d
        ≡ ok (
          tt,
          record d { cur_freq = a; answers = record d.answers { reads = rest } },
          pread_at_0 fds.freq_fd 11 ∷ lock ∷ (map i2c ms ++ unlock ∷ []),
        ))
unfolding freq_handler
freq_handler_lem a fds d rest low high e =
    let (ms, shown) =
      lcd_write_freq_fits a
        (record d { cur_freq = a; answers = record d.answers { reads = drop 1 d.answers.reads } })
        low high in
    (ms, ground (arith, shown, atoi-filled a 11 (omega arith) (short_freq a low high)))

-- Where the driver's line for the temperature is read and is a number from 10000 (ten degrees) to
-- 999999, the handler of the temperature overflows the array of the display's line.
pub cpu_temp_handler_overflows :
    (n : ℕ) (fds : FileDesc) (d : Daemon) (rest : List Bytes)
    → 10000 ≤ n
    → n ≤ 999999
    → d.answers.reads ≡ (format_int (pos n) ++ b'\n' ∷ []) ∷ rest
    → cpu_temp_handler fds d ≡ fault buffer_overflow
unfolding cpu_temp_handler
cpu_temp_handler_overflows n fds d rest low high e =
    let overflows = lcd_write_temp_overflows (pos n) (record d {
      cur_cpu_temp = pos n;
      answers = record d.answers { reads = drop 1 d.answers.reads };
    }) in
    ground (
      arith,
      overflows,
      atoi-filled (pos n) 7 (omega arith)
          (omega (arith, (length-format_int_pos n 5).1 (omega arith))),
    )
