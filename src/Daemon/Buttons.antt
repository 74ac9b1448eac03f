-- ===== src/Daemon/Buttons.antt =====
-- The buttons K1 to K3, the timer that puts the power LED out, and the steps of the frequency.
pub mod Steps
pub mod Presses
pub mod Mode
use csel.Prelude.{
  ℕ, Bool, bit_and, List, [], ◌∷◌, ◌++◌, ◌==◌, if◌then◌else◌, ℤ, pos, negsuc, ltb_ℤ, eqb_ℤ, drop,
}
use csel.Cstd.{Bytes, ok, add_int, sub_int, Outcome}
use csel.Daemon.World.{
  M, ◌>>=◌, ◌>>◌, pure, call, get, lift, Daemon, FileDesc, Itimerspec, Syscall, pwrote_at_0, closed,
  set_timer_fd, lock, unlock, pread_file, first_fd,
}
use csel.Daemon.Lcd.{lcd_write_mode}
use csel.Daemon.Fan.{set_freq, set_mode}

-- set_freq of a sum or difference in `int`
abbrev pub set_freq_to : Outcome ℤ → M (Unit {0})
set_freq_to r = lift r >>= set_freq

unfoldable pub increment_freq : M (Unit {0})
increment_freq = do
  d ← get
  if eqb_ℤ d.cur_mode (pos 1)
      then (if ltb_ℤ d.cur_freq (pos 10)
          then set_freq_to (add_int d.cur_freq (pos 1))
          else if ltb_ℤ d.cur_freq (pos 30)
          then set_freq_to (add_int d.cur_freq (pos 5))
          else if ltb_ℤ d.cur_freq (pos 100)
          then set_freq_to (add_int d.cur_freq (pos 10))
          else set_freq_to (add_int d.cur_freq (pos 50)))
      else pure tt

unfoldable pub decrement_freq : M (Unit {0})
decrement_freq = do
  d ← get
  if eqb_ℤ d.cur_mode (pos 1)
      then (if ltb_ℤ (pos 100) d.cur_freq
          then set_freq_to (sub_int d.cur_freq (pos 50))
          else if ltb_ℤ (pos 30) d.cur_freq
          then set_freq_to (sub_int d.cur_freq (pos 10))
          else if ltb_ℤ (pos 10) d.cur_freq
          then set_freq_to (sub_int d.cur_freq (pos 5))
          else if ltb_ℤ (pos 0) d.cur_freq
          then set_freq_to (sub_int d.cur_freq (pos 1))
          else pure tt)
      else pure tt

-- The result of timerfd_settime; a failure where no answer is left.
abbrev pub settime : ℤ → M ℤ
settime fd d = ok (
  first_fd d.answers.settimes,
  record d { answers = record d.answers { settimes = drop 1 d.answers.settimes } },
  set_timer_fd fd d.ts ∷ [],
)

abbrev set_ts_value : ℕ → M (Unit {0})
set_ts_value sec d = ok (tt, record d { ts = record d.ts { value_nsec = 0; value_sec = sec } }, [])

abbrev pub close_if_failed : ℤ → ℤ → M (Unit {0})
close_if_failed ret fd = if ltb_ℤ ret (pos 0) then call (closed fd) else pure tt

unfoldable pub set_timer : FileDesc → M (Unit {0})
set_timer file_descriptors = do
  set_ts_value 1
  ret ← settime file_descriptors.timer_fd
  close_if_failed ret file_descriptors.timer_fd

unfoldable pub reset_timer : FileDesc → M (Unit {0})
reset_timer file_descriptors = do
  set_ts_value 0
  ret ← settime file_descriptors.timer_fd
  close_if_failed ret file_descriptors.timer_fd

-- "0" with its NUL: sizeof counts both.
unfoldable pub timer_handler : FileDesc → M (Unit {0})
unfolding reset_timer
timer_handler file_descriptors = do
  reset_timer file_descriptors
  call (pwrote_at_0 file_descriptors.led_pwr_fd (b'0' ∷ 0 ∷ []))

-- `char value = -1` and a pread of one byte into it
abbrev pub read_value : Bytes → ℕ
read_value [] = 255
read_value (b ∷ bs) = b

abbrev pub is_pressed : Bytes → Bool
is_pressed got = bit_and (read_value got) 0x01 == 1

unfoldable pub k1_handler : FileDesc → M (Unit {0})
unfolding set_timer increment_freq
k1_handler file_descriptors = do
  got ← pread_file file_descriptors.k1_fd 1
  if is_pressed got
      then (do
        set_timer file_descriptors
        call (pwrote_at_0 file_descriptors.led_pwr_fd (b'1' ∷ 0 ∷ []))
        increment_freq)
      else pure tt

unfoldable pub k2_handler : FileDesc → M (Unit {0})
unfolding set_timer decrement_freq
k2_handler file_descriptors = do
  got ← pread_file file_descriptors.k2_fd 1
  if is_pressed got
      then (do
        set_timer file_descriptors
        call (pwrote_at_0 file_descriptors.led_pwr_fd (b'1' ∷ 0 ∷ []))
        decrement_freq)
      else pure tt

abbrev pub toggle_mode : M (Unit {0})
toggle_mode d =
    ok (tt, record d { cur_mode = if eqb_ℤ d.cur_mode (pos 0) then pos 1 else pos 0 }, [])

-- set_mode and the line of the display, for the mode that is current by then
abbrev pub apply_mode : M (Unit {0})
apply_mode = do d ← get; set_mode d.cur_mode; call lock; lcd_write_mode d.cur_mode; call unlock

unfoldable pub k3_action : FileDesc → M (Unit {0})
unfolding set_timer set_mode
k3_action file_descriptors = do
  set_timer file_descriptors
  call (pwrote_at_0 file_descriptors.led_pwr_fd (b'1' ∷ 0 ∷ []))
  toggle_mode
  apply_mode

unfoldable pub k3_handler : FileDesc → M (Unit {0})
k3_handler file_descriptors = do
  got ← pread_file file_descriptors.k3_fd 1
  if is_pressed got then k3_action file_descriptors else pure tt
