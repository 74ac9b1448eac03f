-- ===== src/Daemon/Fan.antt =====
-- The fan's attributes in sysfs, as the daemon reads and writes them.
pub mod Numbers
use csel.Prelude.{
  ℕ, ◌+◌, Option, none, some, List, [], ◌∷◌, ◌++◌, length, ℤ, pos, negsuc, eqb_ℤ, if◌then◌else◌,
}
use csel.Cstd.{Bytes, codes, Outcome, ok, fault, over_read, sprintf, format_int, atoi}
use csel.Daemon.World.{
  M, ◌>>=◌, ◌>>◌, pure, call, get, put, lift, Daemon, FileDesc, Syscall, wronly, rdonly, lock,
  unlock, pwrote_at_0, closed, open_file, pread_file, filled,
}
use csel.Daemon.Lcd.{lcd_write_freq, lcd_write_temp}

abbrev pub fan_freq_file : Bytes
fan_freq_file = codes "/sys/class/fan_pwm/device_pwm/parameters/freq"

abbrev pub fan_mode_file : Bytes
fan_mode_file = codes "/sys/class/fan_pwm/device_pwm/parameters/mode"

abbrev pub fan_cputemp_file : Bytes
fan_cputemp_file = codes "/sys/class/fan_pwm/device_pwm/parameters/temp_cpu"

-- The number is printed into an array of 11 bytes.
unfoldable pub set_freq : ℤ → M (Unit {0})
unfolding sprintf
set_freq freq = do
  _ ← lift (sprintf 11 (format_int freq))
  d ← get
  call (pwrote_at_0 d.file_descriptors.freq_fd (format_int freq))

unfoldable pub get_freq : M ℤ
get_freq d = ok (d.cur_freq, d, [])

abbrev pub write_if_open : ℤ → Bytes → M (Unit {0})
write_if_open f text = if eqb_ℤ f (negsuc 0) then pure tt else call (pwrote_at_0 f text)

unfoldable pub set_mode : ℤ → M (Unit {0})
unfolding sprintf
set_mode mode = do
  _ ← lift (sprintf 11 (format_int mode))
  f ← open_file fan_mode_file wronly
  write_if_open f (format_int mode)
  call (closed f)

abbrev pub read_if_open : ℤ → ℕ → M Bytes
read_if_open f size = if eqb_ℤ f (negsuc 0) then pure [] else pread_file f size

-- atoi of an array that nothing ends runs off it.
abbrev pub number_of : Option ℤ → Outcome ℤ
number_of none = fault over_read
number_of (some v) = ok v

unfoldable pub get_mode : M ℤ
unfolding atoi
get_mode = do
  f ← open_file fan_mode_file rdonly
  got ← read_if_open f 5
  call (closed f)
  lift (number_of (atoi (filled 5 got)))

unfoldable pub get_cpu_temp : M ℤ
get_cpu_temp d = ok (d.cur_cpu_temp, d, [])

abbrev pub set_cur_freq : ℤ → M (Unit {0})
set_cur_freq v d = ok (tt, record d { cur_freq = v }, [])

abbrev pub set_cur_cpu_temp : ℤ → M (Unit {0})
set_cur_cpu_temp v d = ok (tt, record d { cur_cpu_temp = v }, [])

unfoldable pub freq_handler : FileDesc → M (Unit {0})
unfolding atoi
freq_handler file_descriptors = do
  got ← pread_file file_descriptors.freq_fd 11
  v ← lift (number_of (atoi (filled 11 got)))
  set_cur_freq v
  call lock
  lcd_write_freq v
  call unlock

unfoldable pub cpu_temp_handler : FileDesc → M (Unit {0})
unfolding atoi
cpu_temp_handler file_descriptors = do
  got ← pread_file file_descriptors.cpu_temp_fd 7
  v ← lift (number_of (atoi (filled 7 got)))
  set_cur_cpu_temp v
  call lock
  lcd_write_temp v
  call unlock
