-- ===== src/Tests/Fixtures.antt =====
-- A kernel that does what is documented, and states of the module and of the daemon.
use csel.Prelude.{
  ◌≡◌, refl, false, none, some, Option, [], ◌∷◌, take, append-nil, replicate, ℤ, pos, negsuc,
  IsInt32, ◌/◌, ◌==◌, if◌then◌else◌,
}
use csel.Cstd.{Bytes, scan_int, format_int}
use csel.Cstd.Laws.{scan_int-format}
use csel.FanPwm.{Kernel, IsDocumented, Thermal, Driver}
use csel.Daemon.{Daemon, FileDesc}
use csel.System.Control.{Attribute, mode_attr, freq_attr}

abbrev strtol_result : Option ℤ → ℤ × ℤ
strtol_result none = (negsuc 21, pos 0)
strtol_result (some v) = (pos 0, v)

abbrev page_read : ℤ × Bytes → Bytes
page_read (pos n, page) = take n page
page_read (negsuc n, page) = []

-- 250 ticks a second
abbrev pub test_kernel : Kernel
test_kernel = record {
  msecs_to_jiffies = λ ms. ms / 4;
  kstrtol = λ buf. strtol_result (scan_int buf);
  sysfs_read = page_read;
}

parses_int : (a : ℤ) → IsInt32 a → test_kernel.kstrtol (format_int a) ≡ (pos 0, a)
parses_int a h = cc (append-nil (format_int a), scan_int-format a [] h tt)

pub test_kernel-IsDocumented : IsDocumented test_kernel
test_kernel-IsDocumented = record { parses = parses_int; reads = λ n page. refl }

abbrev pub warm : Thermal
warm = record { ret = pos 0; temp = pos 42564 }

abbrev pub unreadable : Thermal
unreadable = record { ret = negsuc 10; temp = pos 0 }

abbrev pub driver : Driver
driver = record { mode = false; freq = pos 2; led_trigger = 0; led = 0; expires = none }

abbrev pub test_fds : FileDesc
test_fds = record {
  cpu_temp_fd = pos 20;
  freq_fd = pos 21;
  timer_fd = pos 22;
  led_pwr_fd = pos 16;
  k1_fd = pos 17;
  k2_fd = pos 18;
  k3_fd = pos 19;
}

-- The daemon in manual mode at a frequency of 1, with one descriptor (30) for the next open.
abbrev pub daemon : Daemon
daemon = record {
  cur_freq = pos 1;
  cur_mode = pos 1;
  cur_cpu_temp = pos 0;
  stop_request = false;
  file_descriptors = test_fds;
  ts = record { value_sec = 1; value_nsec = 0; interval_sec = 0; interval_nsec = 0 };
  outcome_mq_buffer = replicate 101 0;
  answers = record { opens = pos 30 ∷ []; reads = []; settimes = pos 0 ∷ [] };
}

-- Descriptor 21 is the frequency's and 30 the mode's.
unfoldable pub test_files : ℤ → Option Attribute
test_files (negsuc n) = none
test_files (pos n) = if n == 21 then some freq_attr else if n == 30 then some mode_attr else none
