-- ===== src/FanPwm.antt =====
-- Projet/module_noyau/fan_pwm_driver.c, the kernel module that blinks the LED at the fan's frequency:
-- its globals, its timer callback, and the attributes below /sys/class/fan_pwm/device_pwm/parameters.
-- The kernel is a parameter; what it answers (a thermal zone, the clock) is an argument of each call.
pub mod Blink
pub mod Attributes
pub mod History
pub mod Lifecycle
use csel.Prelude.{
  ℕ, zero, suc, ◌+◌, ◌-◌, ◌/◌, ◌%◌, ◌^◌, ◌≡◌, Bool, true, false, Option, none, some, [], ◌∷◌, ◌++◌,
  ◌==◌, if◌then◌else◌, take, ℤ, pos, negsuc, ltb_ℤ, eqb_ℤ, to_int32, IsInt32,
}
use csel.Cstd.{Bytes, Outcome, ok, fault, div_by_zero, and_then, format_int, snprintf, strcpy}

-- The services of the kernel that the module calls.
pub record Kernel : Type 0 where
  -- milliseconds, an `unsigned int`, in timer ticks
  pub msecs_to_jiffies : ℕ → ℕ
  -- the value that kstrtol (buf, 10, …) returns, and the number that it stores
  pub kstrtol : Bytes → ℤ × ℤ
  -- what a reader of an attribute gets from the count and the page that `show` hands back
  pub sysfs_read : ℤ × Bytes → Bytes

-- What the kernel's documentation says of these services.
pub record IsDocumented (k : Kernel) : Type 0 where
  pub parses : (a : ℤ) → IsInt32 a → k.kstrtol (format_int a) ≡ (pos 0, a)
  pub reads : (n : ℕ) (page : Bytes) → k.sysfs_read (pos n, page) ≡ take n page

-- What thermal_zone_get_temp returns, and the temperature that it stores.
pub record Thermal : Type 0 where
  pub ret : ℤ
  pub temp : ℤ

-- The globals of the module, `static int led_trigger` of toggleLed, the level of the LED's pin, and the
-- tick at which the timer fires next.
pub record Driver : Type 0 where
  pub mode : Bool
  pub freq : ℤ
  pub led_trigger : ℕ
  pub led : ℕ
  pub expires : Option ℕ

abbrev pub buffer_size : ℕ
buffer_size = 32

unfoldable pub toggle_led : Driver → Driver
toggle_led d = record d { led = d.led_trigger; led_trigger = if d.led_trigger == 0 then 1 else 0 }

-- `1000 / freq` in `int`, passed on as an `unsigned int`.
unfoldable pub half_period : ℤ → Outcome ℕ
half_period (pos zero) = fault div_by_zero
half_period (pos (suc n)) = ok (1000 / suc n)
half_period (negsuc n) = ok ((2 ^ 32 - 1000 / suc n) % 2 ^ 32)

-- The frequency that the automatic mode sets at a temperature, in thousandths of a degree.
unfoldable pub auto_freq : ℤ → ℤ
auto_freq temp =
    if ltb_ℤ temp (pos 35000)
    then pos 2
    else if ltb_ℤ temp (pos 40000)
    then pos 5
    else if ltb_ℤ temp (pos 45000)
    then pos 10
    else pos 20

unfoldable pub regulate : Thermal → Driver → Driver
unfolding auto_freq
regulate t d =
    if d.mode then d else if eqb_ℤ t.ret (pos 0) then record d { freq = auto_freq t.temp } else d

-- The timer has fired at the tick `jiffies`, an `unsigned long` of 64 bits. `temp` is 0 where the
-- thermal zone cannot be read, and nothing reads it then.
unfoldable pub timer_callback : Kernel → ℕ → Thermal → Driver → Outcome Driver
unfolding toggle_led half_period regulate
timer_callback k jiffies t d =
    let d' = toggle_led d in
    and_then (half_period d'.freq) λ ms.
      ok (regulate t (record d' { expires = some ((jiffies + k.msecs_to_jiffies ms) % 2 ^ 64) }))

-- `mode = mode_wr`, a `long` into a `bool`
unfoldable pub mode_store : Kernel → Bytes → ℕ → Driver → ℤ × Driver
mode_store k buf count d =
    let (ret, mode_wr) = k.kstrtol buf in
    if eqb_ℤ ret (pos 0)
    then (pos count, record d { mode = if eqb_ℤ mode_wr (pos 0) then false else true })
    else (negsuc 0, d)

-- The int `mode + 48` lies in memory with its low byte first, and its other bytes are 0.
unfoldable pub mode_show : Driver → Outcome (ℤ × Bytes)
unfolding strcpy
mode_show d =
    let mode_ascii = (if d.mode then 1 else 0) + 48 in
    and_then (strcpy (mode_ascii ∷ 0 ∷ 0 ∷ 0 ∷ [])) λ buf. ok (pos 1, buf)

-- `freq = freq_wr`, a `long` into an `int`
unfoldable pub freq_store : Kernel → Bytes → ℕ → Driver → ℤ × Driver
freq_store k buf count d =
    let (ret, freq_wr) = k.kstrtol buf in
    if eqb_ℤ ret (pos 0) then (pos count, record d { freq = to_int32 freq_wr }) else (negsuc 0, d)

-- A number printed into a local array of BUFFER_SIZE bytes and copied into the page.
unfoldable pub show_text : Bytes → Outcome (ℤ × Bytes)
unfolding snprintf strcpy
show_text text =
    let (size_buf, str) = snprintf buffer_size text in
    and_then (strcpy str) λ buf. ok (pos size_buf, buf)

unfoldable pub freq_show : Driver → Outcome (ℤ × Bytes)
unfolding show_text
freq_show d = show_text (format_int d.freq ++ b'\n' ∷ [])

-- A zone that cannot be read gives -1 and leaves the page alone.
unfoldable pub temp_cpu_show : Thermal → Outcome (ℤ × Bytes)
unfolding show_text
temp_cpu_show t =
    if eqb_ℤ t.ret (pos 0) then show_text (format_int t.temp ++ b'\n' ∷ []) else ok (negsuc 0, [])

-- Unlike the CPU's, the text has no line end, and the read toggles the LED.
unfoldable pub temp_gpu_show : Thermal → Driver → Outcome ((ℤ × Bytes) × Driver)
unfolding show_text toggle_led
temp_gpu_show t d =
    if eqb_ℤ t.ret (pos 0)
    then and_then (show_text (format_int t.temp)) (λ shown. ok (shown, toggle_led d))
    else ok ((negsuc 0, []), d)
