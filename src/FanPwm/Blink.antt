-- ===== src/FanPwm/Blink.antt =====
-- The timer callback: when it divides by zero, how the LED alternates, what the automatic mode sets.
use csel.Prelude.{
  ℕ, suc, ◌+◌, ◌-◌, ◌/◌, ◌≤◌, ◌≡◌, ◌≢◌, ◌↔◌, true, false, some, arith, ℤ, pos, ◌≤ℤ◌, ◌⊎◌, ◌%◌, ◌^◌,
}
use csel.Cstd.{ok, fault, div_by_zero}
use csel.FanPwm.{Kernel, Thermal, Driver, auto_freq, toggle_led, timer_callback}

-- The timer callback divides by zero exactly if the frequency is 0, whatever the mode and the
-- temperature.
pub timer_callback_faults :
    (k : Kernel) (jiffies : ℕ) (t : Thermal) (d : Driver)
    → (timer_callback k jiffies t d ≡ fault div_by_zero) ↔ (d.freq ≡ pos 0)
unfolding timer_callback
timer_callback_faults k jiffies t d = (λ h. ground arith, λ h. ground arith)

-- A hotter zone never gets a lower frequency, and every frequency lies between 2 and 20.
pub auto_freq_mono :
    (s t : ℤ)
    → s ≤ℤ t
    → (auto_freq s ≤ℤ auto_freq t) × (pos 2 ≤ℤ auto_freq s) × (auto_freq t ≤ℤ pos 20)
unfolding auto_freq
auto_freq_mono s t h = ground arith

-- In automatic mode, with a positive frequency and a zone that can be read, a call of the timer
-- callback toggles the LED, arms the timer with the half period of the old frequency, and takes
-- over the frequency that belongs to the temperature.
pub timer_callback_regulates :
    (k : Kernel) (jiffies n : ℕ) (t : Thermal) (d : Driver)
    → d.freq ≡ pos (suc n)
    → d.mode ≡ false
    → t.ret ≡ pos 0
    → timer_callback k jiffies t d
      ≡ ok (record (toggle_led d) {
        freq = auto_freq t.temp;
        expires = some ((jiffies + k.msecs_to_jiffies (1000 / suc n)) % 2 ^ 64);
      })
unfolding timer_callback
timer_callback_regulates k jiffies n t d e auto read = ground arith

-- In manual mode, or where the zone cannot be read, a call of the timer callback at a positive
-- frequency toggles the LED and arms the timer, and keeps the frequency and the mode.
pub timer_callback_keeps :
    (k : Kernel) (jiffies n : ℕ) (t : Thermal) (d : Driver)
    → d.freq ≡ pos (suc n)
    → (d.mode ≡ true) ⊎ (t.ret ≢ pos 0)
    → timer_callback k jiffies t d
      ≡ ok (record (toggle_led d) {
        expires = some ((jiffies + k.msecs_to_jiffies (1000 / suc n)) % 2 ^ 64);
      })
unfolding timer_callback
timer_callback_keeps k jiffies n t d e manual = ground arith

-- The LED blinks: from a state in which `led_trigger` is 0 or 1, two calls of the timer callback
-- in a row that do not fault leave the LED's pin at different levels out of 0 and 1, and
-- `led_trigger` as it was.
pub timer_callback_blinks :
    (k : Kernel) (i j : ℕ) (s t : Thermal) (d d' d'' : Driver)
    → d.led_trigger ≤ 1
    → timer_callback k i s d ≡ ok d'
    → timer_callback k j t d' ≡ ok d''
    → (d'.led ≤ 1) × (d''.led ≡ 1 - d'.led) × (d''.led_trigger ≡ d.led_trigger)
unfolding timer_callback
timer_callback_blinks k i j s t d d' d'' h e e' = ground arith
