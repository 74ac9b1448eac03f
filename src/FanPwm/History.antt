-- ===== src/FanPwm/History.antt =====
-- Histories of the module: timer ticks and accesses to the attributes, in the order in which they come.
use csel.Prelude.{
  IsInt32, Bool-cases, inl, inr, eqb_ℤ, ℕ, suc, ◌+◌, ◌≤◌, ◌≡◌, refl, ◌⊎◌, ◌≢◌, false, List, [], ◌∷◌,
  none, some, arith, All, ℤ, pos, negsuc, ◌≤ℤ◌, to_int32, ◌-◌, ◌/◌, ◌%◌, ◌^◌,
}
use csel.Cstd.{Bytes, Outcome, ok, and_then, format_int}
use csel.Cstd.Laws.{format_int-NoNul, length-format_int_le}
use csel.FanPwm.{
  Kernel, Thermal, Driver, timer_callback, mode_store, freq_store, toggle_led, regulate,
  temp_gpu_show,
}
use csel.FanPwm.Attributes.{show_text_lem}

-- The accesses that change the module's state, a read of temp_gpu among them; reads of mode, freq and
-- temp_cpu leave it as it is.
pub data Event : Type 0 where
  tick : ℕ → Thermal → Event
  write_mode : Bytes → Event
  write_freq : Bytes → Event
  read_temp_gpu : Thermal → Event

unfoldable pub step : Kernel → Driver → Event → Outcome Driver
step k d (tick jiffies t) = timer_callback k jiffies t d
step k d (write_mode buf) = ok (mode_store k buf 0 d).1
step k d (write_freq buf) = ok (freq_store k buf 0 d).1
step k d (read_temp_gpu t) = and_then (temp_gpu_show t d) λ (shown, d'). ok d'

unfoldable pub run : Kernel → Driver → List Event → Outcome Driver
unfolding step
run k d [] = ok d
run k d (e ∷ es) = and_then (step k d e) λ d'. run k d' es

-- The globals as the module is loaded, and the pin as `gpio_direction_output (LED, 0)` leaves it.
unfoldable pub loaded : Driver
loaded = record { mode = false; freq = pos 2; led_trigger = 0; led = 0; expires = none }

pub record IsSound (d : Driver) : Type 0 where
  pub freq_pos : pos 1 ≤ℤ d.freq
  pub trigger : d.led_trigger ≤ 1
  pub level : d.led ≤ 1

-- A text for `freq` that kstrtol refuses, or reads as a number that is positive as an `int`; and a
-- temperature that is an int.
abbrev pub IsFair : Kernel → Event → Type 0
IsFair k (tick jiffies t) = Unit {0}
IsFair k (write_mode buf) = Unit {0}
IsFair k (write_freq buf) = ((k.kstrtol buf).0 ≢ pos 0) ⊎ (pos 1 ≤ℤ to_int32 (k.kstrtol buf).1)
IsFair k (read_temp_gpu t) = IsInt32 t.temp

pub loaded-IsSound : IsSound loaded
unfolding loaded
loaded-IsSound = omega arith

pos-suc : (a : ℤ) → pos 1 ≤ℤ a → (n : ℕ) × (a ≡ pos (suc n))
pos-suc (pos n) h = (n - 1, ground arith)
pos-suc (negsuc n) h = absurd (omega arith)

tick-IsSound :
    (k : Kernel) (jiffies : ℕ) (t : Thermal) (d : Driver)
    → IsSound d
    → (d' : Driver) × (timer_callback k jiffies t d ≡ ok d') × IsSound d'
unfolding timer_callback
tick-IsSound k jiffies t d s =
    let (n, e) = pos-suc d.freq s.freq_pos in
    (
      regulate t (record (toggle_led d) {
        expires = some ((jiffies + k.msecs_to_jiffies (1000 / suc n)) % 2 ^ 64);
      }),
      ground arith,
      ground arith,
    )

read-IsSound :
    (t : Thermal) (d : Driver)
    → IsSound d
    → IsInt32 t.temp
    → (d' : Driver) × (and_then (temp_gpu_show t d) (λ (shown, d'). ok d') ≡ ok d') × IsSound d'
unfolding temp_gpu_show
read-IsSound t d s h =
    let few = length-format_int_le t.temp h in
    let shown = show_text_lem (format_int t.temp) (format_int-NoNul t.temp) (omega arith) in
    elim (Bool-cases (eqb_ℤ t.ret (pos 0))) [
      | inl read ↦ (toggle_led d, rw (read, shown) refl, ground arith)
      | inr unread ↦ (d, rw unread refl, s)
    ]

step-IsSound :
    (k : Kernel) (e : Event) (d : Driver)
    → IsSound d
    → IsFair k e
    → (d' : Driver) × (step k d e ≡ ok d') × IsSound d'
unfolding step mode_store freq_store
step-IsSound k (tick jiffies t) d s h = tick-IsSound k jiffies t d s
step-IsSound k (write_mode buf) d s h = ((mode_store k buf 0 d).1, refl, ground arith)
step-IsSound k (read_temp_gpu t) d s h = read-IsSound t d s h
step-IsSound k (write_freq buf) d s h = ((freq_store k buf 0 d).1, refl, ground arith)

-- From a sound state (a positive frequency, `led_trigger` and the pin 0 or 1), a history of
-- ticks, of writes to the attributes in which each number that is accepted for `freq` is positive
-- as an int, and of reads of temp_gpu, whose temperature is an int, runs to its end without a
-- division by zero, and ends in a sound state.
pub run-IsSound :
    (k : Kernel) (d : Driver) (es : List Event)
    → IsSound d
    → All (IsFair k) es
    → (d' : Driver) × (run k d es ≡ ok d') × IsSound d'
unfolding run
run-IsSound k d [] s h = (d, refl, s)
run-IsSound k d (e ∷ es) s h =
    let (d', stepped, s') = step-IsSound k e d s h.0 in
    let (d'', ran, s'') = run-IsSound k d' es s' h.1 in (d'', rw stepped ran, s'')
