-- ===== src/System/Controller/Simulation.antt =====
-- The daemon, the module and the answers in the state of the fan.
use csel.Prelude.{List, [], ◌∷◌, ◌++◌, map, refl, arith, ◌≡◌, Option, none, some, ℤ, IsInt32}
use csel.Cstd.{Bytes, ok}
use csel.FanPwm.{Kernel}
use csel.FanPwm.Attributes.{is_set}
use csel.System.Control.{Attribute, freq_attr}
use csel.Daemon.{Daemon, FileDesc, Trace, i2c, unlock, pwrote_at_0}
use csel.Daemon.Buttons.Mode.{mode_trace}
use csel.Daemon.Buttons.Presses.{press_trace}
use csel.System.Controller.{hear, Act, Fan, fan_after, Machine, machine_after}

-- Messages to the display and writes send nothing.
pub hear-i2c :
    (ms : List Bytes) (t : Trace) (heard : List (Option Bytes))
    → hear (map i2c ms ++ t) heard ≡ hear t heard
unfolding hear
hear-i2c [] t heard = refl
hear-i2c (m ∷ ms) t heard = hear-i2c ms t heard

pub hear-mode_trace :
    (f m : ℤ) (ms : List Bytes) (heard : List (Option Bytes))
    → hear (mode_trace f m ms) heard ≡ heard
unfolding hear
hear-mode_trace f m ms heard = hear-i2c ms (unlock ∷ []) heard

pub hear-press :
    (fd : ℤ) (fds : FileDesc) (d : Daemon) (t : Trace) (heard : List (Option Bytes))
    → hear (press_trace fd fds d t) heard ≡ hear t heard
unfolding hear
hear-press fd fds d t heard = ground arith

pub hear-write :
    (fd : ℤ) (fds : FileDesc) (d : Daemon) (out : ℤ) (text : Bytes) (heard : List (Option Bytes))
    → hear (press_trace fd fds d (pwrote_at_0 out text ∷ [])) heard ≡ heard
unfolding hear
hear-write fd fds d out text heard = hear-press fd fds d (pwrote_at_0 out text ∷ []) heard

module _ (k : Kernel) (attribute_of : ℤ → Option Attribute) (f : ℤ) where
  -- The machine is in this state, its descriptors are open on the attributes, and the frequency that
  -- the daemon knows is an int.
  abbrev pub Agrees : Machine → Fan → Type 0
  Agrees s c =
      (s.daemon.cur_mode ≡ c.mode)
      × (s.driver.mode ≡ is_set c.mode)
      × (s.driver.freq ≡ c.freq)
      × (attribute_of s.daemon.file_descriptors.freq_fd ≡ some freq_attr)
      × (attribute_of s.daemon.file_descriptors.led_pwr_fd ≡ none)
      × IsInt32 s.daemon.cur_freq
      × (s.daemon.cur_freq ≡ c.seen)
      × (s.heard ≡ map some c.heard)

  abbrev pub Refines : Act → Machine → Fan → Type 0
  Refines act s c =
      (s' : Machine) × (machine_after k attribute_of f act s ≡ ok s') × Agrees s' (fan_after act c)
