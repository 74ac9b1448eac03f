-- ===== src/System/Control.antt =====
-- The buttons, the daemon and the kernel module: what the daemon writes reaches the module, and what
-- the module shows comes back.
use mathlib.Core.List.{map}
use csel.Prelude.{
  ℕ, ◌≡◌, refl, Option, none, some, List, [], ◌∷◌, ◌++◌, arith, ℤ, pos, negsuc, ◌≤ℤ◌, IsInt32,
}
use csel.Cstd.{Bytes, ok, fault, div_by_zero, format_int}
use csel.FanPwm.{
  Kernel, IsDocumented, Thermal, Driver, mode_store, freq_store, freq_show, timer_callback,
}
use csel.FanPwm.Attributes.{freq_store_lem, freq_show-freq_store}
use csel.FanPwm.Blink.{timer_callback_faults}
use csel.Daemon.{Daemon, Trace, pwrote_at_0, i2c, lock, unlock, pread_at_0}
use csel.Daemon.Fan.{set_freq, freq_handler}
use csel.Daemon.Fan.Numbers.{set_freq_lem, freq_handler_lem}
use csel.Daemon.Buttons.{decrement_freq}
use csel.Daemon.Buttons.Steps.{decrement_bounds}

-- The attributes of the module that the daemon writes.
pub data Attribute : Type 0 where
  mode_attr freq_attr : Attribute

abbrev pub store : Kernel → Option Attribute → Bytes → Driver → Driver
store k none text drv = drv
store k (some mode_attr) text drv = (mode_store k text 0 drv).1
store k (some freq_attr) text drv = (freq_store k text 0 drv).1

-- The writes of a trace, as the kernel hands them to the module: `attribute_of` is the attribute that
-- a descriptor is open on, if it is one. The other calls do not concern the module.
unfoldable pub deliver : Kernel → (ℤ → Option Attribute) → Trace → Driver → Driver
deliver k attribute_of [] drv = drv
deliver k attribute_of (pwrote_at_0 fd text ∷ t) drv =
    deliver k attribute_of t (store k (attribute_of fd) text drv)
deliver k attribute_of (_ ∷ t) drv = deliver k attribute_of t drv

pub deliver-i2c :
    (k : Kernel) (attribute_of : ℤ → Option Attribute) (ms : List Bytes) (t : Trace) (drv : Driver)
    → deliver k attribute_of (map i2c ms ++ t) drv ≡ deliver k attribute_of t drv
unfolding deliver
deliver-i2c k attribute_of [] t drv = refl
deliver-i2c k attribute_of (m ∷ ms) t drv = deliver-i2c k attribute_of ms t drv

module _ (k : Kernel) (doc : IsDocumented k) (attribute_of : ℤ → Option Attribute) (d : Daemon)
    (drv : Driver) (on_freq : attribute_of d.file_descriptors.freq_fd ≡ some freq_attr) where
  deliver_freq :
      (a : ℤ)
      → IsInt32 a
      → deliver k attribute_of (pwrote_at_0 d.file_descriptors.freq_fd (format_int a) ∷ []) drv
        ≡ record drv { freq = a }
  unfolding deliver
  deliver_freq a fits = ground (arith, on_freq, freq_store_lem k a 0 drv doc fits)

  -- For a kernel that does what is documented and a daemon whose descriptor `freq_fd` is open on
  -- the module's attribute `freq`: a frequency from -99 to 999 that `set_freq` sets is the
  -- module's frequency afterwards; and when `freq_handler` then reads what the kernel hands out
  -- of the page that `freq_show` fills, it is the daemon's current frequency.
  pub freq_round_trip :
      (a : ℤ)
      → negsuc 98 ≤ℤ a
      → a ≤ℤ pos 999
      → (t : Trace) × (set_freq a d ≡ ok (tt, d, t))
        × ((deliver k attribute_of t drv).freq ≡ a)
        × (shown : ℤ × Bytes) × (freq_show (deliver k attribute_of t drv) ≡ ok shown)
        × (d' : Daemon) × (u : Trace) × (freq_handler d.file_descriptors
              (record d { answers = record d.answers { reads = k.sysfs_read shown ∷ [] } })
            ≡ ok (tt, d', u))
        × (d'.cur_freq ≡ a)
  freq_round_trip a low high =
      let fits : IsInt32 a = omega arith in
      let (_, stored, shown, e, line) = freq_show-freq_store k a 0 drv doc fits in
      let (ms, handled) =
        freq_handler_lem a d.file_descriptors
          (record d { answers = record d.answers { reads = (format_int a ++ b'\n' ∷ []) ∷ [] } }) []
          low high refl in
      (
        pwrote_at_0 d.file_descriptors.freq_fd (format_int a) ∷ [],
        set_freq_lem a d (omega arith) fits,
        rw (deliver_freq a fits),
        shown,
        rw (deliver_freq a fits, ← stored) e,
        record d { cur_freq = a; answers = record d.answers { reads = [] } },
        pread_at_0 d.file_descriptors.freq_fd 11 ∷ lock ∷ (map i2c ms ++ unlock ∷ []),
        rw line handled,
        refl,
      )

  -- For a kernel that does what is documented and a daemon whose descriptor `freq_fd` is open on
  -- the module's attribute `freq`: in manual mode at 1 Hz, a step down by K2 is written to the
  -- module, and the module's next timer callback divides by zero.
  pub decrement_to_fault :
      (jiffies : ℕ) (t : Thermal)
      → d.cur_mode ≡ pos 1
      → d.cur_freq ≡ pos 1
      → (u : Trace) × (decrement_freq d ≡ ok (tt, d, u))
        × (timer_callback k jiffies t (deliver k attribute_of u drv) ≡ fault div_by_zero)
  decrement_to_fault jiffies t manual freq =
      let (g, _, zero_iff, wrote) = decrement_bounds d 1 manual freq (omega arith) (omega arith) in
      (
        pwrote_at_0 d.file_descriptors.freq_fd (format_int (pos g)) ∷ [],
        wrote,
        rw (zero_iff.1 refl, deliver_freq (pos 0) (omega arith))
            ((timer_callback_faults k jiffies t (record drv { freq = pos 0 })).1 refl),
      )
