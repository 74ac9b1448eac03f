-- ===== src/System/Modes.antt =====
-- The mode of the daemon and the mode of the module.
use csel.Prelude.{
  ◌≡◌, refl, ◌≢◌, Option, none, some, List, [], ◌∷◌, ◌++◌, arith, ℤ, pos, negsuc, ◌≤ℤ◌, ltb_ℤ,
  eqb_ℤ, IsInt32, if◌then◌else◌,
}
use csel.Cstd.{Bytes, ok}
use csel.FanPwm.{Kernel, IsDocumented, Driver}
use csel.FanPwm.Attributes.{mode_store_lem, is_set}
use csel.Daemon.{Daemon, FileDesc, Trace, unlock, closed, first_fd, set_timer_fd, pwrote_at_0}
use csel.Daemon.Buttons.{k3_action}
use csel.Daemon.Buttons.Mode.{mode_trace, apply_mode_lem, k3_action_lem}
use csel.Daemon.Messages.{handle_setmode}
use csel.System.Control.{Attribute, mode_attr, deliver, deliver-i2c}

module _ (k : Kernel) (doc : IsDocumented k) (attribute_of : ℤ → Option Attribute) (f : ℤ)
    (on_mode : attribute_of f ≡ some mode_attr) (good : f ≢ negsuc 0) where
  pub deliver-mode_trace :
      (m : ℤ) (ms : List Bytes) (drv : Driver)
      → IsInt32 m
      → deliver k attribute_of (mode_trace f m ms) drv ≡ record drv { mode = is_set m }
  unfolding deliver
  deliver-mode_trace m ms drv fits = ground (
    arith,
    on_mode,
    mode_store_lem k m 0 drv doc fits,
    deliver-i2c k attribute_of ms (unlock ∷ []) (record drv { mode = is_set m }),
  )

  abbrev pub k3_trace : FileDesc → Daemon → ℤ → List Bytes → Trace
  k3_trace fds d m ms =
      set_timer_fd fds.timer_fd (record d.ts { value_nsec = 0; value_sec = 1 })
      ∷ ((if ltb_ℤ (first_fd d.answers.settimes) (pos 0) then closed fds.timer_fd ∷ [] else [])
          ++ pwrote_at_0 fds.led_pwr_fd (b'1' ∷ 0 ∷ []) ∷ mode_trace f m ms)

  pub deliver-k3 :
      (fds : FileDesc) (d : Daemon) (m : ℤ) (ms : List Bytes) (drv : Driver)
      → attribute_of fds.led_pwr_fd ≡ none
      → IsInt32 m
      → deliver k attribute_of (k3_trace fds d m ms) drv ≡ record drv { mode = is_set m }
  unfolding deliver
  deliver-k3 fds d m ms drv led fits = ground (arith, led, deliver-mode_trace m ms drv fits)

  -- For a kernel that does what is documented: where the open of the mode's file answers with a
  -- descriptor other than -1 that is open on the module's attribute `mode`, and the LED's
  -- descriptor is not open on an attribute of the module, a press of K3 runs to its end, leaves
  -- the daemon in the other mode than before and the module in the same mode as the daemon, and
  -- keeps the module's frequency.
  pub k3_modes_agree :
      (fds : FileDesc) (d : Daemon) (drv : Driver) (rest : List ℤ)
      → d.answers.opens ≡ f ∷ rest
      → attribute_of fds.led_pwr_fd ≡ none
      → (d' : Daemon) × (t : Trace) × (k3_action fds d ≡ ok (tt, d', t))
        × (d'.cur_mode ≡ (if eqb_ℤ d.cur_mode (pos 0) then pos 1 else pos 0))
        × ((deliver k attribute_of t drv).mode ≡ is_set d'.cur_mode)
        × ((deliver k attribute_of t drv).freq ≡ drv.freq)
  k3_modes_agree fds d drv rest e led =
      let m = if eqb_ℤ d.cur_mode (pos 0) then pos 1 else pos 0 in
      let (ms, d', ran, mode, _, _, _) = k3_action_lem fds d f rest e good in
      (
        d',
        _,
        ran,
        mode,
        rw (mode, deliver-k3 fds d m ms drv led (ground arith)),
        rw (deliver-k3 fds d m ms drv led (ground arith)),
      )

  -- For a kernel that does what is documented: where the open of the mode's file answers with a
  -- descriptor other than -1 that is open on the module's attribute `mode`, the request to set
  -- the mode to an int above -999999999 runs to its end, leaves that int as the daemon's mode,
  -- leaves the module in manual mode exactly if the int is not 0, and keeps the module's
  -- frequency.
  pub setmode_modes_agree :
      (value : ℤ) (d : Daemon) (drv : Driver) (rest : List ℤ)
      → negsuc 999999998 ≤ℤ value
      → IsInt32 value
      → d.answers.opens ≡ f ∷ rest
      → (d' : Daemon) × (t : Trace) × (handle_setmode value d ≡ ok (tt, d', t))
        × (d'.cur_mode ≡ value)
        × ((deliver k attribute_of t drv).mode ≡ is_set value)
        × ((deliver k attribute_of t drv).freq ≡ drv.freq)
  setmode_modes_agree value d drv rest low fits e =
      let (ms, ran) = apply_mode_lem (record d { cur_mode = value }) f rest low fits e good in
      (
        record d { cur_mode = value; answers = record d.answers { opens = rest } },
        mode_trace f value ms,
        rw ran,
        refl,
        rw (deliver-mode_trace value ms drv fits),
        rw (deliver-mode_trace value ms drv fits),
      )
