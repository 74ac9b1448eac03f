-- ===== src/System/Controller/Steps.antt =====
-- The steps by K1 and K2, and the daemon's look at the frequency, do what the fan does.
use csel.Prelude.{
  ℕ, zero, suc, ◌<◌, length, take-length, ◌≤◌, ◌≤ℤ◌, ◌≡◌, refl, ◌≢◌, ◌∙◌, sym, subst, Option, none,
  some, inl, inr, Bool-cases, [], ◌∷◌, ◌++◌, arith, ℤ, pos, negsuc, IsInt32, eqb_ℤ,
}
use csel.Cstd.{ok, format_int}
use csel.FanPwm.{Kernel, IsDocumented, Driver}
use csel.FanPwm.Attributes.{freq_store_lem, shown_line}
use csel.Daemon.Buttons.Steps.{step_up, step_down, increment-Writes, decrement-Writes}
use csel.Daemon.Buttons.Presses.{
  at_step, press_trace, k1_handler_lem, k2_handler_lem, increment_auto, decrement_auto,
  decrement_zero,
}
use csel.Daemon.Fan.Numbers.{freq_handler_lem}
use csel.Daemon.{FileDesc, Daemon, Trace, pwrote_at_0, unlock}
use csel.Daemon.Buttons.{decrement_freq}
use csel.System.Control.{Attribute, mode_attr, freq_attr, deliver, deliver-i2c}
use csel.System.Controller.{
  hear, presses_k1, presses_k2, looks, Fan, fan_after, IsAllowed, Machine, ready,
}
use csel.System.Controller.Simulation.{Agrees, Refines, hear-press, hear-write, hear-i2c}

module _ (k : Kernel) (doc : IsDocumented k) (attribute_of : ℤ → Option Attribute) (f : ℤ)
    (on_mode : attribute_of f ≡ some mode_attr) (good : f ≢ negsuc 0) where
  -- A press of K1 or K2 does to the module what its step does.
  deliver-press :
      (fd : ℤ) (fds : FileDesc) (d : Daemon) (t : Trace) (drv : Driver)
      → attribute_of fds.led_pwr_fd ≡ none
      → deliver k attribute_of (press_trace fd fds d t) drv ≡ deliver k attribute_of t drv
  unfolding deliver
  deliver-press fd fds d t drv led = ground arith

  deliver-freq :
      (v fd : ℤ) (drv : Driver)
      → attribute_of fd ≡ some freq_attr
      → IsInt32 v
      → deliver k attribute_of (pwrote_at_0 fd (format_int v) ∷ []) drv ≡ record drv { freq = v }
  unfolding deliver
  deliver-freq v fd drv on_freq fits = ground (arith, on_freq, freq_store_lem k v 0 drv doc fits)

  -- The daemon when a button has been read as pressed.
  abbrev pressed : Machine → Daemon
  pressed s = ready k attribute_of f s.daemon ((b'1' ∷ []) ∷ [])

  pub k1-Refines :
      (n : ℕ) (s : Machine) (c : Fan)
      → c.seen ≡ pos n
      → n ≤ 2147483597
      → Agrees k attribute_of f s c
      → Refines k attribute_of f presses_k1 s c
  k1-Refines n s c e low h = elim (Bool-cases (eqb_ℤ c.mode (pos 1))) [
    | inl manual ↦
        let now : s.daemon.cur_mode ≡ pos 1 = ground arith in
        let fds = s.daemon.file_descriptors in
        let writes = increment-Writes (at_step (pressed s)) n now (h.6 ∙ e) low in
        let ran = k1_handler_lem fds (pressed s) [] _ refl writes in
        (
          record {
            daemon = at_step (pressed s);
            driver = record s.driver { freq = pos (step_up n) };
            heard = s.heard;
          },
          rw
              (
                ran,
                deliver-press fds.k1_fd fds (pressed s)
                    (pwrote_at_0 fds.freq_fd (format_int (pos (step_up n))) ∷ []) s.driver h.4,
                deliver-freq (pos (step_up n)) fds.freq_fd s.driver h.3
                    (unfold step_up in ground arith),
                hear-write fds.k1_fd fds (pressed s) fds.freq_fd (format_int (pos (step_up n)))
                    s.heard,
              )
              refl,
          rw (manual, e) (h.0, h.1, refl, h.3, h.4, h.5, h.6 ∙ e, h.7),
        )
    | inr auto ↦
        let other : s.daemon.cur_mode ≢ pos 1 = ground arith in
        let fds = s.daemon.file_descriptors in
        let ran =
          k1_handler_lem fds (pressed s) [] [] refl (increment_auto (at_step (pressed s)) other) in
        (
          record { daemon = at_step (pressed s); driver = s.driver; heard = s.heard },
          unfold deliver hear in
              rw
                (
                  ran,
                  deliver-press fds.k1_fd fds (pressed s) [] s.driver h.4,
                  hear-press fds.k1_fd fds (pressed s) [] s.heard,
                )
                refl,
          rw auto h,
        )
  ]

  -- K2 where it writes nothing.
  k2_stays :
      (s : Machine) (c : Fan)
      → decrement_freq (at_step (pressed s)) ≡ ok (tt, at_step (pressed s), [])
      → fan_after presses_k2 c ≡ c
      → Agrees k attribute_of f s c
      → Refines k attribute_of f presses_k2 s c
  k2_stays s c writes same h =
      let fds = s.daemon.file_descriptors in
      let ran = k2_handler_lem fds (pressed s) [] [] refl writes in
      (
        record { daemon = at_step (pressed s); driver = s.driver; heard = s.heard },
        unfold deliver hear in
            rw
              (
                ran,
                deliver-press fds.k2_fd fds (pressed s) [] s.driver h.4,
                hear-press fds.k2_fd fds (pressed s) [] s.heard,
              )
              refl,
        subst
            (Agrees k attribute_of f
              (record { daemon = at_step (pressed s); driver = s.driver; heard = s.heard }))
            (sym same) h,
      )

  k2-writes :
      (n : ℕ) (s : Machine) (c : Fan)
      → c.seen ≡ pos (suc n)
      → n < 2147483647
      → Agrees k attribute_of f s c
      → Refines k attribute_of f presses_k2 s c
  k2-writes n s c e low h = elim (Bool-cases (eqb_ℤ c.mode (pos 1))) [
    | inl manual ↦
        let now : s.daemon.cur_mode ≡ pos 1 = ground arith in
        let fds = s.daemon.file_descriptors in
        let writes =
          decrement-Writes (at_step (pressed s)) (suc n) now (h.6 ∙ e) (omega arith)
            (omega arith) in
        let ran = k2_handler_lem fds (pressed s) [] _ refl writes in
        let g = step_down (suc n) in
        (
          record {
            daemon = at_step (pressed s);
            driver = record s.driver { freq = pos g };
            heard = s.heard;
          },
          rw
              (
                ran,
                deliver-press fds.k2_fd fds (pressed s)
                    (pwrote_at_0 fds.freq_fd (format_int (pos g)) ∷ []) s.driver h.4,
                deliver-freq (pos g) fds.freq_fd s.driver h.3 (unfold step_down in ground arith),
                hear-write fds.k2_fd fds (pressed s) fds.freq_fd (format_int (pos g)) s.heard,
              )
              refl,
          rw (manual, e) (h.0, h.1, refl, h.3, h.4, h.5, h.6 ∙ e, h.7),
        )
    | inr auto ↦
        let other : s.daemon.cur_mode ≢ pos 1 = ground arith in
        k2_stays s c (decrement_auto (at_step (pressed s)) other) (rw auto refl) h
  ]

  pub k2-Refines :
      (a : ℤ) (s : Machine) (c : Fan)
      → c.seen ≡ a
      → pos 0 ≤ℤ a
      → a ≤ℤ pos 2147483647
      → Agrees k attribute_of f s c
      → Refines k attribute_of f presses_k2 s c
  k2-Refines (pos zero) s c e low high h =
      k2_stays s c (decrement_zero (at_step (pressed s)) (h.6 ∙ e)) (rw e (ground arith)) h
  k2-Refines (pos (suc n)) s c e low high h = k2-writes n s c e (omega arith) h
  k2-Refines (negsuc n) s c e low high h = absurd (omega arith)

  pub looks-Refines :
      (s : Machine) (c : Fan)
      → IsAllowed looks c
      → Agrees k attribute_of f s c
      → Refines k attribute_of f looks s c
  looks-Refines s c allowed h =
      let text = format_int c.freq ++ b'\n' ∷ [] in
      let fits : IsInt32 c.freq = omega arith in
      let page = shown_line c.freq s.driver fits h.2 in
      let read = doc.reads (length text) (text ++ 0 ∷ []) ∙ take-length text (0 ∷ []) in
      let fds = s.daemon.file_descriptors in
      let d = ready k attribute_of f s.daemon (text ∷ []) in
      let (ms, ran) = freq_handler_lem c.freq fds d [] allowed.0 allowed.1 refl in
      (
        record {
          daemon = record d { cur_freq = c.freq; answers = record d.answers { reads = [] } };
          driver = s.driver;
          heard = s.heard;
        },
        unfold deliver hear in
            rw
              (
                page,
                read,
                ran,
                deliver-i2c k attribute_of ms (unlock ∷ []) s.driver,
                hear-i2c ms (unlock ∷ []) s.heard,
              )
              refl,
        (h.0, h.1, h.2, h.3, h.4, fits, refl, h.7),
      )
