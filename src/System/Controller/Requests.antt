-- ===== src/System/Controller/Requests.antt =====
-- A press of K3 and the client's requests do what the fan does.
use csel.Prelude.{
  List, Option, ◌≡◌, refl, ◌≢◌, ◌∙◌, sym, ap, subst, Option, some, inl, inr, Bool-cases, [], ◌∷◌,
  arith, ℤ, pos, negsuc, IsInt32, eqb_ℤ, if◌then◌else◌,
}
use csel.Cstd.{str_eq, Bytes, codes, format_int}
use csel.FanPwm.{Kernel, IsDocumented, Driver}
use csel.FanPwm.Attributes.{is_set, freq_store_lem}
use csel.Client.{Env}
use csel.Daemon.{pwrote_at_0, sent}
use csel.Daemon.Buttons.Mode.{k3_action_lem, apply_mode_lem}
use csel.Daemon.Messages.{Locals, handle_message, dispatch}
use csel.System.Control.{Attribute, mode_attr, freq_attr, deliver}
use csel.System.Modes.{k3_trace, deliver-k3, deliver-mode_trace}
use csel.System.Requests.{IsCommand, scan_command-message}
use csel.System.Replies.{setfreq_sets, setfreq_refused, getfreq_answers}
use csel.Daemon.{FileDesc, Daemon}
use csel.System.Controller.{
  hear, presses_k3, asks_setmode, asks_setfreq, asks_getfreq, Fan, IsAllowed, Machine, ready,
}
use csel.System.Controller.Simulation.{Agrees, Refines, hear-mode_trace}

setmode-IsCommand : IsCommand (codes "setmode")
setmode-IsCommand = ground arith

module _ (k : Kernel) (doc : IsDocumented k) (attribute_of : ℤ → Option Attribute) (f : ℤ)
    (on_mode : attribute_of f ≡ some mode_attr) (good : f ≢ negsuc 0) where
  abbrev other_mode : ℤ → ℤ
  other_mode m = if eqb_ℤ m (pos 0) then pos 1 else pos 0

  hear-k3 :
      (fds : FileDesc) (d : Daemon) (m : ℤ) (ms : List Bytes) (heard : List (Option Bytes))
      → hear (k3_trace k doc attribute_of f on_mode good fds d m ms) heard ≡ heard
  unfolding hear
  hear-k3 fds d m ms heard = ground (arith, hear-mode_trace f m ms heard)

  pub k3-Refines :
      (s : Machine) (c : Fan)
      → Agrees k attribute_of f s c
      → Refines k attribute_of f presses_k3 s c
  k3-Refines s c h =
      let d = ready k attribute_of f s.daemon [] in
      let fds = s.daemon.file_descriptors in
      let m = if eqb_ℤ s.daemon.cur_mode (pos 0) then pos 1 else pos 0 in
      let (ms, d', ran, mode, freq, _, files) = k3_action_lem fds d f [] refl good in
      let moved =
        deliver-k3 k doc attribute_of f on_mode good fds d m ms s.driver h.4 (ground arith) in
      (
        record { daemon = d'; driver = record s.driver { mode = is_set m }; heard = s.heard },
        rw (ran, moved, hear-k3 fds d m ms s.heard) refl,
        (
          mode ∙ ap other_mode h.0,
          ap (λ x. is_set (other_mode x)) h.0,
          h.2,
          ap (λ x. attribute_of x.freq_fd) files ∙ h.3,
          ap (λ x. attribute_of x.led_pwr_fd) files ∙ h.4,
          subst IsInt32 (sym freq) h.5,
          freq ∙ h.6,
          h.7,
        ),
      )

  pub setmode-Refines :
      (env : Env) (stale : Locals) (v : ℤ) (s : Machine) (c : Fan)
      → IsAllowed (asks_setmode env stale v) c
      → Agrees k attribute_of f s c
      → Refines k attribute_of f (asks_setmode env stale v) s c
  unfolding handle_message dispatch str_eq
  setmode-Refines env stale v s c fits h =
      let d = ready k attribute_of f s.daemon [] in
      let (ms, ran) = apply_mode_lem (record d { cur_mode = v }) f [] fits.0 fits.1 refl good in
      (
        record {
          daemon = record s.daemon {
            cur_mode = v;
            answers = record s.daemon.answers { opens = []; reads = [] };
          };
          driver = record s.driver { mode = is_set v };
          heard = s.heard;
        },
        rw
            (
              scan_command-message env (codes "setmode") v stale setmode-IsCommand fits.1,
              ran,
              deliver-mode_trace k doc attribute_of f on_mode good v ms s.driver fits.1,
              hear-mode_trace f v ms s.heard,
            )
            refl,
        (refl, refl, h.2, h.3, h.4, h.5, h.6, h.7),
      )

  pub getfreq-Refines :
      (env : Env) (stale : Locals) (s : Machine) (c : Fan)
      → Agrees k attribute_of f s c
      → Refines k attribute_of f (asks_getfreq env stale) s c
  getfreq-Refines env stale s c h =
      let (m, buffer, ran, text) =
        getfreq_answers env stale (ready k attribute_of f s.daemon []) h.5 in
      (
        record {
          daemon = record s.daemon {
            outcome_mq_buffer = buffer;
            answers = record s.daemon.answers { opens = f ∷ []; reads = [] };
          };
          driver = s.driver;
          heard = some (format_int s.daemon.cur_freq) ∷ s.heard;
        },
        unfold deliver hear in rw (ran, text) refl,
        (h.0, h.1, h.2, h.3, h.4, h.5, h.6, rw (h.6, h.7) refl),
      )

  deliver-setfreq :
      (v : ℤ) (m : Bytes) (fd : ℤ) (drv : Driver)
      → attribute_of fd ≡ some freq_attr
      → IsInt32 v
      → deliver k attribute_of (pwrote_at_0 fd (format_int v) ∷ sent m ∷ []) drv
        ≡ record drv { freq = v }
  unfolding deliver
  deliver-setfreq v m fd drv on_freq fits =
      ground (arith, on_freq, freq_store_lem k v 0 drv doc fits)

  pub setfreq-Refines :
      (env : Env) (stale : Locals) (v : ℤ) (s : Machine) (c : Fan)
      → IsAllowed (asks_setfreq env stale v) c
      → Agrees k attribute_of f s c
      → Refines k attribute_of f (asks_setfreq env stale v) s c
  setfreq-Refines env stale v s c fits h = elim (Bool-cases (eqb_ℤ c.mode (pos 1))) [
    | inl manual ↦
        let now : s.daemon.cur_mode ≡ pos 1 = ground arith in
        let (m, buffer, ran, text) =
          setfreq_sets env stale (ready k attribute_of f s.daemon []) v fits.0 fits.1 now in
        (
          record {
            daemon = record s.daemon {
              outcome_mq_buffer = buffer;
              answers = record s.daemon.answers { opens = f ∷ []; reads = [] };
            };
            driver = record s.driver { freq = v };
            heard = some (codes "OK") ∷ s.heard;
          },
          unfold hear in
              rw
                (
                  ran,
                  deliver-setfreq v m s.daemon.file_descriptors.freq_fd s.driver h.3 fits.1,
                  text,
                )
                refl,
          rw manual (h.0, h.1, refl, h.3, h.4, h.5, h.6, rw h.7 refl),
        )
    | inr auto ↦
        let other : s.daemon.cur_mode ≢ pos 1 = ground arith in
        let (m, buffer, ran, text) =
          setfreq_refused env stale (ready k attribute_of f s.daemon []) v fits.1 other in
        (
          record {
            daemon = record s.daemon {
              outcome_mq_buffer = buffer;
              answers = record s.daemon.answers { opens = f ∷ []; reads = [] };
            };
            driver = s.driver;
            heard = some (codes "AUTO") ∷ s.heard;
          },
          unfold deliver hear in rw (ran, text) refl,
          rw auto (h.0, h.1, h.2, h.3, h.4, h.5, h.6, rw h.7 refl),
        )
  ]
