-- ===== src/System/Controller.antt =====
-- The whole as a controller of the fan: what the user does with the button and the client, and the mode and
-- the frequency that it comes to in the daemon and in the module.
pub mod Simulation
pub mod Requests
pub mod Steps
pub mod Refinement
use csel.Prelude.{
  zero, suc, Option, List, [], ◌∷◌, ◌++◌, ℤ, pos, negsuc, ◌≤ℤ◌, IsInt32, eqb_ℤ, if◌then◌else◌,
}
use csel.Cstd.{Bytes, codes, Outcome, ok, and_then, c_str, format_int}
use csel.FanPwm.{Kernel, Driver, freq_show}
use csel.Client.{Env}
use csel.Daemon.{M, Daemon, Trace, sent}
use csel.Daemon.Buttons.{k1_handler, k2_handler, k3_action}
use csel.Daemon.Buttons.Steps.{step_up, step_down}
use csel.Daemon.Fan.{freq_handler}
use csel.Daemon.Messages.{Locals, handle_message}
use csel.System.Control.{Attribute, deliver}
use csel.System.Replies.{request_for}

-- Presses of the buttons, the daemon's look at the module's frequency, and the client's requests, with the
-- client's buffers and the daemon's locals as they happen to be.
pub data Act : Type 0 where
  presses_k1 presses_k2 presses_k3 : Act
  looks : Act
  asks_setmode : Env → Locals → ℤ → Act
  asks_setfreq : Env → Locals → ℤ → Act
  asks_getfreq : Env → Locals → Act

-- What a user knows of the fan; `seen` is the frequency at the last look, `heard` the answers to the client's
-- requests, the latest first.
pub record Fan : Type 0 where
  pub heard : List Bytes
  pub mode : ℤ
  pub freq : ℤ
  pub seen : ℤ

-- The frequency that a button steps to from the one that was seen, which is not negative.
abbrev pub up_from : ℤ → ℤ
up_from (pos n) = pos (step_up n)
up_from (negsuc n) = negsuc n

abbrev pub down_from : ℤ → ℤ → ℤ
down_from (pos zero) freq = freq
down_from (pos (suc n)) freq = pos (step_down (suc n))
down_from (negsuc n) freq = freq

abbrev pub fan_after : Act → Fan → Fan
fan_after presses_k3 c = record c { mode = if eqb_ℤ c.mode (pos 0) then pos 1 else pos 0 }
fan_after (asks_setmode env stale v) c = record c { mode = v }
fan_after (asks_setfreq env stale v) c =
    if eqb_ℤ c.mode (pos 1)
    then record c { freq = v; heard = codes "OK" ∷ c.heard }
    else record c { heard = codes "AUTO" ∷ c.heard }
fan_after (asks_getfreq env stale) c = record c { heard = format_int c.seen ∷ c.heard }
fan_after presses_k1 c = if eqb_ℤ c.mode (pos 1) then record c { freq = up_from c.seen } else c
fan_after presses_k2 c =
    if eqb_ℤ c.mode (pos 1) then record c { freq = down_from c.seen c.freq } else c
fan_after looks c = record c { seen = c.freq }

-- The numbers that the daemon can print into its arrays.
abbrev pub IsShort : ℤ → Type 0
IsShort v = (negsuc 999999998 ≤ℤ v) × IsInt32 v

-- The step by K1 stays in int, and the display has room for a frequency that is looked at.
abbrev pub IsAllowed : Act → Fan → Type 0
IsAllowed presses_k1 c = (pos 0 ≤ℤ c.seen) × (c.seen ≤ℤ pos 2147483597)
IsAllowed presses_k2 c = (pos 0 ≤ℤ c.seen) × (c.seen ≤ℤ pos 2147483647)
IsAllowed presses_k3 c = Unit
IsAllowed looks c = (negsuc 98 ≤ℤ c.freq) × (c.freq ≤ℤ pos 999)
IsAllowed (asks_setmode env stale v) c = IsShort v
IsAllowed (asks_setfreq env stale v) c = IsShort v
IsAllowed (asks_getfreq env stale) c = Unit

-- Each act is allowed when it comes.
abbrev pub AllAllowed : List Act → Fan → Type 0
AllAllowed [] c = Unit
AllAllowed (act ∷ acts) c = IsAllowed act c × AllAllowed acts (fan_after act c)

-- The daemon and the module, and the strings that were sent to the client, the latest first.
pub record Machine : Type 0 where
  pub heard : List (Option Bytes)
  pub daemon : Daemon
  pub driver : Driver

-- What the daemon runs.
abbrev pub handler : Act → M (Unit {0})
handler presses_k1 = λ d. k1_handler d.file_descriptors d
handler presses_k2 = λ d. k2_handler d.file_descriptors d
handler looks = λ d. freq_handler d.file_descriptors d
handler presses_k3 = λ d. k3_action d.file_descriptors d
handler (asks_setmode env stale v) = handle_message (request_for env (codes "setmode") v) stale
handler (asks_setfreq env stale v) = handle_message (request_for env (codes "setfreq") v) stale
handler (asks_getfreq env stale) = handle_message (request_for env (codes "getfreq") (pos 0)) stale

-- What the daemon reads then: the pin of the button, or the module's line.
abbrev pub line_of : Kernel → Outcome (ℤ × Bytes) → Outcome (List Bytes)
line_of k shown = and_then shown λ page. ok (k.sysfs_read page ∷ [])

abbrev pub readings : Kernel → Act → Driver → Outcome (List Bytes)
readings k presses_k1 drv = ok ((b'1' ∷ []) ∷ [])
readings k presses_k2 drv = ok ((b'1' ∷ []) ∷ [])
readings k looks drv = line_of k (freq_show drv)
readings k act drv = ok []

-- The strings that a trace sends, in front of those sent before.
unfoldable pub hear : Trace → List (Option Bytes) → List (Option Bytes)
hear [] heard = heard
hear (sent m ∷ t) heard = hear t (c_str (m ++ 0 ∷ []) ∷ heard)
hear (_ ∷ t) heard = hear t heard

module _ (k : Kernel) (attribute_of : ℤ → Option Attribute) (f : ℤ) where
  -- The daemon when the mode's file opens as `f`, and these are read.
  abbrev pub ready : Daemon → List Bytes → Daemon
  ready d reads = record d { answers = record d.answers { opens = f ∷ []; reads = reads } }

  -- The daemon's run, and its writes in the module.
  abbrev pub machine_after : Act → Machine → Outcome Machine
  machine_after act s = and_then (readings k act s.driver) λ reads.
      and_then (handler act (ready s.daemon reads)) λ (_, d', t).
        ok (record {
          daemon = d';
          driver = deliver k attribute_of t s.driver;
          heard = hear t s.heard;
        })

  unfoldable pub run_machine : List Act → Machine → Outcome Machine
  run_machine [] s = ok s
  run_machine (act ∷ acts) s = and_then (machine_after act s) (run_machine acts)

unfoldable pub run_fan : List Act → Fan → Fan
run_fan [] c = c
run_fan (act ∷ acts) c = run_fan acts (fan_after act c)
