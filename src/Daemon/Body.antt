-- ===== src/Daemon/Body.antt =====
-- main: the display, the mode, the loop of messages, and the queues. The events thread, which main
-- starts before the loop, is in Events.
use csel.Prelude.{ℕ, ◌+◌, List, [], ◌∷◌, ◌++◌, Option, none, some, ℤ, pos, if◌then◌else◌}
use csel.Cstd.{Bytes, codes, Outcome, ok, and_then}
use csel.Ssd1306.{init}
use csel.Daemon.World.{M, ◌>>=◌, ◌>>◌, lift, display, Daemon, Trace}
use csel.Daemon.Startup.{StartAnswers, StartCall, start_daemon}
use csel.Daemon.Lcd.{lcd_write_header, lcd_write_mode}
use csel.Daemon.Fan.{get_mode}
use csel.Daemon.Messages.{Locals, set_cur_mode, serve}

-- `bus` and `access` are what the open and the ioctl of the display return; its result is not looked at.
abbrev pub init_display : ℤ → ℤ → M (Unit {0})
init_display bus access = lift (init bus access) >>= λ (ret, sent). display (ok sent)

unfoldable pub set_up : ℤ → ℤ → M (Unit {0})
unfolding lcd_write_header
set_up bus access = do
  init_display bus access
  lcd_write_header
  mode ← get_mode
  set_cur_mode mode
  lcd_write_mode mode

-- What mq_open, mq_close and mq_unlink are called on. Their failures are only printed.
pub data QueueCall : Type 0 where
  opened_queue closed_queue unlinked_queue : Bytes → QueueCall

abbrev pub income_queue_name : Bytes
income_queue_name = codes "/fanpwmsetqueue"

abbrev pub outcome_queue_name : Bytes
outcome_queue_name = codes "/fanpwmgetqueue"

abbrev pub open_queues : List QueueCall
open_queues = opened_queue income_queue_name ∷ opened_queue outcome_queue_name ∷ []

-- The calls behind the loop.
abbrev pub cleanup : List QueueCall
cleanup =
    closed_queue income_queue_name
    ∷ unlinked_queue income_queue_name
    ∷ closed_queue outcome_queue_name
    ∷ unlinked_queue outcome_queue_name
    ∷ []

unfoldable pub body : ℤ → ℤ → List (Option (Bytes × Locals)) → M (Unit {0})
unfolding set_up
body bus access messages = set_up bus access >> serve messages

-- A run of the process: its status if it ended, or nothing while it waits for a message, its calls
-- until the body, those of the body, and those on the queues.
pub record Process : Type 0 where
  pub status : Option ℤ
  pub start_calls : List StartCall
  pub calls : Trace
  pub queues : List QueueCall

-- signal_catched, which a signal's handler counts up.
abbrev pub catch_signal : ℕ → ℕ
catch_signal signal_catched = signal_catched + 1

-- From the end of the start on: the process exits, or it is a daemon and runs its body.
unfoldable pub process_of :
    Option ℤ → List StartCall → Outcome (Unit {0} × Daemon × Trace) → Outcome Process
process_of (some s) start_calls run =
    ok (record { status = some s; start_calls = start_calls; calls = []; queues = [] })
process_of none start_calls run = and_then run λ (_, d, t). ok (record {
  status = if d.stop_request then some (pos 0) else none;
  start_calls = start_calls;
  calls = t;
  queues = if d.stop_request then open_queues ++ cleanup else open_queues;
})

unfoldable pub main :
    StartAnswers
    → List Bytes
    → (bus access : ℤ) → List (Option (Bytes × Locals))
    → Daemon
    → Outcome Process
unfolding start_daemon body process_of
main a arguments bus access messages d =
    let (exit, start_calls) = start_daemon a arguments in
    process_of exit start_calls (body bus access messages d)
