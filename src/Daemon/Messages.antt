-- ===== src/Daemon/Messages.antt =====
-- The loop of `main` that takes commands from the income queue and answers on the outcome queue.
use csel.Prelude.{
  ℕ, ◌+◌, true, Option, none, some, List, [], ◌∷◌, ◌++◌, length, leb, if◌then◌else◌, take, drop, ℤ,
  pos, eqb_ℤ,
}
use csel.Cstd.{
  Bytes, codes, Outcome, ok, fault, buffer_overflow, str_eq, c_str, format_int, skip_space,
  read_word, scan_int,
}
use csel.Daemon.World.{M, ◌>>=◌, ◌>>◌, pure, get, lift, sent}
use csel.Daemon.Fan.{set_freq, get_freq, get_mode, get_cpu_temp}
use csel.Daemon.Buttons.{apply_mode}

abbrev pub max_mq_size : ℕ
max_mq_size = 100

abbrev pub max_command_size : ℕ
max_command_size = 20

-- The locals that a message is read into. They are not initialised: at each message they hold what was
-- in their memory, which is an argument here.
pub record Locals : Type 0 where
  pub command : Bytes
  pub value : ℤ

abbrev pub or_else : Option ℤ → ℤ → ℤ
or_else none v = v
or_else (some w) v = w

-- sscanf (s, "%s %d", command, &value): with no word nothing is stored; a word and its NUL have to fit
-- into `command`.
abbrev pub store_word : Bytes × Bytes → Locals → Outcome Locals
store_word ([], rest) l = ok l
store_word (c ∷ w, rest) l =
    if leb (length (c ∷ w) + 1) max_command_size
    then ok (record { command = c ∷ w; value = or_else (scan_int (skip_space rest)) l.value })
    else fault buffer_overflow

unfoldable pub scan_command : Bytes → Locals → Outcome Locals
scan_command s l = store_word (read_word (skip_space s)) l

-- sprintf into outcome_mq_buffer, and mq_send of its first MAX_MQ_SIZE bytes: the bytes behind the NUL
-- are those that were there.
unfoldable pub reply : Bytes → M (Unit {0})
reply text d =
    let buffer = text ++ 0 ∷ drop (length text + 1) d.outcome_mq_buffer in
    if leb (length text + 1) (max_mq_size + 1)
    then ok (tt, record d { outcome_mq_buffer = buffer }, sent (take max_mq_size buffer) ∷ [])
    else fault buffer_overflow

abbrev pub request_stop : M (Unit {0})
request_stop d = ok (tt, record d { stop_request = true }, [])

abbrev pub set_cur_mode : ℤ → M (Unit {0})
set_cur_mode v d = ok (tt, record d { cur_mode = v }, [])

abbrev pub handle_setfreq : ℤ → M (Unit {0})
handle_setfreq value = do
  d ← get
  if eqb_ℤ d.cur_mode (pos 1) then (do set_freq value; reply (codes "OK")) else reply (codes "AUTO")

abbrev pub handle_getfreq : M (Unit {0})
handle_getfreq = do freq ← get_freq; reply (format_int freq)

abbrev pub handle_setmode : ℤ → M (Unit {0})
handle_setmode value = do set_cur_mode value; apply_mode

abbrev pub handle_getmode : M (Unit {0})
handle_getmode = do mode ← get_mode; reply (format_int mode)

abbrev pub handle_gettemp : M (Unit {0})
handle_gettemp = do temp ← get_cpu_temp; reply (format_int temp)

unfoldable pub dispatch : Locals → M (Unit {0})
dispatch l =
    if str_eq l.command (codes "stop")
    then request_stop
    else if str_eq l.command (codes "setfreq")
    then handle_setfreq l.value
    else if str_eq l.command (codes "getfreq")
    then handle_getfreq
    else if str_eq l.command (codes "setmode")
    then handle_setmode l.value
    else if str_eq l.command (codes "getmode")
    then handle_getmode
    else if str_eq l.command (codes "gettemp")
    then handle_gettemp
    else pure tt

abbrev pub text_of : Option Bytes → Bytes
text_of none = []
text_of (some s) = s

-- A message of `bytes_read` bytes, `bytes_read` > 0. The queue's messages have at most MAX_MQ_SIZE
-- bytes, so that the NUL that is put behind them lies in the array.
unfoldable pub handle_message : Bytes → Locals → M (Unit {0})
handle_message message stale = do
  l ← lift (scan_command (text_of (c_str (message ++ 0 ∷ []))) stale)
  dispatch l

-- What mq_receive gives: nothing where it fails or the message is empty.
abbrev pub receive : Option (Bytes × Locals) → M (Unit {0})
receive none = pure tt
receive (some (message, stale)) = handle_message message stale

-- `do … while (!stop_request)`, over what the queue delivers: the end of the list is the call of
-- mq_receive that waits for ever.
unfoldable pub serve : List (Option (Bytes × Locals)) → M (Unit {0})
serve [] = pure tt
serve (r ∷ rs) =
    let more = serve rs in do receive r; d ← get; if d.stop_request then pure tt else more
