-- ===== src/System/Replies.antt =====
-- What the daemon does with the client's requests, and what it answers.
use csel.Prelude.{
  ◌+◌, ◌≤◌, ◌≡◌, ◌≢◌, refl, true, false, List, [], ◌∷◌, ◌++◌, Option, some, ℤ, pos, negsuc, ◌≤ℤ◌,
  IsInt32, take, drop, length, arith, eqb_ℤ,
}
use csel.Cstd.{Bytes, codes, ok, c_str, NoNul, format_int, str_eq}
use csel.Cstd.Laws.{format_int-NoNul, length-format_int_le}
use csel.Daemon.Fan.{get_freq}
use csel.Client.{Env, message_of}
use csel.Daemon.{Daemon, sent, pwrote_at_0}
use csel.Daemon.Fan.Numbers.{set_freq_lem}
use csel.Daemon.Messages.{Locals, reply, handle_message, serve, dispatch}
use csel.System.Requests.{IsCommand, c_str-message, scan_command-message}

-- The request of a command and a number, as the client sends it.
abbrev pub request_for : Env → Bytes → ℤ → Bytes
request_for env w v = message_of env (w ++ b' ' ∷ format_int v)

reply_text :
    (text : Bytes) (d : Daemon)
    → NoNul text
    → length text ≤ 99
    → (m : Bytes) × (buffer : Bytes) × (reply text d
        ≡ ok (tt, record d { outcome_mq_buffer = buffer }, sent m ∷ []))
      × (c_str (m ++ 0 ∷ []) ≡ some text)
unfolding reply
reply_text text d h fits =
    let rest = drop (length text + 1) d.outcome_mq_buffer in
    (take 100 (text ++ 0 ∷ rest), text ++ 0 ∷ rest, ground arith, c_str-message text rest h fits)

getfreq-IsCommand : IsCommand (codes "getfreq")
getfreq-IsCommand = ground arith

setfreq-IsCommand : IsCommand (codes "setfreq")
setfreq-IsCommand = ground arith

stop-IsCommand : IsCommand (codes "stop")
stop-IsCommand = ground arith

zero-IsInt32 : IsInt32 (pos 0)
zero-IsInt32 = omega arith

-- The client's request to stop ends the loop of `main`, whatever else is in the queue: nothing of
-- it is handled, no system call is made, and the daemon is asked to stop.
pub stop_ends_serve :
    (env : Env) (stale : Locals) (rs : List (Option (Bytes × Locals))) (d : Daemon)
    → serve (some (request_for env (codes "stop") (pos 0), stale) ∷ rs) d
      ≡ ok (tt, record d { stop_request = true }, [])
unfolding serve handle_message dispatch str_eq
stop_ends_serve env stale rs d =
    rw (scan_command-message env (codes "stop") (pos 0) stale stop-IsCommand zero-IsInt32) refl

-- Where the daemon's frequency is an int, the client's request for it makes the daemon send an
-- answer that reads as this frequency in decimal, and nothing else; apart from the buffer of the
-- answer its state stays as it was.
pub getfreq_answers :
    (env : Env) (stale : Locals) (d : Daemon)
    → IsInt32 d.cur_freq
    → (m : Bytes) × (buffer : Bytes) × (handle_message
          (request_for env (codes "getfreq") (pos 0))
          stale
          d
        ≡ ok (tt, record d { outcome_mq_buffer = buffer }, sent m ∷ []))
      × (c_str (m ++ 0 ∷ []) ≡ some (format_int d.cur_freq))
unfolding handle_message dispatch str_eq get_freq
getfreq_answers env stale d fits =
    let (m, buffer, replied, text) =
      reply_text (format_int d.cur_freq) d (format_int-NoNul d.cur_freq)
        (let l = length-format_int_le d.cur_freq fits in omega arith) in
    (
      m,
      buffer,
      rw
          (
            scan_command-message env (codes "getfreq") (pos 0) stale getfreq-IsCommand zero-IsInt32,
            replied,
          )
          refl,
      text,
    )

-- In a mode other than 1, the client's request to set the frequency to an int makes the daemon
-- send an answer that reads "AUTO", and nothing else; apart from the buffer of the answer its
-- state stays as it was.
pub setfreq_refused :
    (env : Env) (stale : Locals) (d : Daemon) (v : ℤ)
    → IsInt32 v
    → d.cur_mode ≢ pos 1
    → (m : Bytes) × (buffer : Bytes) × (handle_message (request_for env (codes "setfreq") v) stale d
        ≡ ok (tt, record d { outcome_mq_buffer = buffer }, sent m ∷ []))
      × (c_str (m ++ 0 ∷ []) ≡ some (codes "AUTO"))
unfolding handle_message dispatch str_eq
setfreq_refused env stale d v fits auto =
    let (m, buffer, replied, text) = reply_text (codes "AUTO") d (ground arith) (omega arith) in
    let other : eqb_ℤ d.cur_mode (pos 1) ≡ false = ground (arith, auto) in
    (
      m,
      buffer,
      rw (scan_command-message env (codes "setfreq") v stale setfreq-IsCommand fits, other, replied)
          refl,
      text,
    )

-- In manual mode, the client's request to set the frequency to an int from -999999999 on makes
-- the daemon write the int in decimal to the module's attribute and send an answer that reads
-- "OK"; apart from the buffer of the answer its state stays as it was.
pub setfreq_sets :
    (env : Env) (stale : Locals) (d : Daemon) (v : ℤ)
    → negsuc 999999998 ≤ℤ v
    → IsInt32 v
    → d.cur_mode ≡ pos 1
    → (m : Bytes) × (buffer : Bytes) × (handle_message (request_for env (codes "setfreq") v) stale d
        ≡ ok (
          tt,
          record d { outcome_mq_buffer = buffer },
          pwrote_at_0 d.file_descriptors.freq_fd (format_int v) ∷ sent m ∷ [],
        ))
      × (c_str (m ++ 0 ∷ []) ≡ some (codes "OK"))
unfolding handle_message dispatch str_eq
setfreq_sets env stale d v low fits manual =
    let (m, buffer, replied, text) = reply_text (codes "OK") d (ground arith) (omega arith) in
    let same : eqb_ℤ d.cur_mode (pos 1) ≡ true = ground (arith, manual) in
    (
      m,
      buffer,
      rw
          (
            scan_command-message env (codes "setfreq") v stale setfreq-IsCommand fits,
            same,
            set_freq_lem v d low fits,
            replied,
          )
          refl,
      text,
    )
