-- ===== src/System/Requests.antt =====
-- What the command line sends, as the daemon reads it, and what the daemon answers, as the command line
-- reads it.
use csel.Prelude.{
  suc, ◌+◌, ◌-◌, ◌≤◌, ◌≡◌, refl, false, some, List, [], ◌∷◌, ◌++◌, append-nil, append_assoc, arith,
  length, length-append, take, take-append, length-take, drop, All, All-append, ℤ, IsInt32,
  length-drop, le→leb,
}
use csel.Cstd.{
  Bytes, ok, fault, buffer_overflow, NoNul, c_str, c_str-append, is_space, format_int, skip_space,
  scan_int,
}
use csel.Cstd.Laws.{
  format_int-NoNul, length-format_int_le, skip_space-format, scan_int-format, read_word-append,
}
use csel.Daemon.{Daemon, sent}
use csel.Daemon.Messages.{Locals, scan_command, text_of, reply}
use csel.Client.{Env, Action, receive, message_of}

-- A message of 100 bytes holds its text up to the NUL, whatever lies behind.
pub c_str-message :
    (text rest : Bytes)
    → NoNul text
    → length text ≤ 99
    → c_str (take 100 (text ++ 0 ∷ rest) ++ 0 ∷ []) ≡ some text
c_str-message text rest h fits =
    rw
      (
        take-append 100 (suc (99 - length text)) text (0 ∷ rest) (omega arith),
        append_assoc text (0 ∷ take (99 - length text) rest) (0 ∷ []),
      )
      (c_str-append text _ h)

-- The words that a command can be: no space and no NUL, and room for them in `command`.
abbrev pub IsCommand : Bytes → Type 0
IsCommand w = (1 ≤ length w) × (length w ≤ 19) × NoNul w × All (λ b. is_space b ≡ false) w

skip_space-word : (w t : Bytes) → IsCommand w → skip_space (w ++ t) ≡ w ++ t
unfolding skip_space
skip_space-word [] t h = absurd (omega arith)
skip_space-word (c ∷ w) t h = ground arith

scan_number : (v : ℤ) → IsInt32 v → scan_int (skip_space (b' ' ∷ format_int v)) ≡ some v
unfolding skip_space
scan_number v fits =
    cc (append-nil (format_int v), skip_space-format v [], scan_int-format v [] fits tt)

scan_command-text :
    (w : Bytes) (v : ℤ) (stale : Locals)
    → IsCommand w
    → IsInt32 v
    → scan_command (w ++ b' ' ∷ format_int v) stale ≡ ok (record { command = w; value = v })
unfolding scan_command
scan_command-text [] v stale h fits = absurd (omega arith)
scan_command-text (c ∷ w) v stale h fits =
    rw
      (
        skip_space-word (c ∷ w) _ h,
        read_word-append (c ∷ w) (format_int v) b' ' h.3 refl,
        scan_number v fits,
      )
      (ground arith)

-- A request that the client builds from a word of 1 to 19 characters without spaces and NULs and
-- from an int is read by the daemon as this word and this number, whatever was in the client's
-- buffer and in the daemon's locals before.
pub scan_command-message :
    (env : Env) (w : Bytes) (v : ℤ) (stale : Locals)
    → IsCommand w
    → IsInt32 v
    → scan_command (text_of (c_str (message_of env (w ++ b' ' ∷ format_int v) ++ 0 ∷ []))) stale
      ≡ ok (record { command = w; value = v })
scan_command-message env w v stale h fits =
    let text = w ++ b' ' ∷ format_int v in
    rw
      (c_str-message text (drop (length text + 1) env.send_buffer)
        (All-append _ w _ h.2 (omega arith, format_int-NoNul v))
        (omega (arith, length-append w (b' ' ∷ format_int v), length-format_int_le v fits)))
      (scan_command-text w v stale h fits)

receive_long :
    (env : Env) (m : Bytes) (use_text : Bytes → List Action)
    → 100 ≤ length m
    → receive (record env { replies = m ∷ env.replies }) use_text ≡ fault buffer_overflow
unfolding receive
receive_long env [] use_text h = absurd (omega arith)
receive_long env (b ∷ bs) use_text h = ground arith

-- Where the daemon's buffer has its 101 bytes, an answer of at most 100 characters is sent and
-- keeps the buffer's size, and a client that receives the message sent writes a NUL outside its
-- array of 100 bytes.
pub reply_overflows_client :
    (text : Bytes) (d : Daemon) (env : Env) (use_text : Bytes → List Action)
    → length text ≤ 100
    → length d.outcome_mq_buffer ≡ 101
    → (m : Bytes) × (d' : Daemon) × (reply text d ≡ ok (tt, d', sent m ∷ []))
      × (length d'.outcome_mq_buffer ≡ 101)
      × (receive (record env { replies = m ∷ env.replies }) use_text ≡ fault buffer_overflow)
unfolding reply
reply_overflows_client text d env use_text fits full =
    let buffer = text ++ 0 ∷ drop (length text + 1) d.outcome_mq_buffer in
    let filled : length buffer ≡ 101 = omega (
      arith,
      length-append text (0 ∷ drop (length text + 1) d.outcome_mq_buffer),
      length-drop (length text + 1) d.outcome_mq_buffer,
    ) in
    (
      take 100 buffer,
      record d { outcome_mq_buffer = buffer },
      rw (le→leb (length text + 1) 101 (omega arith)),
      filled,
      receive_long env (take 100 buffer) use_text (omega (arith, length-take 100 buffer)),
    )
