-- ===== src/SocketPair.antt =====
-- environment/Ex_process_socket/main.c: a child that sends five messages through a pair of sockets, and its
-- parent, which reads until it has found "exit".
pub mod Ending
use csel.Prelude.{
  ℕ, zero, suc, ◌+◌, ◌-◌, List, [], ◌∷◌, ◌++◌, Bool, true, false, ◌&&◌, ◌||◌, ◌==◌, ltb_ℤ,
  if◌then◌else◌, length, take, drop, Option, none, some, ℤ, pos, negsuc, eqb_ℤ,
}
use csel.Cstd.{Bytes, codes, Outcome, ok, fault, and_then, over_read, c_str}

-- NBSEND
abbrev pub nbsend : ℕ
nbsend = 5

abbrev pub exit_message : Bytes
exit_message = codes "exit" ++ 0 ∷ []

abbrev pub hello : Bytes
hello = codes "I am a child" ++ 0 ∷ []

-- What the child writes in the round `i`, and in its `rounds` rounds from `i` on.
abbrev pub message : ℕ → Bytes
message i = if i == nbsend - 1 then exit_message else hello

unfoldable pub child_sends : (rounds i : ℕ) → List Bytes
child_sends zero i = []
child_sends (suc rounds) i = message i ∷ child_sends rounds (i + 1)

unfoldable pub child : List Bytes
unfolding child_sends
child = child_sends nbsend 0

unfoldable pub starts_with : Bytes → Bytes → Bool
starts_with [] s = true
starts_with (x ∷ xs) [] = false
starts_with (x ∷ xs) (c ∷ s) = x == c && starts_with xs s

-- Whether strstr finds the text in a string.
unfoldable pub has_text : Bytes → Bytes → Bool
unfolding starts_with
has_text text [] = starts_with text []
has_text text (c ∷ s) = starts_with text (c ∷ s) || has_text text s

-- What a read answers: the bytes that it got, none at the end of the stream, or -1.
pub data Read : Type 0 where
  received : Bytes → Read
  failed : Read

abbrev pub read_into : Bytes → Read → Bytes
read_into buf (received bytes) = bytes ++ drop (length bytes) buf
read_into buf failed = buf

-- The string that an array holds, and the first bytes of one, up to its NUL.
abbrev pub string_in : Bytes → Outcome Bytes
string_in buf = elim (c_str buf) [ none ↦ fault over_read | some s ↦ ok s ]

unfoldable pub up_to_nul : Bytes → Bytes
up_to_nul [] = []
up_to_nul (c ∷ s) = if c == 0 then [] else c ∷ up_to_nul s

-- What "%.*s" prints of `buf`: a negative precision is as if there were none.
abbrev pub shown : Read → Bytes → Outcome Bytes
shown (received bytes) buf = ok (up_to_nul (take (length bytes) buf))
shown failed buf = string_in buf

-- One round of the parent: the text that it prints, its buffer, and whether it ends.
unfoldable pub receive : Read → Bytes → Outcome (Bytes × Bytes × Bool)
unfolding has_text up_to_nul c_str
receive r old =
    let buf = read_into old r in
    and_then (shown r buf)
      λ line. and_then (string_in buf) λ s. ok (line, buf, has_text (codes "exit") s)

-- The parent's loop on what its reads answer: whether it has ended, and the texts that it has printed.
-- A loop that has not ended waits for the next read.
unfoldable pub parent : List Read → Bytes → Outcome (Bool × List Bytes)
unfolding receive
parent [] buf = ok (false, [])
parent (r ∷ rs) buf = and_then (receive r buf) λ (line, buf', end).
    if end
    then ok (true, line ∷ [])
    else and_then (parent rs buf') (λ (ended, lines). ok (ended, line ∷ lines))

-- Ctrl-C ends the process, with a status of 0; main installs this for every signal below SIGRTMAX.
abbrev pub catch_signal : ℕ → Option ℤ
catch_signal signo = if signo == 2 then some (pos 0) else none

unfoldable pub catches : (rounds i : ℕ) → List ℕ
catches zero i = []
catches (suc rounds) i = i ∷ catches rounds (i + 1)

-- What main gets from the kernel.
pub record Answers : Type 0 where
  pub socketpair : ℤ
  pub fork : ℤ
  pub affinity : ℤ

-- What the process becomes: it exits, or runs one of the two loops on one of the two descriptors, having
-- closed the other.
pub data Role : Type 0 where
  exits : ℤ → Role
  as_child : (core closed used : ℕ) → Role
  as_parent : (core closed used : ℕ) → Role

abbrev pub pinned : ℤ → Role → Role
pinned affinity role = if eqb_ℤ affinity (negsuc 0) then exits (pos 1) else role

unfoldable pub main : Answers → Role
main a =
    if ltb_ℤ a.socketpair (pos 0)
    then exits (pos 1)
    else if eqb_ℤ a.fork (pos 0)
    then pinned a.affinity (as_child 0 0 1)
    else if ltb_ℤ (pos 0) a.fork
    then pinned a.affinity (as_parent 1 1 0)
    else exits (pos 0)
