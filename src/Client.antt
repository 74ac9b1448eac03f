-- ===== src/Client.antt =====
-- Projet/app_userspace/main.c, the command line that talks to the daemon over two message queues.
use csel.Prelude.{
  ℕ, ◌+◌, ◌&&◌, not, Option, none, some, List, [], ◌∷◌, ◌++◌, length, ltb, if◌then◌else◌, take,
  drop, ℤ, pos, ltb_ℤ,
}
use csel.Cstd.{
  Bytes, codes, Outcome, ok, fault, buffer_overflow, over_read, null_pointer, and_then, str_eq,
  c_str, format_int, scan_int,
}

abbrev pub max_mq_size : ℕ
max_mq_size = 100

-- What the program does outside: a message to the income queue, a line on the terminal.
pub data Action : Type 0 where
  mq_send : Bytes → Action
  printed : Bytes → Action

-- What its memory and its surroundings hold: `send_buffer` and `recv_buffer` and an `int` before they
-- are written, and the messages that mq_receive will give (none where it fails).
pub record Env : Type 0 where
  pub send_buffer : Bytes
  pub recv_buffer : Bytes
  pub garbage : ℤ
  pub replies : List Bytes

abbrev pub Run : Type 0
Run = Outcome (List Action)

-- The MAX_MQ_SIZE bytes of `send_buffer` after sprintf.
abbrev pub message_of : Env → Bytes → Bytes
message_of env text = take max_mq_size (text ++ 0 ∷ drop (length text + 1) env.send_buffer)

-- sprintf into `send_buffer`, and all of it sent.
abbrev pub request : Env → Bytes → List Action
request env text = mq_send (message_of env text) ∷ []

abbrev pub first_reply : List Bytes → Option Bytes
first_reply [] = none
first_reply (r ∷ rs) = some r

abbrev pub terminated_reply : Option Bytes → Outcome Bytes
terminated_reply none = fault over_read
terminated_reply (some s) = ok s

-- mq_receive, and what is done with a message of `bytes_read` > 0 bytes: recv_buffer[bytes_read] = 0
-- has to lie in the array of MAX_MQ_SIZE bytes.
unfoldable pub receive : Env → (Bytes → List Action) → Run
unfolding c_str
receive env use_text = elim (first_reply env.replies) [
  | none ↦ ok []
  | some [] ↦ ok []
  | some (b ∷ bs) ↦
      if ltb (length (b ∷ bs)) max_mq_size
      then and_then
          (terminated_reply (c_str (b ∷ bs ++ 0 ∷ drop (length (b ∷ bs) + 1) env.recv_buffer)))
          (λ text. ok (use_text text))
      else fault buffer_overflow
]

abbrev pub value_of : Env → Bytes → ℤ
value_of env text = elim (scan_int text) [ none ↦ env.garbage | some v ↦ v ]

-- A request whose reply is a number.
abbrev pub ask : Env → Bytes → (ℤ → Bytes) → Run
ask env text say =
    and_then (receive env (λ reply. printed (say (value_of env reply)) ∷ []))
      λ shown. ok (request env text ++ shown)

abbrev pub auto_answer : Bytes → List Action
auto_answer reply =
    if str_eq reply (codes "AUTO")
    then printed (codes "Fan is in auto mode. Cannot set freq.\n") ∷ []
    else []

-- sscanf (argv[2], "%d", …) reads through a null pointer where there is no argument.
abbrev pub argument : Env → List Bytes → Outcome ℤ
argument env [] = fault null_pointer
argument env (a ∷ rest) = ok (value_of env a)

unfoldable pub set_freq_request : Env → List Bytes → Run
unfolding receive
set_freq_request env args = and_then (argument env args) λ freq.
    and_then (receive env auto_answer)
      λ shown. ok (request env (codes "setfreq " ++ format_int freq) ++ shown)

unfoldable pub set_mode_request : Env → List Bytes → Run
set_mode_request env args = and_then (argument env args) λ mode.
    if not (ltb_ℤ mode (pos 0)) && not (ltb_ℤ (pos 1) mode)
    then ok (request env (codes "setmode " ++ format_int mode))
    else ok (printed (codes "Mode can be 0: auto, 1:manual\n") ∷ [])

abbrev pub usage : List Action
usage =
    printed (codes "Please specify option : \n")
    ∷ printed (codes "--set-freq [value], --get-freq\n")
    ∷ printed (codes "--set-mode [0,1], --get-mode\n")
    ∷ printed (codes "--get-temp\n")
    ∷ printed (codes "--stopdaemon\n")
    ∷ []

abbrev pub freq_line : ℤ → Bytes
freq_line v = codes "freq set to " ++ format_int v ++ codes "\n"

abbrev pub mode_line : ℤ → Bytes
mode_line v = codes "mode is set to " ++ format_int v ++ codes "\n"

abbrev pub temp_line : ℤ → Bytes
temp_line v = codes "CPU temp is at " ++ format_int v ++ codes "\n"

-- The option and what follows it.
unfoldable pub run_option : Env → Bytes → List Bytes → Run
unfolding set_freq_request set_mode_request receive str_eq
run_option env option args =
    if str_eq option (codes "--set-freq")
    then set_freq_request env args
    else if str_eq option (codes "--get-freq")
    then ask env (codes "getfreq " ++ format_int (pos 0)) freq_line
    else if str_eq option (codes "--stopdaem")
    then ok (request env (codes "stop " ++ format_int (pos 0)))
    else if str_eq option (codes "--get-mode")
    then ask env (codes "getmode " ++ format_int (pos 0)) mode_line
    else if str_eq option (codes "--set-mode")
    then set_mode_request env args
    else if str_eq option (codes "--get-temp")
    then ask env (codes "gettemp " ++ format_int (pos 0)) temp_line
    else if str_eq option (codes "--help")
    then ok usage
    else ok (printed (codes "Unkown option\n") ∷ [])

-- The arguments behind the program's name.
unfoldable pub main : Env → List Bytes → Run
unfolding run_option
main env [] = ok usage
main env (option ∷ args) = run_option env option args
