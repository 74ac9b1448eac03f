-- ===== src/Daemon/Startup.antt =====
-- main of the daemon up to its body: the steps that turn the process into a daemon, and their exits.
pub mod Exits
use csel.Prelude.{
  ℕ, zero, suc, List, [], ◌∷◌, ◌++◌, Option, none, some, ℤ, pos, negsuc, eqb_ℤ, Bool, not,
  if◌then◌else◌,
}
use csel.Cstd.{Bytes, codes, str_eq}

-- What the system calls answer. `passwd` is the entry of the user "daemon", its user and group.
pub record StartAnswers : Type 0 where
  pub first_fork : ℤ
  pub new_session : ℤ
  pub second_fork : ℤ
  pub directory : ℤ
  pub open_max : ℤ
  pub null_fd : ℤ
  pub stdout_fd : ℤ
  pub stderr_fd : ℤ
  pub passwd : Option (ℤ × ℤ)
  pub root : ℤ
  pub group : ℤ
  pub user : ℤ

-- The calls that are made, without the messages of the log.
pub data StartCall : Type 0 where
  forked made_session : StartCall
  handles_signal : Bytes → StartCall
  masked : ℕ → StartCall
  changed_directory : Bytes → StartCall
  closed_fd : ℕ → StartCall
  opened_null : StartCall
  duplicated : (old new : ℕ) → StartCall
  opened_log looked_up_user : StartCall
  changed_root : Bytes → StartCall
  set_group set_user : ℤ → StartCall

-- The status if the process exits, and the calls until then.
abbrev pub Start : Type 0
Start = Option ℤ × List StartCall

infixr 40 ◌and_then◌
abbrev pub ◌and_then◌ : Start → Start → Start
(none, t) and_then (status, u) = (status, t ++ u)
(some s, t) and_then m = (some s, t)

abbrev pub does : List StartCall → Start
does calls = (none, calls)

-- A call that ends the process with a status of 1 if it failed.
abbrev pub attempt : StartCall → Bool → Start
attempt c failed = (if failed then some (pos 1) else none, c ∷ [])

unfoldable pub fork_process : ℤ → Start
fork_process pid = (
  if eqb_ℤ pid (pos 0) then none else if eqb_ℤ pid (negsuc 0) then some (pos 1) else some (pos 0),
  forked ∷ [],
)

abbrev pub signals : List StartCall
signals =
    handles_signal (codes "SIGHUP")
    ∷ handles_signal (codes "SIGINT")
    ∷ handles_signal (codes "SIGQUIT")
    ∷ handles_signal (codes "SIGABRT")
    ∷ handles_signal (codes "SIGTERM")
    ∷ handles_signal (codes "SIGTSTP")
    ∷ []

-- for (fd = n; fd >= 0; fd--) close (fd)
unfoldable pub close_down : ℕ → List StartCall
close_down zero = closed_fd 0 ∷ []
close_down (suc n) = closed_fd (suc n) ∷ close_down n

abbrev pub close_from : ℤ → List StartCall
close_from (pos n) = close_down n
close_from (negsuc n) = []

abbrev pub take_user : StartAnswers → Option (ℤ × ℤ) → Start
take_user a none = (some (pos 1), looked_up_user ∷ [])
take_user a (some (uid, gid)) =
    does (looked_up_user ∷ [])
    and_then attempt (changed_root (codes ".")) (eqb_ℤ a.root (negsuc 0))
    and_then attempt (set_group gid) (eqb_ℤ a.group (negsuc 0))
    and_then attempt (set_user uid) (eqb_ℤ a.user (negsuc 0))

-- The steps 4 to 12 of main.
abbrev pub settle : StartAnswers → Start
settle a =
    does (signals ++ masked 23 ∷ [])
    and_then attempt (changed_directory (codes "/")) (eqb_ℤ a.directory (negsuc 0))
    and_then does (close_from a.open_max)
    and_then attempt opened_null (not (eqb_ℤ a.null_fd (pos 0)))
    and_then attempt (duplicated 0 1) (not (eqb_ℤ a.stdout_fd (pos 1)))
    and_then attempt (duplicated 0 2) (not (eqb_ℤ a.stderr_fd (pos 2)))
    and_then does (opened_log ∷ [])
    and_then take_user a a.passwd

-- The steps 1 to 12 of main.
unfoldable pub daemonize : StartAnswers → Start
unfolding fork_process close_down
daemonize a =
    fork_process a.first_fork
    and_then attempt made_session (eqb_ℤ a.new_session (negsuc 0))
    and_then fork_process a.second_fork
    and_then settle a

-- The arguments behind the program's name; the process stays as it is without "-d".
unfoldable pub start_daemon : StartAnswers → List Bytes → Start
unfolding daemonize
start_daemon a (flag ∷ []) = if str_eq flag (codes "-d") then daemonize a else does []
start_daemon a [] = does []
start_daemon a (x ∷ y ∷ rest) = does []
