-- ===== src/Daemon/Startup/Exits.antt =====
-- When the process that starts exits, with which status, and what it has closed when it does not.
use csel.Prelude.{
  Option-cases, ap, sym, append_assoc, ℕ, zero, suc, ◌≤◌, ◌≡◌, ◌≢◌, ◌↔◌, ◌⊎◌, inl, inr, List, [],
  ◌∷◌, ◌++◌, none, some, ℤ, pos, negsuc, Bool, true, false, ◌||◌, ◌==◌, arith,
}
use csel.Cstd.{codes}
use csel.Daemon.Startup.{
  StartAnswers, StartCall, fork_process, signals, close_down, close_from, daemonize, closed_fd,
  forked, made_session, handles_signal, masked, changed_directory, opened_null, duplicated,
  opened_log, looked_up_user, changed_root, set_group, set_user,
}

-- The answers on which the child of both forks runs to the end of the steps.
abbrev pub AllGood : StartAnswers → Type 0
AllGood a =
    (a.first_fork ≡ pos 0)
    × (a.new_session ≢ negsuc 0)
    × (a.second_fork ≡ pos 0)
    × (a.directory ≢ negsuc 0)
    × (a.null_fd ≡ pos 0)
    × (a.stdout_fd ≡ pos 1)
    × (a.stderr_fd ≡ pos 2)
    × (a.passwd ≢ none)
    × (a.root ≢ negsuc 0)
    × (a.group ≢ negsuc 0)
    × (a.user ≢ negsuc 0)

-- The steps that make the process a daemon go on to its body exactly if both forks return 0, the
-- session, the directory, the root, the group and the user could be set, the three standard
-- descriptors are 0, 1 and 2, and the user "daemon" was found.
pub daemonize_runs : (a : StartAnswers) → ((daemonize a).0 ≡ none) ↔ AllGood a
unfolding daemonize fork_process
daemonize_runs a = ground arith

-- What fork returns in the process that has made a child.
abbrev pub IsParent : ℤ → Type 0
IsParent pid = (pid ≢ pos 0) × (pid ≢ negsuc 0)

-- The steps that make the process a daemon go on, or exit with 0 or 1. They exit with 0 exactly
-- in the parent of a fork: if the first fork returns neither 0 nor -1, or if it returns 0, the
-- session could be made, and the second returns neither 0 nor -1.
pub daemonize_status :
    (a : StartAnswers)
    → (((daemonize a).0 ≡ some (pos 0)) ↔ (
        IsParent a.first_fork
        ⊎ ((a.first_fork ≡ pos 0) × (a.new_session ≢ negsuc 0) × IsParent a.second_fork)))
      × (((daemonize a).0 ≡ none)
          ⊎ ((daemonize a).0 ≡ some (pos 0))
          ⊎ ((daemonize a).0 ≡ some (pos 1)))
unfolding daemonize fork_process
daemonize_status a = ground arith

unfoldable pub closes : ℕ → List StartCall → Bool
closes fd [] = false
closes fd (closed_fd n ∷ t) = n == fd || closes fd t
closes fd (_ ∷ t) = closes fd t

closes-close_down : (n fd : ℕ) → fd ≤ n → closes fd (close_down n) ≡ true
unfolding closes close_down
closes-close_down zero fd h = ground arith
closes-close_down (suc n) fd h = ground (arith, closes-close_down n fd)

closes-append : (fd : ℕ) (t u : List StartCall) → closes fd t ≡ true → closes fd (t ++ u) ≡ true
unfolding closes
closes-append fd [] u h = absurd cc
closes-append fd (closed_fd n ∷ t) u h = ground (arith, closes-append fd t u)
closes-append fd (forked ∷ t) u h = closes-append fd t u h
closes-append fd (made_session ∷ t) u h = closes-append fd t u h
closes-append fd (handles_signal s ∷ t) u h = closes-append fd t u h
closes-append fd (masked m ∷ t) u h = closes-append fd t u h
closes-append fd (changed_directory p ∷ t) u h = closes-append fd t u h
closes-append fd (opened_null ∷ t) u h = closes-append fd t u h
closes-append fd (duplicated o n ∷ t) u h = closes-append fd t u h
closes-append fd (opened_log ∷ t) u h = closes-append fd t u h
closes-append fd (looked_up_user ∷ t) u h = closes-append fd t u h
closes-append fd (changed_root p ∷ t) u h = closes-append fd t u h
closes-append fd (set_group g ∷ t) u h = closes-append fd t u h
closes-append fd (set_user g ∷ t) u h = closes-append fd t u h

-- The calls behind the closing of the descriptors, up to the last two.
abbrev redirections : List StartCall
redirections =
    opened_null
    ∷ duplicated 0 1
    ∷ duplicated 0 2
    ∷ opened_log
    ∷ looked_up_user
    ∷ changed_root (codes ".")
    ∷ []

abbrev preparations : List StartCall
preparations =
    forked ∷ made_session ∷ forked ∷ signals ++ masked 23 ∷ changed_directory (codes "/") ∷ []

daemonize_calls :
    (a : StartAnswers) (uid gid : ℤ)
    → (daemonize a).0 ≡ none
    → a.passwd ≡ some (uid, gid)
    → (daemonize a).1
      ≡ preparations
        ++ (close_from a.open_max ++ (redirections ++ set_group gid ∷ set_user uid ∷ []))
unfolding daemonize fork_process
daemonize_calls a uid gid runs e = ground arith

-- When the steps that make the process a daemon go on to its body, and n is the system's number
-- of descriptors, then each descriptor up to n was closed, the user "daemon" was found, and the
-- last two calls set first its group and then its user.
pub runs_as_daemon :
    (a : StartAnswers) (n fd : ℕ)
    → (daemonize a).0 ≡ none
    → a.open_max ≡ pos n
    → fd ≤ n
    → (uid : ℤ) × (gid : ℤ) × (t : List StartCall) × (a.passwd ≡ some (uid, gid))
      × ((daemonize a).1 ≡ t ++ set_group gid ∷ set_user uid ∷ [])
      × (closes fd t ≡ true)
unfolding closes
runs_as_daemon a n fd runs top below = elim (Option-cases a.passwd) [
  | inl missing ↦ absurd (((daemonize_runs a).0 runs).7 missing)
  | inr ((uid, gid), found) ↦ (
    uid,
    gid,
    preparations ++ (close_down n ++ redirections),
    found,
    rw (daemonize_calls a uid gid runs found, top)
        (ap (λ t. preparations ++ t) (sym (append_assoc (close_down n) redirections _))),
    closes-append fd (close_down n) redirections (closes-close_down n fd below),
  )
]
