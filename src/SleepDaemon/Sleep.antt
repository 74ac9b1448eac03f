-- ===== src/SleepDaemon/Sleep.antt =====
-- The sleep lasts 30 seconds, whatever signals come.
use csel.Prelude.{
  ℕ, zero, suc, ◌+◌, ◌-◌, ◌^◌, ◌≤◌, ◌<◌, ◌≡◌, refl, ap, none, some, List, [], ◌∷◌, ltb, pos, arith,
  inl, inr, Bool-cases, if◌then◌else◌,
}
use csel.Cstd.{ok}
use csel.Daemon.Startup.{StartAnswers, Start, settle, daemonize, fork_process, forked, made_session}
use csel.SleepDaemon.{
  Slept, End, catch_signal, catch_signals, sleeps, body, behind, end_of, daemon_main, process_main,
}

-- The seconds that the loop has slept on these answers, and the signals that it has counted.
unfoldable pub seconds : ℕ → List Slept → ℕ
seconds t [] = 0
seconds t (a ∷ as') =
    let more = seconds a.left as' in (t - a.left) + (if ltb 0 a.left then more else 0)

unfoldable pub signals : List Slept → ℕ
signals [] = 0
signals (a ∷ as') = let more = signals as' in a.signals + (if ltb 0 a.left then more else 0)

-- sleep answers at most what it was asked for.
abbrev pub IsDocumented : ℕ → List Slept → Type 0
IsDocumented t [] = Unit
IsDocumented t (a ∷ as') = (a.left ≤ t) × IsDocumented a.left as'

catch_signals_lem : (n c : ℕ) → n + c < 2 ^ 31 → catch_signals n (pos c) ≡ ok (pos (n + c))
unfolding catch_signals
catch_signals_lem zero c h = ground arith
catch_signals_lem (suc n) c h =
    let one : catch_signal (pos c) ≡ ok (pos (c + 1)) = ground arith in
    let rest = catch_signals_lem n (c + 1) (omega arith) in
    let same : n + (c + 1) ≡ suc n + c = omega arith in rw (one, rest, same) refl

sleeps_lem :
    (as' : List Slept) (t c : ℕ)
    → IsDocumented t as'
    → signals as' + c < 2 ^ 31
    → (r : ℕ) × (sleeps t as' (pos c) ≡ ok (r, pos (signals as' + c))) × (seconds t as' + r ≡ t)
unfolding sleeps seconds signals
sleeps_lem [] t c h fits = (t, ground arith, omega arith)
sleeps_lem (a ∷ as') t c h fits =
    let caught = catch_signals_lem a.signals c (ground arith) in
    elim (Bool-cases (ltb 0 a.left)) [
      | inl goes_on ↦
          let (r, runs, sum) = sleeps_lem as' a.left (a.signals + c) h.1 (ground arith) in
          let same : signals as' + (a.signals + c) ≡ a.signals + signals as' + c = omega arith in
          (r, rw (caught, goes_on, runs, same) refl, rw goes_on (omega arith))
      | inr ends ↦
          let same : a.signals + c ≡ a.signals + 0 + c = omega arith in
          (0, rw (caught, ends) (ap (λ n. ok (0, pos n)) same), rw ends (ground arith))
    ]

prefix_calls :
    (a : StartAnswers)
    → (daemonize a).0 ≡ none
    → ((settle a).0 ≡ none) × ((daemonize a).1 ≡ forked ∷ made_session ∷ forked ∷ (settle a).1)
unfolding daemonize fork_process
prefix_calls a runs = ground arith

behind-none :
    (m : Start) (as' : List Slept) (e : End)
    → m.0 ≡ none
    → body as' ≡ ok e
    → behind m as' ≡ ok (e, m.1)
behind-none (none, calls) as' e runs at_end = rw at_end refl
behind-none (some status, calls) as' e runs at_end = absurd cc

-- Where the steps of the start go on to the body, each sleep answers at most what it was asked
-- for, and fewer than 2 ^ 31 signals come: what the two programs have slept and what they still
-- have to sleep is 30 seconds together, however often signals woke them; they stop when nothing
-- is left, with the number of the signals that came; and the process makes the daemon's calls but
-- for the first three, its forks and its session.
pub sleeps_thirty :
    (a : StartAnswers) (as' : List Slept)
    → (daemonize a).0 ≡ none
    → IsDocumented 30 as'
    → signals as' < 2 ^ 31
    → (r : ℕ) × (seconds 30 as' + r ≡ 30)
      × (daemon_main a as' ≡ ok (end_of (r, pos (signals as')), (daemonize a).1))
      × (process_main a as' ≡ ok (end_of (r, pos (signals as')), (settle a).1))
      × ((daemonize a).1 ≡ forked ∷ made_session ∷ forked ∷ (settle a).1)
unfolding daemon_main process_main
sleeps_thirty a as' runs h fits =
    let (r, slept, sum) = sleeps_lem as' 30 0 h (omega arith) in
    let none_left : signals as' + 0 ≡ signals as' = omega arith in
    let ends : body as' ≡ ok (end_of (r, pos (signals as'))) = rw (slept, none_left) refl in
    let (settles, calls) = prefix_calls a runs in
    (
      r,
      sum,
      behind-none (daemonize a) as' _ runs ends,
      behind-none (settle a) as' _ settles ends,
      calls,
    )
