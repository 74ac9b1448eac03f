-- ===== src/SleepDaemon.antt =====
-- environment/daemon/daemon.c, a daemon that sleeps for 30 seconds and counts the signals that it gets, and
-- environment/process/process.c, the same without its forks.
pub mod Sleep
use csel.Prelude.{ℕ, zero, suc, List, [], ◌∷◌, ◌++◌, Option, none, some, ltb, ℤ, pos, if◌then◌else◌}
use csel.Cstd.{Outcome, ok, and_then, add_int}
use csel.Daemon.Startup.{StartAnswers, StartCall, Start, does, settle, daemonize}

-- What a call of sleep answers: the seconds that are left, and the signals that were handled in it.
pub record Slept : Type 0 where
  pub left : ℕ
  pub signals : ℕ

abbrev pub catch_signal : ℤ → Outcome ℤ
catch_signal signal_catched = add_int signal_catched (pos 1)

unfoldable pub catch_signals : ℕ → ℤ → Outcome ℤ
catch_signals zero signal_catched = ok signal_catched
catch_signals (suc n) signal_catched = and_then (catch_signal signal_catched) (catch_signals n)

-- The loop of the body on what its sleeps answer: the seconds that it still has to sleep, and
-- signal_catched. It ends when there are none; otherwise it waits for the next answer.
unfoldable pub sleeps : ℕ → List Slept → ℤ → Outcome (ℕ × ℤ)
unfolding catch_signals
sleeps t [] signal_catched = ok (t, signal_catched)
sleeps t (a ∷ as') signal_catched =
    and_then (catch_signals a.signals signal_catched)
      λ n. let more = sleeps a.left as' n in if ltb 0 a.left then more else ok (0, n)

-- The end of the process, with its status and the number that it logs, or its place in the sleep.
pub data End : Type 0 where
  exits : ℤ → End
  stopped : (signal_catched : ℤ) → End
  asleep : (t : ℕ) → End

abbrev pub end_of : ℕ × ℤ → End
end_of (zero, n) = stopped n
end_of (suc t, n) = asleep (suc t)

abbrev pub body : List Slept → Outcome End
body as' = and_then (sleeps 30 as' (pos 0)) λ r. ok (end_of r)

abbrev pub behind : Start → List Slept → Outcome (End × List StartCall)
behind (some status, calls) as' = ok (exits status, calls)
behind (none, calls) as' = and_then (body as') λ e. ok (e, calls)

-- main of daemon.c, which returns 0 when it has stopped, and of process.c.
unfoldable pub daemon_main : StartAnswers → List Slept → Outcome (End × List StartCall)
unfolding daemonize sleeps
daemon_main a as' = behind (daemonize a) as'

unfoldable pub process_main : StartAnswers → List Slept → Outcome (End × List StartCall)
unfolding sleeps
process_main a as' = behind (settle a) as'
