-- ===== src/Tests/StopRuns.antt =====
-- A run of the whole process, which is asked to stop.
use csel.Prelude.{◌≡◌, refl, none, some, [], ◌∷◌, ◌++◌, pos}
use csel.Cstd.{codes, str_eq, ok}
use csel.Daemon.{Daemon, Trace, rdonly, opened, pread_at_0, closed}
use csel.Daemon.Body.{main, open_queues, cleanup}
use csel.Daemon.Fan.{get_mode, fan_mode_file}
use csel.Daemon.Messages.{serve}
use csel.Daemon.Startup.{start_daemon, daemonize, fork_process}
use csel.System.Replies.{request_for}
use csel.System.Stop.{stop_ends_process}
use csel.Tests.StartRuns.{good_answers, empty_env, stale}
use csel.Tests.Fixtures.{daemon}

-- The file of the mode can be opened, and holds a 1.
abbrev begun : Daemon
begun = record daemon {
  answers = record daemon.answers { opens = pos 5 ∷ []; reads = codes "1\n" ∷ [] };
}

abbrev has_mode : Daemon
has_mode = record begun { answers = record begun.answers { opens = []; reads = [] } }

abbrev mode_calls : Trace
mode_calls = opened fan_mode_file rdonly (pos 5) ∷ pread_at_0 (pos 5) 5 ∷ closed (pos 5) ∷ []

started : (start_daemon good_answers (codes "-d" ∷ [])).0 ≡ none
unfolding start_daemon daemonize fork_process str_eq
started = refl

got_mode : get_mode begun ≡ ok (pos 1, has_mode, mode_calls)
unfolding get_mode
got_mode = refl

-- The queue gives nothing at first.
nothing_came :
    serve (none ∷ []) (record has_mode { cur_mode = pos 1 })
    ≡ ok (tt, record has_mode { cur_mode = pos 1 }, [])
unfolding serve
nothing_came = refl

stop_ends_process_example :
    (calls : Trace) × (main good_answers
        (codes "-d" ∷ [])
        (pos 3)
        (pos 0)
        (none ∷ some (request_for empty_env (codes "stop") (pos 0), stale) ∷ [])
        begun
      ≡ ok (record {
        status = some (pos 0);
        start_calls = (start_daemon good_answers (codes "-d" ∷ [])).1;
        calls = calls ++ [];
        queues = open_queues ++ cleanup;
      }))
stop_ends_process_example =
    stop_ends_process good_answers (codes "-d" ∷ []) (pos 3) (pos 0) (none ∷ []) [] empty_env stale
      begun has_mode (record has_mode { cur_mode = pos 1 }) (pos 1) mode_calls [] started got_mode
      nothing_came refl
