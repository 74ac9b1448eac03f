-- ===== src/Tests/StartRuns.antt =====
-- Runs of the daemon's start, and of the requests that it answers.
use csel.Prelude.{◌≡◌, ◌≢◌, refl, true, none, some, List, [], ◌∷◌, ◌++◌, ℤ, pos, negsuc, arith}
use csel.Cstd.{Bytes, codes, ok, c_str, format_int}
use csel.Daemon.{Daemon, sent, pwrote_at_0}
use csel.Daemon.Messages.{Locals, handle_message}
use csel.Daemon.Startup.{
  StartAnswers, StartCall, daemonize, start_daemon, set_group, set_user, fork_process,
}
use csel.Daemon.Startup.Exits.{closes, runs_as_daemon}
use csel.Client.{Env}
use csel.System.Replies.{request_for, getfreq_answers, setfreq_refused, setfreq_sets}
use csel.Tests.Fixtures.{daemon, test_fds}

-- Everything succeeds, and there are 1024 descriptors; the user is 1 in the group 2.
abbrev pub good_answers : StartAnswers
good_answers = record {
  first_fork = pos 0;
  new_session = pos 7;
  second_fork = pos 0;
  directory = pos 0;
  open_max = pos 1024;
  null_fd = pos 0;
  stdout_fd = pos 1;
  stderr_fd = pos 2;
  passwd = some (pos 1, pos 2);
  root = pos 0;
  group = pos 0;
  user = pos 0;
}

goes_on : (daemonize good_answers).0 ≡ none
unfolding daemonize fork_process
goes_on = refl

without_flag : start_daemon good_answers [] ≡ (none, [])
unfolding start_daemon
without_flag = refl

runs_as_daemon_example :
    (uid : ℤ) × (gid : ℤ) × (t : List StartCall) × (good_answers.passwd ≡ some (uid, gid))
    × ((daemonize good_answers).1 ≡ t ++ set_group gid ∷ set_user uid ∷ [])
    × (closes 3 t ≡ true)
runs_as_daemon_example = runs_as_daemon good_answers 1024 3 goes_on refl (omega arith)

abbrev pub empty_env : Env
empty_env = record { send_buffer = []; recv_buffer = []; garbage = pos 5; replies = [] }

abbrev pub stale : Locals
stale = record { command = []; value = pos 77 }

getfreq_answers_example :
    (m : Bytes) × (buffer : Bytes) × (handle_message
        (request_for empty_env (codes "getfreq") (pos 0))
        stale
        daemon
      ≡ ok (tt, record daemon { outcome_mq_buffer = buffer }, sent m ∷ []))
    × (c_str (m ++ 0 ∷ []) ≡ some (format_int (pos 1)))
getfreq_answers_example = getfreq_answers empty_env stale daemon (omega arith)

abbrev automatic : Daemon
automatic = record daemon { cur_mode = pos 0 }

zero_ne_one : pos 0 ≢ pos 1
zero_ne_one e = cc

setfreq_refused_example :
    (m : Bytes) × (buffer : Bytes) × (handle_message
        (request_for empty_env (codes "setfreq") (pos 25))
        stale
        automatic
      ≡ ok (tt, record automatic { outcome_mq_buffer = buffer }, sent m ∷ []))
    × (c_str (m ++ 0 ∷ []) ≡ some (codes "AUTO"))
setfreq_refused_example =
    setfreq_refused empty_env stale automatic (pos 25) (omega arith) zero_ne_one

setfreq_sets_example :
    (m : Bytes) × (buffer : Bytes) × (handle_message
        (request_for empty_env (codes "setfreq") (pos 25))
        stale
        daemon
      ≡ ok (
        tt,
        record daemon { outcome_mq_buffer = buffer },
        pwrote_at_0 test_fds.freq_fd (format_int (pos 25)) ∷ sent m ∷ [],
      ))
    × (c_str (m ++ 0 ∷ []) ≡ some (codes "OK"))
setfreq_sets_example = setfreq_sets empty_env stale daemon (pos 25) (omega arith) (omega arith) refl

abbrev reading : Daemon
reading = record daemon {
  answers = record { opens = pos 30 ∷ []; reads = (b'0' ∷ []) ∷ []; settimes = [] };
}

thirty : pos 30 ≢ negsuc 0
thirty e = cc
