-- ===== src/Tests/SystemRuns.antt =====
-- Runs of the whole: the command line, the daemon and the module.
use csel.Prelude.{
  List, true, some, ◌≡◌, refl, ◌≢◌, [], ◌∷◌, ◌++◌, arith, replicate, length, ℤ, pos, negsuc,
}
use csel.Cstd.{Bytes, codes, ok, fault, buffer_overflow, div_by_zero, c_str, format_int}
use csel.FanPwm.{freq_show, timer_callback}
use csel.FanPwm.Attributes.{is_set}
use csel.Daemon.{Daemon, Trace, sent}
use csel.Daemon.Fan.{set_freq, freq_handler}
use csel.Daemon.Buttons.{decrement_freq}
use csel.Daemon.Messages.{Locals, scan_command, text_of, reply}
use csel.Client.{Env, printed, receive, message_of}
use csel.System.Control.{mode_attr, deliver, freq_round_trip, decrement_to_fault}
use csel.System.Controller.{
  Act, presses_k1, presses_k3, looks, asks_setmode, asks_setfreq, asks_getfreq, Fan, Machine,
  AllAllowed, run_machine, run_fan,
}
use csel.System.Controller.Simulation.{Agrees}
use csel.System.Controller.Refinement.{acts_refine}
use csel.Daemon.Buttons.Steps.{step_up}
use csel.System.Requests.{scan_command-message, reply_overflows_client, IsCommand}
use csel.Tests.Fixtures.{
  test_kernel, test_kernel-IsDocumented, warm, driver, daemon, test_fds, test_files,
}

freq_round_trip_example :
    (t : Trace) × (set_freq (pos 25) daemon ≡ ok (tt, daemon, t))
    × ((deliver test_kernel test_files t driver).freq ≡ pos 25)
    × (shown : ℤ × Bytes) × (freq_show (deliver test_kernel test_files t driver) ≡ ok shown)
    × (d' : Daemon) × (u : Trace) × (freq_handler test_fds (record daemon {
      answers = record daemon.answers { reads = test_kernel.sysfs_read shown ∷ [] };
    })
        ≡ ok (tt, d', u))
    × (d'.cur_freq ≡ pos 25)
unfolding test_files
freq_round_trip_example =
    freq_round_trip test_kernel test_kernel-IsDocumented test_files daemon driver refl (pos 25)
      (omega arith) (omega arith)

decrement_to_fault_example :
    (u : Trace) × (decrement_freq daemon ≡ ok (tt, daemon, u))
    × (timer_callback test_kernel 9 warm (deliver test_kernel test_files u driver)
        ≡ fault div_by_zero)
unfolding test_files
decrement_to_fault_example =
    decrement_to_fault test_kernel test_kernel-IsDocumented test_files daemon driver refl 9 warm
      refl refl

minus_one : pos 30 ≢ negsuc 0
minus_one e = cc

abbrev env : Env
env = record {
  send_buffer = replicate 100 0xff;
  recv_buffer = replicate 100 0xff;
  garbage = pos 5;
  replies = [];
}

abbrev garbage : Locals
garbage = record { command = codes "getfreq"; value = pos 77 }

setfreq-IsCommand : IsCommand (codes "setfreq")
setfreq-IsCommand = ground arith

scan_command-message_example :
    scan_command
      (text_of (c_str (message_of env (codes "setfreq" ++ b' ' ∷ format_int (pos 25)) ++ 0 ∷ [])))
      garbage
    ≡ ok (record { command = codes "setfreq"; value = pos 25 })
scan_command-message_example =
    scan_command-message env (codes "setfreq") (pos 25) garbage setfreq-IsCommand (omega arith)

reply_overflows_client_example :
    (m : Bytes) × (d' : Daemon) × (reply (codes "AUTO") daemon ≡ ok (tt, d', sent m ∷ []))
    × (length d'.outcome_mq_buffer ≡ 101)
    × (receive (record env { replies = m ∷ [] }) (λ text. printed text ∷ [])
        ≡ fault buffer_overflow)
reply_overflows_client_example =
    reply_overflows_client (codes "AUTO") daemon env (λ text. printed text ∷ []) (omega arith) refl

-- In manual mode: the client sets 25 Hz, the daemon looks at it, K1 steps up to 30, and K3 takes the other mode,
-- in which nothing is set, and the frequency at the last look is told.
abbrev acts : List Act
acts =
    asks_setmode env garbage (pos 1)
    ∷ asks_setfreq env garbage (pos 25)
    ∷ looks
    ∷ presses_k1
    ∷ presses_k3
    ∷ asks_setfreq env garbage (pos 7)
    ∷ asks_getfreq env garbage
    ∷ []

abbrev machine : Machine
machine = record { heard = []; daemon = daemon; driver = record driver { mode = true } }

abbrev fan : Fan
fan = record { heard = []; mode = pos 1; freq = pos 2; seen = pos 1 }

acts_allowed : AllAllowed acts fan
acts_allowed = (
  (omega arith, omega arith),
  (
    (omega arith, omega arith),
    (
      (omega arith, omega arith),
      ((omega arith, omega arith), (tt, ((omega arith, omega arith), (tt, tt)))),
    ),
  ),
)

machine-Agrees : Agrees test_kernel test_files (pos 30) machine fan
unfolding test_files is_set
machine-Agrees = (refl, refl, refl, refl, refl, omega arith, refl, refl)

mode_file : test_files (pos 30) ≡ some mode_attr
unfolding test_files
mode_file = refl

acts_refine_example :
    (s' : Machine) × (run_machine test_kernel test_files (pos 30) acts machine ≡ ok s')
    × Agrees test_kernel test_files (pos 30) s' (run_fan acts fan)
acts_refine_example =
    acts_refine test_kernel test_kernel-IsDocumented test_files (pos 30) mode_file minus_one acts
      machine fan acts_allowed machine-Agrees

fan_at_end : run_fan acts fan ≡ record {
  heard = codes "25" ∷ codes "AUTO" ∷ codes "OK" ∷ [];
  mode = pos 0;
  freq = pos 30;
  seen = pos 25;
}
unfolding run_fan step_up format_int
fan_at_end = refl
