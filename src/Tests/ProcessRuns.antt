-- ===== src/Tests/ProcessRuns.antt =====
-- Runs of the programs with several processes or threads, and of those that wait for the clock.
use csel.Prelude.{
  ℕ, ◌+◌, ◌*◌, ◌≤◌, ◌<◌, ◌^◌, ◌≢◌, bit, ◌≡◌, refl, ◌⊎◌, inl, inr, List, [], ◌∷◌, ◌++◌, turns, zero,
  suc, true, false, none, some, ◌==◌, replicate, in_turn, All, pos, negsuc, arith, if◌then◌else◌,
}
use csel.Cstd.{Bytes, codes, ok, fault, invalid_pointer}
use csel.SocketPair
use csel.SocketPair.{exit_message, hello, parent, main, child, child_sends}
use csel.SocketPair.Ending.{Ends, reads, parent-Ends, all_of}
use csel.PosixThreads.{
  Turn, turn_1, turn_2, turn_3, turn_main, signal, Result, value, canceled, ended, finished, start,
  run, turn, catch_signal,
}
use csel.PosixThreads.Cleaning.{cleaner_runs_once, has_ended}
use csel.PosixThreads.Joining.{IsRound, main_joins_threads}
use csel.PosixThreads.Joining.Measure.{first, second, third, main_thread}
use csel.Tests.StartRuns.{good_answers}
use csel.Daemon.Startup.{fork_process, daemonize, settle, forked, made_session}
use csel.SleepDaemon.{Slept, daemon_main, process_main, end_of}
use csel.SleepDaemon.Sleep.{seconds, signals, sleeps_thirty}
use csel.PinToggle.{mmio_main, toggle_bit}
use csel.PinToggle.Waves.{OppositeWaves, opposite_waves}
use csel.LedLoop
use csel.LedLoop.{periods}
use csel.LedLoop.Phases.{toggle_count, lasting, phases_last}

-- Each message in a read of its own: the parent ends.
abbrev one_by_one : List (List Bytes)
one_by_one = replicate 4 (hello ∷ []) ++ (exit_message ∷ []) ∷ []

sent : all_of one_by_one ≡ child
unfolding child child_sends
sent = refl

parent-Ends_example : Ends one_by_one 2 (replicate 1024 0)
parent-Ends_example =
    parent-Ends one_by_one 2 (replicate 1024 0)
      (λ e. cc, (λ e. cc, (λ e. cc, (λ e. cc, (λ e. cc, tt))))) sent

-- The last two together: it does not, and reads an empty text at the end of the stream.
two_at_once :
    parent (reads (replicate 3 (hello ∷ []) ++ (hello ∷ exit_message ∷ []) ∷ []) 2) (0 ∷ [])
    ≡ ok (false, replicate 4 (codes "I am a child") ++ [] ∷ [] ∷ [])
unfolding parent
two_at_once = refl

no_fork :
    main (record { socketpair = pos 0; fork = negsuc 0; affinity = pos 0 })
    ≡ SocketPair.exits (pos 0)
unfolding main
no_fork = refl

-- A signal comes when all three threads run.
abbrev interrupted : List Turn
interrupted =
    turn_main true
    ∷ turn_main true
    ∷ turn_main true
    ∷ turn_1 false
    ∷ turn_1 false
    ∷ signal false
    ∷ []

abbrev round : List Turn
round = turn_1 false ∷ turn_2 ∷ turn_3 ∷ turn_main true ∷ []

rounds_are_fair : (n : ℕ) → All IsRound (replicate n round)
rounds_are_fair zero = tt
rounds_are_fair (suc n) = (takes, rounds_are_fair n)
  where
    takes : IsRound round
    takes first = inl refl
    takes second = inr (inl refl)
    takes third = inr (inr (inl refl))
    takes main_thread = inr (inr (inr (inl refl)))

long_defined : (run (interrupted ++ in_turn (replicate 26 round)) start).undefined ≡ false
unfolding turns turn catch_signal
long_defined = refl

main_joins_threads_example :
    let s = run (interrupted ++ in_turn (replicate 26 round)) start in
    (s.main ≡ finished)
    × ((r : Result) × (s.thread_1 ≡ ended r)
        × (s.joined ≡ value 3 ∷ value 0 ∷ r ∷ [])
        × ((r ≡ value 1) ⊎ ((r ≡ canceled) × (s.cancel ≡ true))))
main_joins_threads_example =
    main_joins_threads interrupted (replicate 26 round) (rounds_are_fair 26) (omega arith)
      long_defined

round_defined : (run (interrupted ++ round) start).undefined ≡ false
unfolding turns turn catch_signal
round_defined = refl

cleaner_runs_once_example :
    let s = run (interrupted ++ round) start in
    ((has_ended s.thread_1 ≡ true) → (s.cleaned_1 ≡ 1))
    × ((has_ended s.thread_1 ≡ false) → (s.cleaned_1 ≡ 0))
    × (s.cleaned_2 ≡ 0)
cleaner_runs_once_example = cleaner_runs_once (interrupted ++ round) round_defined

canceled_in_sleep : (run (interrupted ++ round) start).thread_1 ≡ ended canceled
unfolding turns turn catch_signal
canceled_in_sleep = refl

-- A signal before thread_1 is created has no thread to cancel.
too_early : (run (signal false ∷ []) start).undefined ≡ true
unfolding turns turn catch_signal
too_early = refl

-- Two signals wake the daemon, and a third one comes in its last sleep.
abbrev woken_twice : List Slept
woken_twice =
    record { left = 18; signals = 1 }
    ∷ record { left = 5; signals = 1 }
    ∷ record { left = 0; signals = 1 }
    ∷ []

starts : (daemonize good_answers).0 ≡ none
unfolding daemonize fork_process
starts = refl

signals_fit : signals woken_twice < 2 ^ 31
unfolding signals
signals_fit = omega arith

sleeps_thirty_example :
    (r : ℕ) × (seconds 30 woken_twice + r ≡ 30)
    × (daemon_main good_answers woken_twice
        ≡ ok (end_of (r, pos (signals woken_twice)), (daemonize good_answers).1))
    × (process_main good_answers woken_twice
        ≡ ok (end_of (r, pos (signals woken_twice)), (settle good_answers).1))
    × ((daemonize good_answers).1 ≡ forked ∷ made_session ∷ forked ∷ (settle good_answers).1)
sleeps_thirty_example =
    sleeps_thirty good_answers woken_twice starts (omega arith, (omega arith, (omega arith, tt)))
      signals_fit

-- Four readings, 10 ms apart.
abbrev readings : List ℕ
readings = 10000000 ∷ 20000000 ∷ 30000000 ∷ 40000000 ∷ []

phases_last_example :
    let n = toggle_count (periods (pos 1000)) (LedLoop.start 0) readings in
    (0 + lasting (1000 * 20000) (1000 * 980000) 0 n
      ≤ (LedLoop.main (some (pos 1000)) 0 readings).t1)
    × ((LedLoop.main (some (pos 1000)) 0 readings).t1
        ≤ 0 + lasting (1000 * 20000 + 10000000) (1000 * 980000 + 10000000) 0 n)
    × ((LedLoop.main (some (pos 1000)) 0 readings).led
        ≡ (if (LedLoop.main (some (pos 1000)) 0 readings).k == 0 then codes "1" else codes "0"))
phases_last_example = phases_last 1000 0 10000000 readings (
  omega arith,
  omega arith,
  (omega arith, omega arith, (omega arith, omega arith, (omega arith, omega arith, tt))),
)

clear : bit 11 0x7ff ≡ 0
unfolding bit
clear = refl

opposite_waves_example :
    ((pos 3 ≡ negsuc 0) × (mmio_main (pos 3) true 4096 5 0x7ff ≡ ok none))
    ⊎ ((pos 3 ≢ negsuc 0)
        × (true ≡ false)
        × (mmio_main (pos 3) true 4096 5 0x7ff ≡ fault invalid_pointer))
    ⊎ ((pos 3 ≢ negsuc 0) × (true ≡ true) × OppositeWaves (pos 3) 4096 5 0x7ff)
opposite_waves_example = opposite_waves (pos 3) true 4096 5 0x7ff (omega arith) clear

-- Three toggles of one bit.
three : toggle_bit 11 3 0x7ff ≡ 0xfff
unfolding toggle_bit
three = refl
