-- ===== src/Tests/ThreadRuns.antt =====
-- Both threads at work: the events thread shows a frequency, and main has nothing to do.
use mathlib.Core.List.{map}
use csel.Prelude.{
  ◌≡◌, refl, subst, ◌⊎◌, true, false, some, List, [], ◌∷◌, ◌++◌, append-nil, pos, arith,
}
use csel.Cstd.{Bytes, format_int}
use csel.Daemon.{Daemon, Trace, lock, unlock, i2c, pread_at_0, freq_handler_ptr}
use csel.Daemon.Fan.Numbers.{freq_handler_lem}
use csel.Daemon.Events.{run_handler}
use csel.Daemon.Threads.{
  finished, handled, EventsRuns, Machine, events_side, take_lock, other, Reach, start, later,
  events_step,
}
use csel.Daemon.Threads.Exclusion.{is_inside, display_exclusion}
use csel.Daemon.Threads.Progress.{IsDone, Advances, AwaitsClient, no_deadlock}
use csel.Tests.Fixtures.{daemon, test_fds}

abbrev shown_40 : Daemon
shown_40 = record daemon {
  answers = record daemon.answers { reads = (format_int (pos 40) ++ b'\n' ∷ []) ∷ [] };
}

abbrev shown : List Bytes
shown = (freq_handler_lem (pos 40) test_fds shown_40 [] (omega arith) (omega arith) refl).0

abbrev rest : Trace
rest = map i2c shown ++ unlock ∷ []

events_run : EventsRuns (pread_at_0 (pos 21) 11 ∷ lock ∷ rest)
unfolding run_handler
events_run = subst EventsRuns (append-nil (pread_at_0 (pos 21) 11 ∷ lock ∷ rest)) (
    handled freq_handler_ptr shown_40 _ _ []
      (freq_handler_lem (pos 40) test_fds shown_40 [] (omega arith) (omega arith) refl).1 finished)

abbrev showing : Machine
showing = record { main_calls = []; events_calls = rest; holder = some events_side; queued = 10 }

showing_reached : Reach showing
showing_reached =
    later
      (later (start finished events_run (omega arith))
        (events_step (other (λ e. cc) (λ e. cc) (λ m e. cc))))
      (events_step take_lock)

shows_i2c : (ms : List Bytes) → is_inside (map i2c ms ++ unlock ∷ []) ≡ true
shows_i2c [] = refl
shows_i2c (m ∷ ms) = refl

display_exclusion_example : (showing.holder ≡ some events_side) × (is_inside [] ≡ false)
display_exclusion_example = display_exclusion showing events_side showing_reached (shows_i2c shown)

no_deadlock_example : IsDone showing ⊎ Advances showing ⊎ AwaitsClient showing
no_deadlock_example = no_deadlock showing showing_reached
