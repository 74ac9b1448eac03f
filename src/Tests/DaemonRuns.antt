-- ===== src/Tests/DaemonRuns.antt =====
-- Runs of the daemon.
use csel.Prelude.{[], ◌∷◌, ◌++◌, pos}
use csel.Cstd.{format_int}
use csel.Daemon.{Daemon}
use csel.Daemon.Messages.{Locals}
use csel.Tests.Fixtures.{daemon}

abbrev garbage : Locals
garbage = record { command = []; value = pos 77 }

abbrev shown_warm : Daemon
shown_warm = record daemon {
  answers = record daemon.answers { reads = (format_int (pos 42564) ++ b'\n' ∷ []) ∷ [] };
}
