-- ===== src/WaitQueue/Unloading.antt =====
-- Unloading the module comes to its end, if each thread gets its turns.
pub mod Measure
use csel.Prelude.{
  ◌≤◌, ◌≡◌, refl, List, ◌++◌, All, length, arith, turns, turns-append, Takes, in_turn, turns-keep,
  rounds-less,
}
use csel.WaitQueue.{Thread, turn, run, running, unloaded}
use csel.WaitQueue.Unloading.Measure.{
  IsSound, turn-IsSound, left, waited, who, turn-Progress, left-le, left-unloaded,
}

-- Every thread has a turn, in any order and any number of times.
abbrev pub IsRound : List Thread → Type 0
IsRound r = (t : Thread) → Takes who t r

-- From a load on, whatever turns the threads have taken: when from then on each of the two
-- threads and rmmod keep getting turns, in any order, then the module is unloaded after 18
-- rounds, or more, in which each of the three has had a turn.
pub unloading_ends :
    (ts : List Thread) (rs : List (List Thread))
    → All IsRound rs
    → 18 ≤ length rs
    → (run (ts ++ in_turn rs) running).unloader ≡ unloaded
unloading_ends ts rs fair enough =
    let s = run ts running in
    let sound =
      turns-keep turn who left waited IsSound turn-IsSound turn-Progress ts running
        ((refl, refl), (λ e. cc), λ e. cc) in
    rw (turns-append turn ts (in_turn rs) running) (
      left-unloaded (run (in_turn rs) s) (
        omega (
          arith,
          left-le s,
          rounds-less turn who left waited IsSound turn-IsSound turn-Progress rs s sound fair,
        )))
