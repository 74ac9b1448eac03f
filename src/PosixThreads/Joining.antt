-- ===== src/PosixThreads/Joining.antt =====
-- main joins all of the threads.
pub mod Measure
use csel.Prelude.{
  ◌≤◌, ◌≡◌, refl, ap, subst, ◌⊎◌, inl, inr, List, [], ◌∷◌, ◌++◌, All, length, arith, true, false,
  turns-append, Takes, in_turn, turns-keep, rounds-less,
}
use csel.PosixThreads.{
  Result, value, canceled, Place, not_created, tests, prints, sleeps, pops, leaves, ended, finished,
  State, Turn, turn, run, start,
}
use csel.PosixThreads.Cleaning.{OneOrCanceled, AllJoined, AtMain, run-IsSound, start-IsSound}
use csel.PosixThreads.Joining.Measure.{
  Thread, who, IsCreated, turn-IsCreated, left, waited, turn-Progress, left-le, left-finished,
}

-- What main has joined when it is at its end, where `p` is the place of thread_1.
joined_at_end :
    (p : Place) (s : State)
    → OneOrCanceled p s
    → AllJoined p s
    → (r : Result) × (p ≡ ended r)
      × (s.joined ≡ value 3 ∷ value 0 ∷ r ∷ [])
      × ((r ≡ value 1) ⊎ ((r ≡ canceled) × (s.cancel ≡ true)))
joined_at_end (ended (value n)) s ends all = (value n, refl, all, inl (ap value ends))
joined_at_end (ended canceled) s ends all = (canceled, refl, all, inr (refl, ends))
joined_at_end not_created s ends all = absurd all
joined_at_end tests s ends all = absurd all
joined_at_end prints s ends all = absurd all
joined_at_end sleeps s ends all = absurd all
joined_at_end pops s ends all = absurd all
joined_at_end leaves s ends all = absurd all

-- In a round each thread has a turn, and main one with a key at hand.
abbrev pub IsRound : List Turn → Type 0
IsRound r = (t : Thread) → Takes who t r

-- From the start of the three threads on, whatever turns were taken and whatever signals came, if
-- no signal comes where there is no thread_1: when from then on each thread keeps getting turns,
-- and main keys, in any order and with any further signals, then after 26 rounds or more main is
-- at its end and has joined thread_3 with 3, thread_2 with 0, and thread_1 with 1 or, if a signal
-- had it canceled, with PTHREAD_CANCELED.
pub main_joins_threads :
    (ts : List Turn) (rs : List (List Turn))
    → All IsRound rs
    → 26 ≤ length rs
    → (run (ts ++ in_turn rs) start).undefined ≡ false
    → let s = run (ts ++ in_turn rs) start in
      (s.main ≡ finished)
      × ((r : Result) × (s.thread_1 ≡ ended r)
          × (s.joined ≡ value 3 ∷ value 0 ∷ r ∷ [])
          × ((r ≡ value 1) ⊎ ((r ≡ canceled) × (s.cancel ≡ true))))
main_joins_threads ts rs fair enough defined =
    let s = run ts start in
    let created =
      turns-keep turn who left waited IsCreated turn-IsCreated turn-Progress ts start
        (tt, λ e. cc) in
    let at_end : (run (ts ++ in_turn rs) start).main ≡ finished =
      rw (turns-append turn ts (in_turn rs) start) (
        left-finished (run (in_turn rs) s) (
          omega (
            arith,
            left-le s,
            rounds-less turn who left waited IsCreated turn-IsCreated turn-Progress rs s created
                fair,
          ))) in
    let sound = run-IsSound (ts ++ in_turn rs) start start-IsSound in
    let last = run (ts ++ in_turn rs) start in
    (at_end, joined_at_end last.thread_1 last sound.2 (subst (λ m. AtMain m last) at_end sound.5))
