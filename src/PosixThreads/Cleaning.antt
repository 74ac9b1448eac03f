-- ===== src/PosixThreads/Cleaning.antt =====
-- How often the cleanup runs, and what the threads are joined with.
use csel.Prelude.{ℕ, ◌∙◌, ◌≡◌, List, [], ◌∷◌, Bool, true, false, turns, arith}
use csel.PosixThreads.{
  value, canceled, Place, not_created, leaves, ended, Main, creates_1, joins_3, joins_2, joins_1,
  finished, State, Turn, turn_1, turn_2, turn_3, turn_main, signal, turn, catch_signal, run, start,
}

-- The runs of the cleanup that belong to a place of thread_1.
abbrev pub cleanups : Place → ℕ
cleanups leaves = 1
cleanups (ended r) = 1
cleanups p = 0

-- The values that the threads can end with.
abbrev pub OneOrCanceled : Place → State → Type 0
OneOrCanceled (ended (value n)) s = n ≡ 1
OneOrCanceled (ended canceled) s = s.cancel ≡ true
OneOrCanceled p s = Unit

abbrev pub Ends : ℕ → Place → Type 0
Ends n (ended r) = r ≡ value n
Ends n p = Unit

abbrev pub AllJoined : Place → State → Type 0
AllJoined (ended r) s = s.joined ≡ value 3 ∷ value 0 ∷ r ∷ []
AllJoined p s = ⊥

-- What main has joined, at each of its points.
abbrev pub AtMain : Main → State → Type 0
AtMain creates_1 s =
    (s.thread_1 ≡ not_created)
    × (s.thread_2 ≡ not_created)
    × (s.thread_3 ≡ not_created)
    × (s.joined ≡ [])
AtMain joins_2 s = (s.is_running ≡ false) × (s.joined ≡ value 3 ∷ [])
AtMain joins_1 s = (s.is_running ≡ false) × (s.joined ≡ value 3 ∷ value 0 ∷ [])
AtMain finished s = AllJoined s.thread_1 s
AtMain joins_3 s = (s.is_running ≡ false) × (s.joined ≡ [])
AtMain m s = s.joined ≡ []

abbrev pub IsSound : State → Type 0
IsSound s =
    (s.cleaned_1 ≡ cleanups s.thread_1)
    × (s.cleaned_2 ≡ 0)
    × OneOrCanceled s.thread_1 s
    × Ends 0 s.thread_2
    × Ends 3 s.thread_3
    × AtMain s.main s

turn-IsSound : (t : Turn) (s : State) → IsSound s → IsSound (turn t s)
unfolding turn catch_signal
turn-IsSound (turn_1 acts) s inv = ground arith
turn-IsSound turn_2 s inv = ground arith
turn-IsSound turn_3 s inv = ground arith
turn-IsSound (turn_main key) s inv = ground arith
turn-IsSound (signal in_main) s inv = ground arith

pub run-IsSound : (ts : List Turn) (s : State) → IsSound s → IsSound (run ts s)
unfolding turns
run-IsSound [] s inv = inv
run-IsSound (t ∷ ts) s inv = run-IsSound ts (turn t s) (turn-IsSound t s inv)

pub start-IsSound : IsSound start
start-IsSound = ground arith

abbrev pub has_ended : Place → Bool
has_ended leaves = true
has_ended (ended r) = true
has_ended p = false

cleanups-has_ended :
    (p : Place)
    → ((has_ended p ≡ true) → (cleanups p ≡ 1)) × ((has_ended p ≡ false) → (cleanups p ≡ 0))
cleanups-has_ended p = ground arith

-- From the start of the three threads on, in any order of their turns, main's and the signals, if
-- no signal cancels where there is no thread_1: the cleanup of thread_1 has run once when
-- thread_1 has left its loop and popped it, or was cancelled, and not at all before; that of
-- thread_2 never runs.
pub cleaner_runs_once :
    (ts : List Turn)
    → (run ts start).undefined ≡ false
    → let s = run ts start in
      ((has_ended s.thread_1 ≡ true) → (s.cleaned_1 ≡ 1))
      × ((has_ended s.thread_1 ≡ false) → (s.cleaned_1 ≡ 0))
      × (s.cleaned_2 ≡ 0)
cleaner_runs_once ts defined =
    let s = run ts start in
    let inv = run-IsSound ts start start-IsSound in
    let once = cleanups-has_ended s.thread_1 in
    (λ e. inv.0 ∙ once.0 e, λ e. inv.0 ∙ once.1 e, inv.1)
