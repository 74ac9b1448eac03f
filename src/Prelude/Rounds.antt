-- ===== src/Prelude/Rounds.antt =====
-- Threads that take turns in any order, and a measure of what is left to do: if each turn of the thread that
-- is waited for makes it less, then rounds in which every thread has a turn bring it to 0.
use Prim.Native.Nat.{ℕ, ◌-◌, ◌≤◌}
use mathlib.Core.Path.{◌≡◌, refl, sym, subst}
use mathlib.Core.Logic.{◌≢◌, ◌⊎◌, inl, inr}
use mathlib.Core.Option.{Option, some}
use mathlib.Core.List.{List, [], ◌∷◌, ◌++◌}
use native.Mathlib.Omega.{arith}
use csel.Prelude.Lists.{length, All}

module _ {State Turn : Type 0} (turn : Turn → State → State) where
  -- The turns one after the other.
  unfoldable pub turns : List Turn → State → State
  turns [] s = s
  turns (t ∷ ts) s = turns ts (turn t s)

  pub turns-append : (ts us : List Turn) (s : State) → turns (ts ++ us) s ≡ turns us (turns ts s)
  unfolding turns
  turns-append [] us s = refl
  turns-append (t ∷ ts) us s = turns-append ts us (turn t s)

module _ {Turn Thread : Type 0} (who : Turn → Option Thread) where
  -- The thread has a turn; a turn can be of no thread.
  abbrev pub Takes : Thread → List Turn → Type 0
  Takes thread [] = ⊥
  Takes thread (t ∷ ts) = (who t ≡ some thread) ⊎ Takes thread ts

abbrev pub in_turn {ℓ} : {A : Type ℓ} → List (List A) → List A
in_turn [] = []
in_turn (r ∷ rs) = r ++ in_turn rs

-- What a turn does to the measure: one of the thread that is waited for makes it less, another one makes
-- it less or leaves it, and the thread to wait for, as they are.
abbrev pub Progress :
    {State Turn Thread : Type 0}
    → (turn : Turn → State → State) (who : Turn → Option Thread) (left : State → ℕ)
    → (waited : State → Thread) → Turn
    → State
    → Type 0
Progress turn who left waited t s =
    (left (turn t s) ≤ left s - 1)
    ⊎ ((left (turn t s) ≡ left s) × (waited (turn t s) ≡ waited s) × (who t ≢ some (waited s)))

module _ {State Turn Thread : Type 0} (turn : Turn → State → State) (who : Turn → Option Thread)
    (left : State → ℕ) (waited : State → Thread) (IsSound : State → Type 0)
    (keeps : (t : Turn) (s : State) → IsSound s → IsSound (turn t s))
    (progress : (t : Turn) (s : State) → IsSound s → Progress turn who left waited t s) where
  pub turns-keep : (ts : List Turn) (s : State) → IsSound s → IsSound (turns turn ts s)
  unfolding turns
  turns-keep [] s h = h
  turns-keep (t ∷ ts) s h = turns-keep ts (turn t s) (keeps t s h)

  turns-le : (ts : List Turn) (s : State) → IsSound s → left (turns turn ts s) ≤ left s
  unfolding turns
  turns-le [] s h = omega arith
  turns-le (t ∷ ts) s h =
      let rest = turns-le ts (turn t s) (keeps t s h) in
      elim (progress t s h) [ inl less ↦ omega arith | inr (same, _, _) ↦ omega arith ]

  round-less :
      (r : List Turn) (s : State)
      → IsSound s
      → Takes who (waited s) r
      → left (turns turn r s) ≤ left s - 1
  unfolding turns
  round-less [] s h takes = absurd takes
  round-less (t ∷ r) s h takes =
      let h' = keeps t s h in
      let rest = turns-le r (turn t s) h' in
      elim (progress t s h) [
        | inl less ↦ omega arith
        | inr (same, still, differs) ↦ elim takes [
          | inl now ↦ absurd (differs now)
          | inr later ↦
              let less =
                round-less r (turn t s) h' (subst (λ x. Takes who x r) (sym still) later) in
              omega arith
        ]
      ]

  -- Each round makes the measure less, until it is 0.
  pub rounds-less :
      (rs : List (List Turn)) (s : State)
      → IsSound s
      → All (λ r. (thread : Thread) → Takes who thread r) rs
      → left (turns turn (in_turn rs) s) ≤ left s - length rs
  unfolding turns
  rounds-less [] s h fair = omega arith
  rounds-less (r ∷ rs) s h fair =
      let less = round-less r s h (fair.0 (waited s)) in
      let rest = rounds-less rs (turns turn r s) (turns-keep r s h) fair.1 in
      rw (turns-append turn r (in_turn rs) s) (omega arith)
