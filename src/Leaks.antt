-- ===== src/Leaks.antt =====
-- environment/memory_leaks/mem_leaks.c: a linked list that grows at its end and is given back from its
-- front, in part. The list is the attributes of its elements.
pub mod Lost
use csel.Prelude.{ℕ, zero, suc, ◌+◌, ◌%◌, List, [], ◌∷◌, Bool, ◌==◌, if◌then◌else◌}
use csel.Cstd.{Outcome, ok, fault, and_then, null_pointer}

-- `root`, and the static variables: x of alloc, and cnt of alloc1 and of alloc2.
pub record State : Type 0 where
  pub root : List ℕ
  pub x : ℕ
  pub cnt1 : ℕ
  pub cnt2 : ℕ

-- The walk to the last element, and the new one behind it.
abbrev pub append_last : List ℕ → ℕ → List ℕ
append_last [] attr = attr ∷ []
append_last (a ∷ rest) attr = a ∷ append_last rest attr

-- malloc succeeds, or an element is written through a null pointer.
abbrev pub allocated : Bool → State → Outcome State
allocated succeeds s = if succeeds then ok s else fault null_pointer

abbrev pub alloc1 : Bool → State → Outcome State
alloc1 succeeds s =
    allocated succeeds (record s { root = append_last s.root s.cnt1; cnt1 = s.cnt1 + 1 })

abbrev pub alloc2 : Bool → State → Outcome State
alloc2 succeeds s =
    allocated succeeds (record s { root = append_last s.root s.cnt2; cnt2 = s.cnt2 + 1 })

unfoldable pub alloc : Bool → State → Outcome State
alloc succeeds s =
    and_then (if s.x == 0 then alloc1 succeeds s else alloc2 succeeds s)
      λ s'. ok (record s' { x = (s'.x + 1) % 2 })

unfoldable pub dealloc : State → State
dealloc s = elim s.root [ [] ↦ s | a ∷ rest ↦ record s { root = rest } ]

-- The loops of main; `malloc` answers for each element.
unfoldable pub alloc_loop : (malloc : ℕ → Bool) → (rounds i : ℕ) → State → Outcome State
unfolding alloc
alloc_loop malloc zero i s = ok s
alloc_loop malloc (suc rounds) i s =
    and_then (alloc (malloc i) s) (alloc_loop malloc rounds (i + 1))

unfoldable pub dealloc_loop : ℕ → State → State
unfolding dealloc
dealloc_loop zero s = s
dealloc_loop (suc rounds) s = dealloc_loop rounds (dealloc s)

abbrev pub start : State
start = record { root = []; x = 0; cnt1 = 0; cnt2 = 0 }

-- main, which allocates 4000 elements and gives 15 back: what is in the list at its end.
unfoldable pub main : (malloc : ℕ → Bool) → (allocs deallocs : ℕ) → Outcome (List ℕ)
unfolding alloc_loop dealloc_loop
main malloc allocs deallocs =
    and_then (alloc_loop malloc allocs 0 start) λ s. ok (dealloc_loop deallocs s).root
