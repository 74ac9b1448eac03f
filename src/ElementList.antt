-- ===== src/ElementList.antt =====
-- modules_Ex/module_mem_lib_2/skeleton.c: a module that keeps elements in a list of the kernel.
pub mod Chain
use csel.Prelude.{
  ℕ, zero, suc, ◌+◌, List, [], ◌∷◌, ◌++◌, Bool, Option, none, some, if◌then◌else◌, length, ℤ, pos,
  negsuc,
}
use csel.Cstd.{Bytes, Outcome, ok, fault, and_then, null_pointer, over_read, use_after_free}

-- An element, with the address of the one behind it: none behind the last, where the list's head is.
pub record Element : Type 0 where
  pub id : ℕ
  pub texte : Bytes
  pub next : Option ℕ

-- The memory of the elements: the cell of each address, or nothing where it was given back.
abbrev pub Heap : Type 0
Heap = List (Option Element)

-- The list's head holds the addresses of the first element and of the last.
pub record Module : Type 0 where
  pub heap : Heap
  pub first : Option ℕ
  pub last : Option ℕ

unfoldable pub load : Heap → ℕ → Outcome Element
load [] p = fault over_read
load (none ∷ cells) zero = fault use_after_free
load (some e ∷ cells) zero = ok e
load (c ∷ cells) (suc p) = load cells p

unfoldable pub store : Heap → ℕ → Option Element → Heap
store [] p e = []
store (c ∷ cells) zero e = e ∷ cells
store (c ∷ cells) (suc p) e = c ∷ store cells p e

-- The element before the new one gets the new one's address, or the head does.
unfoldable pub list_add_tail : Module → Element → Outcome Module
unfolding load store
list_add_tail m e =
    let p = length m.heap in
    elim m.last [
      | none ↦ ok (record { heap = m.heap ++ some e ∷ []; first = some p; last = some p })
      | some q ↦ and_then (load m.heap q) λ before. ok (record {
        heap = store m.heap q (some (record before { next = some p })) ++ some e ∷ [];
        first = m.first;
        last = some p;
      })
    ]

-- The test of kzalloc's result guards the first assignment only.
unfoldable pub alloc_ele : (succeeds : Bool) → ℕ → Bytes → Module → Outcome Module
unfolding list_add_tail
alloc_ele succeeds id texte m =
    if succeeds
    then list_add_tail m (record { id = id; texte = texte; next = none })
    else fault null_pointer

unfoldable pub alloc_loop : (kzalloc : ℕ → Bool) → Bytes → (rounds i : ℕ) → Module → Outcome Module
unfolding alloc_ele
alloc_loop kzalloc text zero i m = ok m
alloc_loop kzalloc text (suc rounds) i m =
    and_then (alloc_ele (kzalloc i) i text m) (alloc_loop kzalloc text rounds (i + 1))

abbrev pub empty : Module
empty = record { heap = []; first = none; last = none }

abbrev pub rounds_of : ℤ → ℕ
rounds_of (pos n) = n
rounds_of (negsuc n) = 0

unfoldable pub skeleton_init : (kzalloc : ℕ → Bool) → Bytes → (elements : ℤ) → Outcome Module
unfolding alloc_loop
skeleton_init kzalloc text elements = alloc_loop kzalloc text (rounds_of elements) 0 empty

-- list_for_each_entry: what is printed of each element, which is then given back, and read once more for
-- the address of the next. `fuel` is a bound of the rounds.
unfoldable pub for_each : (fuel : ℕ) → Heap → Option ℕ → Outcome (List (ℕ × Bytes))
unfolding load store
for_each zero heap at = ok []
for_each (suc fuel) heap none = ok []
for_each (suc fuel) heap (some p) = and_then (load heap p) λ e.
    let freed = store heap p none in
    and_then (load freed p)
      λ e'. and_then (for_each fuel freed e'.next) λ rest. ok ((e.id, e.texte) ∷ rest)

unfoldable pub skeleton_exit : Module → Outcome (List (ℕ × Bytes))
unfolding for_each
skeleton_exit m = for_each (suc (length m.heap)) m.heap m.first
