-- ===== src/ElementList/Chain.antt =====
-- The list that a load makes, and what unloading does to it.
use csel.Prelude.{
  ℕ, zero, suc, ◌+◌, ◌≤◌, ◌≡◌, ◌↔◌, refl, ap, subst, ◌∙◌, List, [], ◌∷◌, ◌++◌, Bool, true, Option,
  none, some, length, length-append, append_assoc, pos, arith,
}
use csel.Cstd.{Bytes, Outcome, ok, fault, and_then, use_after_free}
use csel.ElementList.{
  Element, Heap, Module, load, store, list_add_tail, alloc_ele, alloc_loop, empty, skeleton_init,
  for_each, skeleton_exit,
}

-- The elements from `i` on, each with the address of the next.
unfoldable pub chain : Bytes → (i n : ℕ) → Heap
chain text i zero = []
chain text i (suc zero) = some (record { id = i; texte = text; next = none }) ∷ []
chain text i (suc (suc n)) =
    some (record { id = i; texte = text; next = some (i + 1) }) ∷ chain text (i + 1) (suc n)

unfoldable pub module_of : Bytes → ℕ → Module
unfolding chain
module_of text zero = empty
module_of text (suc n) = record { heap = chain text 0 (suc n); first = some 0; last = some n }

length-chain : (text : Bytes) (i n : ℕ) → length (chain text i n) ≡ n
unfolding chain
length-chain text i zero = refl
length-chain text i (suc zero) = refl
length-chain text i (suc (suc n)) = ap suc (length-chain text (i + 1) (suc n))

load-chain :
    (text : Bytes) (i n : ℕ)
    → load (chain text i (suc n)) n ≡ ok (record { id = i + n; texte = text; next = none })
unfolding chain load
load-chain text i zero = ap (λ k. ok (record { id = k; texte = text; next = none })) (omega arith)
load-chain text i (suc n) =
    load-chain text (i + 1) n
    ∙ ap (λ k. ok (record { id = k; texte = text; next = none })) (omega arith)

store-chain :
    (text : Bytes) (i n : ℕ)
    → store
          (chain text i (suc n))
          n
          (some (record { id = i + n; texte = text; next = some (i + suc n) }))
        ++ some (record { id = i + suc n; texte = text; next = none }) ∷ []
      ≡ chain text i (suc (suc n))
unfolding chain store
store-chain text i zero =
    ap
      (λ k.
        some (record { id = k; texte = text; next = some (i + 1) })
        ∷ some (record { id = i + 1; texte = text; next = none })
        ∷ [])
      (omega arith)
store-chain text i (suc n) =
    let here : i + suc n ≡ i + 1 + n = omega arith in
    let behind : i + suc (suc n) ≡ i + 1 + suc n = omega arith in
    rw (here, behind)
      (ap (λ cells. some (record { id = i; texte = text; next = some (i + 1) }) ∷ cells)
        (store-chain text (i + 1) n))

alloc_ele-module_of :
    (text : Bytes) (n : ℕ) → alloc_ele true n text (module_of text n) ≡ ok (module_of text (suc n))
unfolding alloc_ele list_add_tail module_of
alloc_ele-module_of text zero = refl
alloc_ele-module_of text (suc n) =
    let plain : 0 + suc n ≡ suc n = omega arith in
    let longer =
      subst
        (λ k.
          store (chain text 0 (suc n)) n (some (record { id = 0 + n; texte = text; next = some k }))
            ++ some (record { id = k; texte = text; next = none }) ∷ []
          ≡ chain text 0 (suc (suc n)))
        plain (store-chain text 0 n) in
    rw (load-chain text 0 n, length-chain text 0 (suc n))
      (ap (λ cells. ok (record { heap = cells; first = some 0; last = some (suc n) })) longer)

alloc_loop-module_of :
    (kzalloc : ℕ → Bool) (text : Bytes)
    → ((i : ℕ) → kzalloc i ≡ true)
    → (rounds i : ℕ)
    → alloc_loop kzalloc text rounds i (module_of text i) ≡ ok (module_of text (i + rounds))
unfolding alloc_loop
alloc_loop-module_of kzalloc text good zero i = ap (λ k. ok (module_of text k)) (omega arith)
alloc_loop-module_of kzalloc text good (suc rounds) i =
    let next : suc i ≡ i + 1 = omega arith in
    let end : i + 1 + rounds ≡ i + suc rounds = omega arith in
    rw (good i, alloc_ele-module_of text i, next)
      (alloc_loop-module_of kzalloc text good rounds (i + 1) ∙ ap (λ k. ok (module_of text k)) end)

-- A walk along the addresses, for at most `rounds` elements: their numbers and texts, and the address at
-- which it stops, none where the last of them has nothing behind it.
unfoldable pub walk : Heap → (rounds : ℕ) → Option ℕ → Outcome (List (ℕ × Bytes) × Option ℕ)
walk heap zero at = ok ([], at)
walk heap (suc rounds) none = ok ([], none)
walk heap (suc rounds) (some p) =
    and_then (load heap p)
      λ e. and_then (walk heap rounds e.next) λ (rest, at). ok ((e.id, e.texte) ∷ rest, at)

unfoldable pub entries : Bytes → (i n : ℕ) → List (ℕ × Bytes)
entries text i zero = []
entries text i (suc n) = (i, text) ∷ entries text (i + 1) n

load-append :
    (front : Heap) (e : Element) (rest : Heap) → load (front ++ some e ∷ rest) (length front) ≡ ok e
unfolding load
load-append [] e rest = refl
load-append (none ∷ front) e rest = load-append front e rest
load-append (some c ∷ front) e rest = load-append front e rest

-- A walk from an element on whose next one the rest of the walk is known.
walk-next :
    (text : Bytes) (n : ℕ) (front : Heap)
    → (let longer =
          front
          ++ some (record { id = length front; texte = text; next = some (length front + 1) })
            ∷ [] in
        walk (longer ++ chain text (length longer) (suc n)) (suc n) (some (length longer))
        ≡ ok (entries text (length longer) (suc n), none))
    → walk (front ++ chain text (length front) (suc (suc n))) (suc (suc n)) (some (length front))
      ≡ ok (entries text (length front) (suc (suc n)), none)
unfolding walk chain entries
walk-next text n front rest =
    rw (load-append front here (chain text (length front + 1) (suc n)), inner) refl
  where
    here : Element
    here = record { id = length front; texte = text; next = some (length front + 1) }

    longer : Heap
    longer = front ++ some here ∷ []

    behind :
        walk (longer ++ chain text (length front + 1) (suc n)) (suc n) (some (length front + 1))
        ≡ ok (entries text (length front + 1) (suc n), none)
    behind =
        subst
          (λ k.
            walk (longer ++ chain text k (suc n)) (suc n) (some k)
            ≡ ok (entries text k (suc n), none))
          (length-append front (some here ∷ [])) rest

    inner :
        walk
          (front ++ some here ∷ chain text (length front + 1) (suc n))
          (suc n)
          (some (length front + 1))
        ≡ ok (entries text (length front + 1) (suc n), none)
    inner =
        subst
          (λ cells.
            walk cells (suc n) (some (length front + 1))
            ≡ ok (entries text (length front + 1) (suc n), none))
          (append_assoc front (some here ∷ []) (chain text (length front + 1) (suc n))) behind

walk-chain :
    (text : Bytes) (n : ℕ) (front : Heap)
    → walk (front ++ chain text (length front) (suc n)) (suc n) (some (length front))
      ≡ ok (entries text (length front) (suc n), none)
unfolding walk chain entries
walk-chain text zero front =
    rw (load-append front (record { id = length front; texte = text; next = none }) []) refl
walk-chain text (suc n) front = walk-next text n front (
    walk-chain text n (
      front
      ++ some (record { id = length front; texte = text; next = some (length front + 1) }) ∷ []))

exit-module_of :
    (text : Bytes) (n : ℕ) → skeleton_exit (module_of text (suc n)) ≡ fault use_after_free
unfolding skeleton_exit for_each module_of load store chain
exit-module_of text zero = refl
exit-module_of text (suc n) = refl

-- Where every allocation succeeds, loading the module for n elements makes n cells of the memory,
-- so that a walk along their addresses from the list's head for n elements finds the numbers from
-- 0 to n - 1 in order, each with the module's text, and stops where nothing lies behind the last;
-- unloading it then reads memory that was given back exactly if n is at least 1.
pub list_holds_elements :
    (kzalloc : ℕ → Bool) (text : Bytes) (n : ℕ)
    → ((i : ℕ) → kzalloc i ≡ true)
    → (m : Module) × (skeleton_init kzalloc text (pos n) ≡ ok m)
      × (length m.heap ≡ n)
      × (walk m.heap n m.first ≡ ok (entries text 0 n, none))
      × ((skeleton_exit m ≡ fault use_after_free) ↔ (1 ≤ n))
unfolding skeleton_init module_of walk entries skeleton_exit for_each
list_holds_elements kzalloc text zero good = (empty, refl, refl, refl, ground arith)
list_holds_elements kzalloc text (suc n) good =
    let plain : 0 + suc n ≡ suc n = omega arith in
    (
      module_of text (suc n),
      alloc_loop-module_of kzalloc text good (suc n) 0 ∙ ap (λ k. ok (module_of text k)) plain,
      length-chain text 0 (suc n),
      walk-chain text n [],
      ((λ _. omega arith), (λ _. exit-module_of text n)),
    )
