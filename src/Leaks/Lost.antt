-- ===== src/Leaks/Lost.antt =====
-- What main leaves allocated.
use csel.Prelude.{
  ℕ, zero, suc, ◌+◌, ◌-◌, ◌/◌, ◌%◌, ◌≡◌, refl, ap, ◌∙◌, Bool-cases, inl, inr, List, [], ◌∷◌, Bool,
  true, ◌==◌, length, drop, length-drop, arith,
}
use csel.Cstd.{Outcome, ok}
use csel.Leaks.{State, append_last, alloc, dealloc, alloc_loop, dealloc_loop, start, main}

-- The halves of the numbers from `i` on: 0, 0, 1, 1, ...
unfoldable pub halves : (i n : ℕ) → List ℕ
halves i zero = []
halves i (suc n) = i / 2 ∷ halves (i + 1) n

length-halves : (i n : ℕ) → length (halves i n) ≡ n
unfolding halves
length-halves i zero = refl
length-halves i (suc n) = ap suc (length-halves (i + 1) n)

append_last-halves : (i n : ℕ) → append_last (halves i n) ((i + n) / 2) ≡ halves i (suc n)
unfolding halves
append_last-halves i zero = ap (λ k. k / 2 ∷ []) (omega arith)
append_last-halves i (suc n) =
    let shift : i + suc n ≡ i + 1 + n = omega arith in
    rw shift (ap (λ rest. i / 2 ∷ rest) (append_last-halves (i + 1) n))

-- After n allocations.
abbrev after : ℕ → State
after n = record { root = halves 0 n; x = n % 2; cnt1 = (n + 1) / 2; cnt2 = n / 2 }

same_state :
    (r r' : List ℕ) (x x' c c' k k' : ℕ)
    → r ≡ r'
    → x ≡ x'
    → c ≡ c'
    → k ≡ k'
    → Path
        (Outcome State)
        (ok (record { root = r; x = x; cnt1 = c; cnt2 = k }))
        (ok (record { root = r'; x = x'; cnt1 = c'; cnt2 = k' }))
same_state r r' x x' c c' k k' e f g h = cc

alloc-after : (n : ℕ) → alloc true (after n) ≡ ok (after (suc n))
unfolding alloc
alloc-after n = elim (Bool-cases (n % 2 == 0)) [
  | inl even ↦
      let half : (n + 1) / 2 ≡ n / 2 = ground arith in
      let grown : append_last (halves 0 n) ((n + 1) / 2) ≡ halves 0 (suc n) =
        ap (append_last (halves 0 n)) (ground arith) ∙ append_last-halves 0 n in
      rw even (same_state _ _ _ _ _ _ _ _ grown (ground arith) (ground arith) (ground arith))
  | inr odd ↦
      let grown : append_last (halves 0 n) (n / 2) ≡ halves 0 (suc n) =
        ap (append_last (halves 0 n)) (ground arith) ∙ append_last-halves 0 n in
      rw odd (same_state _ _ _ _ _ _ _ _ grown (ground arith) (ground arith) (ground arith))
]

alloc_loop-after :
    (malloc : ℕ → Bool)
    → ((i : ℕ) → malloc i ≡ true)
    → (rounds i : ℕ) → alloc_loop malloc rounds i (after i) ≡ ok (after (i + rounds))
unfolding alloc_loop
alloc_loop-after malloc good zero i = ap (λ k. ok (after k)) (omega arith)
alloc_loop-after malloc good (suc rounds) i =
    let next : suc i ≡ i + 1 = omega arith in
    let end : i + 1 + rounds ≡ i + suc rounds = omega arith in
    rw (good i, alloc-after i, next)
      (alloc_loop-after malloc good rounds (i + 1) ∙ ap (λ k. ok (after k)) end)

drop_nil : (k : ℕ) → drop {A = ℕ} k [] ≡ []
drop_nil zero = refl
drop_nil (suc k) = refl

dealloc_loop-root :
    (k : ℕ) (r : List ℕ) (x c e : ℕ)
    → (dealloc_loop k (record { root = r; x = x; cnt1 = c; cnt2 = e })).root ≡ drop k r
unfolding dealloc_loop dealloc
dealloc_loop-root zero r x c e = refl
dealloc_loop-root (suc k) [] x c e = dealloc_loop-root k [] x c e ∙ drop_nil k
dealloc_loop-root (suc k) (a ∷ r) x c e = dealloc_loop-root k r x c e

-- Where every allocation succeeds, the list that main leaves after a number of allocations and of
-- deallocations has the attributes 0, 0, 1, 1, 2 and so on of the allocations in order, without
-- the first ones, one for each deallocation: as many elements stay allocated as there were more
-- allocations than deallocations.
pub main_leaves :
    (malloc : ℕ → Bool) (allocs deallocs : ℕ)
    → ((i : ℕ) → malloc i ≡ true)
    → (main malloc allocs deallocs ≡ ok (drop deallocs (halves 0 allocs)))
      × (length (drop deallocs (halves 0 allocs)) ≡ allocs - deallocs)
unfolding main halves
main_leaves malloc allocs deallocs good =
    let zero_sum : 0 + allocs ≡ allocs = omega arith in
    let ran : alloc_loop malloc allocs 0 start ≡ ok (after allocs) =
      alloc_loop-after malloc good allocs 0 ∙ ap (λ k. ok (after k)) zero_sum in
    let all = length-halves 0 allocs in
    let left = length-drop deallocs (halves 0 allocs) in
    (rw ran (ap ok (dealloc_loop-root deallocs (halves 0 allocs) _ _ _)), omega arith)
