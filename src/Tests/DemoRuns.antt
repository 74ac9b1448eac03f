-- ===== src/Tests/DemoRuns.antt =====
-- Runs of the small programs: the numbers of Fibonacci, and the list that leaks.
use csel.Prelude.{
  length, none, ℕ, ◌+◌, ◌≡◌, ◌≤◌, ◌↔◌, refl, Bool, true, false, [], ◌∷◌, leb, if◌then◌else◌, some,
  pos, negsuc,
}
use csel.Cstd.{codes, ok, fault, signed_overflow, use_after_free, null_pointer}
use csel.Fibonacci
use csel.Fibonacci.Series.{references, main-references}
use csel.ElementList
use csel.ElementList.{Module}
use csel.ElementList.Chain.{walk, entries, list_holds_elements}
use csel.Leaks

main-references_example :
    Fibonacci.main (some (pos 10))
    ≡ (if leb 10 92 then ok (references (10 + 1) 0) else fault signed_overflow)
main-references_example = main-references 10

below_zero : Fibonacci.main (some (negsuc 4)) ≡ ok []
unfolding Fibonacci.main
below_zero = refl

abbrev granted : ℕ → Bool
granted i = true

five : Leaks.main granted 5 2 ≡ ok (1 ∷ 1 ∷ 2 ∷ [])
unfolding Leaks.main
five = refl

list_holds_elements_example :
    (m : Module) × (ElementList.skeleton_init granted (codes "salut") (pos 3) ≡ ok m)
    × (length m.heap ≡ 3)
    × (walk m.heap 3 m.first ≡ ok (entries (codes "salut") 0 3, none))
    × ((ElementList.skeleton_exit m ≡ fault use_after_free) ↔ (1 ≤ 3))
list_holds_elements_example = list_holds_elements granted (codes "salut") 3 (λ i. refl)

abbrev refused : ℕ → Bool
refused i = false

no_memory : ElementList.skeleton_init refused (codes "salut") (pos 1) ≡ fault null_pointer
unfolding ElementList.skeleton_init
no_memory = refl
