-- ===== src/ButtonIrq/Unloading.antt =====
-- What a load leaves behind, and what unloading gives back.
use csel.Prelude.{
  ℕ, ◌+◌, ◌≡◌, ◌↔◌, ◌⊎◌, List, [], ◌∷◌, false, pos, negsuc, eqb_ℤ, arith, if◌then◌else◌,
}
use csel.ButtonIrq.{Key, key_fails, skeleton_init, skeleton_exit, nothing}

-- The pins that are taken before the first key that fails.
abbrev pub pins_before : (k0 k1 k2 : Key) → List ℕ
pins_before k0 k1 k2 =
    if key_fails k0
    then []
    else if key_fails k1
    then 0 ∷ []
    else if key_fails k2
    then 2 ∷ 0 ∷ []
    else 3 ∷ 2 ∷ 0 ∷ []

abbrev pub refused : Key → ℕ
refused k = if eqb_ℤ k.handler (pos 0) then 0 else 1

-- A load returns 0 exactly if all keys are valid and their pins are granted, and -1 otherwise; it
-- holds the pins of the keys before the first that fails, also when it returns -1. Unloading after
-- a load that returned 0 gives back all pins and handlers, and frees once, without holding it,
-- each handler that request_irq has refused.
pub load_and_unload :
    (k0 k1 k2 : Key)
    → let (ret, held) = skeleton_init k0 k1 k2 nothing in
      ((ret ≡ pos 0) ↔ ((key_fails k0 ≡ false) × (key_fails k1 ≡ false) × (key_fails k2 ≡ false)))
      × ((ret ≡ pos 0) ⊎ (ret ≡ negsuc 0))
      × (held.gpios ≡ pins_before k0 k1 k2)
      × ((ret ≡ pos 0)
          → skeleton_exit k0 k1 k2 held
            ≡ record { gpios = []; irqs = []; unmatched = refused k0 + refused k1 + refused k2 })
unfolding skeleton_init skeleton_exit
load_and_unload k0 k1 k2 = ground arith
