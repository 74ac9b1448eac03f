-- ===== src/ButtonIrq.antt =====
-- modules_Ex/module_interrupt_6/skeleton.c: a module that logs the presses of three buttons.
pub mod Unloading
use csel.Prelude.{
  ℕ, zero, suc, ◌+◌, List, [], ◌∷◌, Bool, true, false, bit_and, ◌==◌, ℤ, pos, negsuc, ltb_ℤ, eqb_ℤ,
  if◌then◌else◌,
}

-- The line that an interrupt logs.
pub data Message : Type 0 where
  k1_pressed k2_pressed k3_pressed : Message
  other_interrupt : (irq : ℕ) → Message

unfoldable pub short_interrupt : ℕ → Message
short_interrupt irq =
    let irq_num = bit_and irq 3 in
    if irq_num == 0
    then k1_pressed
    else if irq_num == 2
    then k2_pressed
    else if irq_num == 3
    then k3_pressed
    else other_interrupt irq

-- What the kernel answers for a key: gpio_is_valid, gpio_request, gpio_to_irq as an unsigned number, and
-- request_irq.
pub record Key : Type 0 where
  pub valid : ℤ
  pub request : ℤ
  pub irq : ℕ
  pub handler : ℤ

-- The pins and the handlers that the module holds; `unmatched` counts what it has freed without
-- holding it.
pub record Held : Type 0 where
  pub gpios : List ℕ
  pub irqs : List ℕ
  pub unmatched : ℕ

abbrev pub key_fails : Key → Bool
key_fails k = if eqb_ℤ k.valid (pos 0) then true else ltb_ℤ k.request (pos 0)

-- The three calls for a key; the number of its interrupt is unsigned, and passes the test for an error.
abbrev pub take_key : ℕ → Key → Held → ℤ × Held
take_key pin k h =
    if key_fails k then (negsuc 0, h) else (pos 0, record h { gpios = pin ∷ h.gpios })

-- request_irq, whose result is only printed.
abbrev pub add_handler : Key → Held → Held
add_handler k h = if eqb_ℤ k.handler (pos 0) then record h { irqs = k.irq ∷ h.irqs } else h

abbrev pub then_take : ℤ × Held → (Held → ℤ × Held) → ℤ × Held
then_take (pos zero, h) next = next h
then_take (e, h) next = (e, h)

-- KEY0, KEY1 and KEY2 are the pins 0, 2 and 3.
unfoldable pub skeleton_init : (k0 k1 k2 : Key) → Held → ℤ × Held
skeleton_init k0 k1 k2 h = then_take (take_key 0 k0 h) λ h0. then_take (take_key 2 k1 h0) λ h1.
    then_take (take_key 3 k2 h1) λ h2. (pos 0, add_handler k2 (add_handler k1 (add_handler k0 h2)))

-- One entry taken out of a list, and whether it was there.
abbrev pub taken_out : ℕ → List ℕ → Bool × List ℕ
taken_out n [] = (false, [])
taken_out n (x ∷ xs) =
    let (found, rest) = taken_out n xs in if x == n then (true, xs) else (found, x ∷ rest)

abbrev pub unmatched_by : Bool → ℕ → ℕ
unmatched_by true n = n
unmatched_by false n = n + 1

abbrev pub gpio_free : ℕ → Held → Held
gpio_free pin h =
    let (found, rest) = taken_out pin h.gpios in
    record h { gpios = rest; unmatched = unmatched_by found h.unmatched }

abbrev pub free_irq : ℕ → Held → Held
free_irq irq h =
    let (found, rest) = taken_out irq h.irqs in
    record h { irqs = rest; unmatched = unmatched_by found h.unmatched }

-- The keys are those of the load.
unfoldable pub skeleton_exit : (k0 k1 k2 : Key) → Held → Held
skeleton_exit k0 k1 k2 h =
    free_irq k2.irq (free_irq k1.irq (free_irq k0.irq (gpio_free 3 (gpio_free 2 (gpio_free 0 h)))))

abbrev pub nothing : Held
nothing = record { gpios = []; irqs = []; unmatched = 0 }
