-- ===== src/PollDevice.antt =====
-- Pilote_ex2/ex7_Op_Bloq/skeleton.c, a device that becomes ready when a button is pressed, and its
-- client environment/Ex7_Op_Bloq/main.c, which counts how often it was.
pub mod Presses
pub mod Loading
use csel.Cstd.{Outcome, ok, fault, and_then, signed_overflow}
use csel.Prelude.{
  Option, none, some, not, ℕ, ◌+◌, List, [], ◌∷◌, Bool, true, false, bit_and, ◌==◌, ℤ, pos, negsuc,
  ltb_ℤ, eqb_ℤ, if◌then◌else◌,
}

-- buttonPressed
pub record Buttons : Type 0 where
  pub button_pressed : Bool

-- The line that an interrupt logs.
pub data Message : Type 0 where
  k1_pressed k2_pressed k3_pressed : Message
  short_interrupt_of : (irq : ℕ) → Message

abbrev pub message_of : ℕ → Message
message_of irq =
    let irq_num = bit_and irq 3 in
    if irq_num == 0
    then k1_pressed
    else if irq_num == 2
    then k2_pressed
    else if irq_num == 3
    then k3_pressed
    else short_interrupt_of irq

unfoldable pub short_interrupt : ℕ → Buttons → Message × Buttons
short_interrupt irq b = (message_of irq, record b { button_pressed = true })

-- POLLIN and POLLPRI
abbrev pub ready_mask : ℕ
ready_mask = 3

-- The two halves of skeleton_poll: the test of `buttonPressed`, and its reset.
abbrev pub poll_mask : Buttons → ℕ
poll_mask b = if b.button_pressed then ready_mask else 0

abbrev pub poll_reset : Buttons → Buttons
poll_reset b = record b { button_pressed = false }

abbrev pub skeleton_read : (count : ℕ) → ℕ
skeleton_read count = 0

abbrev pub skeleton_write : (count : ℕ) → ℕ
skeleton_write count = count

-- The client: its count, an int, after select has returned, or failed.
unfoldable pub count_ready : ℤ → ℕ → Outcome ℕ
count_ready retval count =
    if eqb_ℤ retval (negsuc 0)
    then ok count
    else if ltb_ℤ (pos 0) retval
    then (if count == 2147483647 then fault signed_overflow else ok (count + 1))
    else ok count

-- What happens: an interrupt, at any time, or one half of skeleton_poll, which the client's select calls. A
-- select for which it returns 0 goes to sleep and does not return.
pub data Event : Type 0 where
  interrupt : (irq : ℕ) → Event
  poll_tests poll_resets : Event

-- `polling` is the mask of a skeleton_poll between its halves.
pub record System : Type 0 where
  pub buttons : Buttons
  pub polling : Option ℕ
  pub count : ℕ

abbrev pub tested : System → System
tested s = elim s.polling [
  | none ↦ record s { polling = some (poll_mask s.buttons) }
  | some mask ↦ s
]

abbrev pub returned : System → Outcome System
returned s = elim s.polling [
  | none ↦ ok s
  | some mask ↦
      and_then (if mask == 0 then ok s.count else count_ready (pos 1) s.count)
        λ count. ok (record { buttons = poll_reset s.buttons; polling = none; count = count })
]

unfoldable pub step : System → Event → Outcome System
unfolding short_interrupt count_ready
step s (interrupt irq) = ok (record s { buttons = (short_interrupt irq s.buttons).1 })
step s poll_tests = ok (tested s)
step s poll_resets = returned s

unfoldable pub run : System → List Event → Outcome System
unfolding step
run s [] = ok s
run s (e ∷ es) = and_then (step s e) λ s'. run s' es

-- What is registered with the kernel: the device, and the three pins of the buttons.
pub record Held : Type 0 where
  pub misc : Bool
  pub key0 : Bool
  pub key1 : Bool
  pub key2 : Bool

-- The answers of misc_register, and of gpio_is_valid and gpio_request for each key.
pub record Answers : Type 0 where
  pub misc : ℤ
  pub valid0 : ℤ
  pub request0 : ℤ
  pub valid1 : ℤ
  pub request1 : ℤ
  pub valid2 : ℤ
  pub request2 : ℤ

abbrev pub key_fails : (valid request : ℤ) → Bool
key_fails valid request = if eqb_ℤ valid (pos 0) then true else ltb_ℤ request (pos 0)

-- The numbers of the interrupts are unsigned, so that the test of them for an error never holds; the
-- results of request_irq are only printed.
unfoldable pub skeleton_init : Answers → Held → ℤ × Held
skeleton_init a h =
    if not (eqb_ℤ a.misc (pos 0))
    then (a.misc, h)
    else let h0 = record h { misc = true } in
      if key_fails a.valid0 a.request0
      then (negsuc 0, h0)
      else let h1 = record h0 { key0 = true } in
        if key_fails a.valid1 a.request1
        then (negsuc 0, h1)
        else let h2 = record h1 { key1 = true } in
          if key_fails a.valid2 a.request2
          then (negsuc 0, h2)
          else (pos 0, record h2 { key2 = true })

unfoldable pub skeleton_exit : Held → Held
skeleton_exit h = record { misc = false; key0 = false; key1 = false; key2 = false }
