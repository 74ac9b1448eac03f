-- ===== src/PollDevice/Presses.antt =====
-- How the client's count follows the presses.
use csel.Prelude.{
  ℕ, ◌+◌, ◌≤◌, ◌≡◌, refl, ap, ◌↔◌, none, some, List, [], ◌∷◌, Bool, true, false, Option-cases,
  Bool-cases, inl, inr, arith, ◌==◌, if◌then◌else◌,
}
use csel.Cstd.{ok}
use csel.PollDevice.{
  tested, Event, interrupt, poll_tests, poll_resets, System, step, run, short_interrupt,
  count_ready, poll_reset,
}

-- A skeleton_poll is between its halves after this event, if it was so before or not.
abbrev pub inside : Event → Bool → Bool
inside (interrupt irq) polling = polling
inside poll_tests polling = true
inside poll_resets polling = false

-- The presses that do not come between the halves of a skeleton_poll.
unfoldable pub timely_presses : Bool → List Event → ℕ
timely_presses polling [] = 0
timely_presses polling (interrupt irq ∷ es) = timely_presses polling es + (if polling then 0 else 1)
timely_presses polling (poll_tests ∷ es) = timely_presses true es
timely_presses polling (poll_resets ∷ es) = timely_presses false es

abbrev pub is_polling : System → Bool
is_polling s = elim s.polling [ none ↦ false | some mask ↦ true ]

-- The presses that were counted, and one that is still to be: that a running skeleton_poll has found, or that
-- none has looked for yet.
abbrev pub seen : System → ℕ
seen s = s.count + elim s.polling [
  | none ↦ if s.buttons.button_pressed then 1 else 0
  | some mask ↦ if mask == 0 then 0 else 1
]

abbrev pub new_press : System → Event → ℕ
new_press s (interrupt irq) = if is_polling s then 0 else 1
new_press s poll_tests = 0
new_press s poll_resets = 0

timely_presses-step :
    (s : System) (e : Event) (es : List Event)
    → timely_presses (is_polling s) (e ∷ es)
      ≡ new_press s e + timely_presses (inside e (is_polling s)) es
unfolding timely_presses
timely_presses-step s (interrupt irq) es = omega arith
timely_presses-step s poll_tests es = omega arith
timely_presses-step s poll_resets es = omega arith

-- One event counts what is timely, at most.
abbrev pub Follows : System → Event → System → Type 0
Follows s e s' =
    (is_polling s' ≡ inside e (is_polling s))
    × (seen s ≤ seen s')
    × (seen s' ≤ seen s + new_press s e)
    × ((seen s' ≡ 0) ↔ (seen s + new_press s e ≡ 0))

step-Follows :
    (s : System) (e : Event)
    → seen s ≤ 2147483647
    → (s' : System) × (step s e ≡ ok s') × Follows s e s'
unfolding step short_interrupt count_ready
step-Follows s (interrupt irq) h = (_, refl, ground arith)
step-Follows s poll_tests h = elim (Option-cases s.polling) [
  | inl idle ↦ (tested s, refl, ground (arith, idle))
  | inr (mask, busy) ↦ (tested s, refl, ground (arith, busy))
]
step-Follows s poll_resets h = elim (Option-cases s.polling) [
  | inl idle ↦ (s, ground (arith, idle), ground (arith, idle))
  | inr (mask, busy) ↦ elim (Bool-cases (mask == 0)) [
    | inl asleep ↦ (
      record { buttons = poll_reset s.buttons; polling = none; count = s.count },
      ground (arith, busy),
      ground (arith, busy),
    )
    | inr ready ↦ (
      record { buttons = poll_reset s.buttons; polling = none; count = s.count + 1 },
      ground (arith, busy),
      ground (arith, busy),
    )
  ]
]

-- Through any interrupts, tests and resets of the poll, an interrupt also between a test and its
-- reset, the client's count, with one added while a press waits to be counted (one that the
-- running poll has found, or outside of a poll one that none has looked for), never falls, and
-- grows by at most the number of the presses that come outside of a poll; it is 0 at the end
-- exactly if it was 0 and no button was pressed outside of a poll. The count stays in int where
-- it and these presses are at most 2147483647 together.
pub count_follows_presses :
    (s : System) (es : List Event)
    → seen s + timely_presses (is_polling s) es ≤ 2147483647
    → (s' : System) × (run s es ≡ ok s')
      × (seen s ≤ seen s')
      × (seen s' ≤ seen s + timely_presses (is_polling s) es)
      × ((seen s' ≡ 0) ↔ ((seen s ≡ 0) × (timely_presses (is_polling s) es ≡ 0)))
unfolding run timely_presses
count_follows_presses s [] h = (s, refl, omega arith, omega arith, ground arith)
count_follows_presses s (e ∷ es) h =
    let split = timely_presses-step s e es in
    let (s1, stepped, (polls, grows, few, none_1)) = step-Follows s e (omega arith) in
    let left : timely_presses (is_polling s1) es ≡ timely_presses (inside e (is_polling s)) es =
      ap (λ polling. timely_presses polling es) polls in
    let (s2, ran, grows_2, few_2, none_2) = count_follows_presses s1 es (omega arith) in
    (s2, rw stepped ran, omega arith, omega arith, ground arith)
