-- ===== src/Cstd/Fault.antt =====
-- Undefined behaviour as a value: the result of a computation, or the first fault that it runs into.
use mathlib.Core.Path.{◌≡◌, refl}

pub data Fault : Type 0 where
  -- a write behind the end of an array
  buffer_overflow : Fault
  -- a read behind the end of an array
  over_read : Fault
  -- a write behind the end of memory that was allocated
  heap_overflow : Fault
  -- more calls inside each other than the stack has room for
  stack_overflow : Fault
  null_pointer : Fault
  -- an access through a pointer that an error value stands in
  invalid_pointer : Fault
  div_by_zero : Fault
  -- arithmetic in `int` that leaves the range of `int`
  signed_overflow : Fault
  -- a read of memory that was given back
  use_after_free : Fault

pub data Outcome {ℓ} (A : Type ℓ) : Type ℓ where
  ok : A → Outcome A
  fault : Fault → Outcome A

module _ {ℓ κ} {A : Type ℓ} {B : Type κ} where
  abbrev pub and_then : Outcome A → (A → Outcome B) → Outcome B
  and_then (ok a) f = f a
  and_then (fault e) f = fault e

  pub and_then-eq-ok :
      (m : Outcome A) (f : A → Outcome B) {b : B}
      → and_then m f ≡ ok b
      → (a : A) × (m ≡ ok a) × (f a ≡ ok b)
  and_then-eq-ok (ok a) f h = (a, refl, h)
  and_then-eq-ok (fault e) f h = cc
