-- ===== src/MultiDevice/Loading.antt =====
-- How many devices a load can make.
use csel.Prelude.{
  ℕ, zero, suc, ◌+◌, ◌≤◌, ◌≡◌, refl, ◌⊎◌, inl, inr, ◌↔◌, List, [], ◌∷◌, true, false, leb, ltb,
  Bool-cases, length, All, arith, subst, eqb_ℤ, ℤ, pos,
}
use csel.Cstd.{ok, fault, and_then, and_then-eq-ok, over_read, buffer_overflow, sprintf, format_int}
use csel.Cstd.Laws.{length-digits-le, lt-length-digits}
use csel.MultiDevice.{Answers, device_name, register_devices, deregister_devices, skeleton_init}

-- misc_register took the device.
abbrev pub IsTaken : ℤ × ℤ → Type 0
IsTaken (error, minor) = error ≡ pos 0

name_fits : (i : ℕ) → i ≤ 99 → leb (length (device_name i) + 1) 10 ≡ true
unfolding format_int
name_fits i h = let few = length-digits-le (suc i) i 1 (omega arith) in ground arith

name_overflows : (i : ℕ) → 100 ≤ i → leb (length (device_name i) + 1) 10 ≡ false
unfolding format_int
name_overflows i h = let many = lt-length-digits (suc i) i 2 (omega arith) h in ground arith

-- A load that has all answers it wants: the loop stops at a name that is too long, or takes every device.
register_taken :
    (rounds i : ℕ) (answers : List (ℤ × ℤ))
    → All IsTaken answers
    → rounds ≤ length answers
    → i ≤ 100
    → ((register_devices rounds i answers ≡ fault buffer_overflow) × (101 ≤ i + rounds))
      ⊎ ((minors : List ℤ) × (register_devices rounds i answers ≡ ok (pos 0, minors))
          × (length minors ≡ rounds)
          × (i + rounds ≤ 100))
unfolding register_devices sprintf
register_taken zero i answers good enough h = inr ([], refl, refl, omega arith)
register_taken (suc rounds) i [] good enough h = absurd (omega arith)
register_taken (suc rounds) i ((error, minor) ∷ answers) good enough h =
    elim (Bool-cases (ltb i 100)) [
      | inl low ↦ elim (register_taken rounds (i + 1) answers good.1 (omega arith) (ground arith)) [
        | inl (stops, far) ↦ inl (rw (name_fits i (ground arith), good.0, stops) refl, omega arith)
        | inr (minors, all, n, near) ↦ inr (
          minor ∷ minors,
          rw (name_fits i (ground arith), good.0, all) refl,
          omega arith,
          omega arith,
        )
      ]
      | inr high ↦ inl (rw (name_overflows i (ground arith)) refl, ground arith)
    ]

-- Where the first allocation succeeds and misc_register takes every device, loading the module
-- for n devices reads outside of an array exactly if n is 0, and writes outside of one exactly if
-- n is more than 100: the names of the first hundred fit their ten bytes.
pub device_count_bounds :
    (n : ℕ) (a : Answers)
    → a.mymisc ≡ true
    → All IsTaken a.registers
    → n ≤ length a.registers
    → ((skeleton_init (pos n) a ≡ fault over_read) ↔ (n ≡ 0))
      × ((skeleton_init (pos n) a ≡ fault buffer_overflow) ↔ (101 ≤ n))
unfolding skeleton_init
device_count_bounds n a got good enough =
    elim (register_taken n 0 a.registers good enough (omega arith)) [
      | inl (stops, far) ↦ rw (got, stops) (ground arith)
      | inr ([], all, count, near) ↦ rw (got, all) (ground arith)
      | inr (m ∷ minors, all, count, near) ↦ rw (got, all) (ground arith)
    ]

-- A loop that returned 0 has registered a device in each round.
register-length :
    (rounds i : ℕ) (answers : List (ℤ × ℤ)) (minors : List ℤ)
    → register_devices rounds i answers ≡ ok (pos 0, minors)
    → length minors ≡ rounds
unfolding register_devices sprintf
register-length zero i answers minors e = let none : minors ≡ [] = cc in rw none refl
register-length (suc rounds) i [] minors e = absurd cc
register-length (suc rounds) i ((error, minor) ∷ answers) minors e =
    let (_, named, e1) = and_then-eq-ok (sprintf 10 (device_name i)) _ e in
    elim (Bool-cases (eqb_ℤ error (pos 0))) [
      | inl taken ↦
          let e2 : and_then (register_devices rounds (i + 1) answers)
                (λ (ret, ms). ok (ret, minor ∷ ms))
              ≡ ok (pos 0, minors) =
            rw taken at e1 in
          let ((ret, ms), ran, last) =
            and_then-eq-ok (register_devices rounds (i + 1) answers) _ e2 in
          let whole : minor ∷ ms ≡ minors = cc in
          let shorter = register-length rounds (i + 1) answers ms (cc (ran, last)) in
          subst (λ x. length x ≡ suc rounds) whole (omega arith)
      | inr refused ↦
          let e2 : ok (error, []) ≡ ok (pos 0, minors) = rw refused at e1 in
          let zero_error : error ≡ pos 0 = cc in absurd (ground arith)
    ]

deregister_lem : (minors : List ℤ) → deregister_devices (length minors) minors ≡ ok []
unfolding deregister_devices
deregister_lem [] = refl
deregister_lem (m ∷ minors) = deregister_lem minors
