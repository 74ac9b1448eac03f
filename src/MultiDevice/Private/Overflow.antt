-- ===== src/MultiDevice/Private/Overflow.antt =====
-- The array of the devices is too small for them.
use native.Mathlib.Nat.{mul-le-mul_left}
use csel.Prelude.{
  ℕ, zero, suc, ◌+◌, ◌*◌, ◌≤◌, ◌≡◌, ◌≢◌, ◌⊎◌, inl, inr, true, pos, negsuc, arith, refl, Bool-cases,
  ℤ, eqb_ℤ, ◌≤ℤ◌, sym, ltb, leb, length,
}
use csel.Cstd.{Outcome, ok, fault, and_then, buffer_overflow, heap_overflow, sprintf, format_int}
use csel.Cstd.Laws.{length-digits-le}
use csel.MultiDevice.Private.{
  device_name, Layout, Answers, fill, register_devices, skeleton_probe, nothing,
}

-- The fields of struct miscdevice stand in this order, and the three take three pointers, with the padding.
abbrev pub IsDocumented : Layout → Type 0
IsDocumented l =
    (1 ≤ l.pointer)
    × (1 ≤ l.minor_end)
    × (l.minor_end ≤ l.name_end)
    × (l.name_end + l.pointer ≤ l.fops_end)
    × (2 * l.pointer ≤ l.name_end)
    × (l.fops_end ≤ l.miscdevice)

-- The names of the first ten devices fit their nine bytes.
name_fits : (i : ℕ) → i ≤ 9 → leb (length (device_name i) + 1) 9 ≡ true
unfolding format_int
name_fits i h = let few = length-digits-le (suc i) i 0 (omega arith) in ground arith

-- A write behind the array of the devices, or behind the name of a device from the eleventh on.
abbrev pub Overflows : {A : Type 0} → (devices : ℕ) → Outcome A → Type 0
Overflows devices m = (m ≡ fault heap_overflow) ⊎ ((m ≡ fault buffer_overflow) × (11 ≤ devices))

fill-cases :
    (l : Layout) (size i : ℕ)
    → Overflows (i + 1) (fill l size i)
      ⊎ ((fill l size i ≡ ok tt) × (i * l.miscdevice + l.fops_end ≤ size))
unfolding fill sprintf
fill-cases l size i = elim (Bool-cases (ltb i 10)) [
  | inl low ↦ let name = name_fits i (ground arith) in ground arith
  | inr high ↦ ground arith
]

-- The last of the devices does not fit.
last-overflow :
    (l : Layout) (i : ℕ) → IsDocumented l → Overflows (i + 1) (fill l (l.pointer * suc i) i)
last-overflow l i h =
    let each : i * l.pointer ≤ i * l.miscdevice = mul-le-mul_left i (omega arith) in
    let all : l.pointer * suc i ≡ i * l.pointer + l.pointer = omega arith in
    elim (fill-cases l (l.pointer * suc i) i) [
      | inl full ↦ full
      | inr (filled, fits) ↦ absurd (omega arith)
    ]

-- What comes before and behind a write that overflows.
Overflows-and_then :
    {A B : Type 0} (few many : ℕ) (m : Outcome A) (f : A → Outcome B)
    → few ≤ many
    → Overflows few m
    → Overflows many (and_then m f)
Overflows-and_then few many m f h (inl full) = inl (rw full refl)
Overflows-and_then few many m f h (inr (full, n)) = inr (rw full refl, omega arith)

-- The load stopped at a device that misc_register refused.
abbrev pub Refused : Answers → Outcome (ℤ × ℕ) → Type 0
Refused a m = (k : ℕ) × (m ≡ ok (a.register k, k)) × (a.register k ≢ pos 0)

-- The loop stops at a device that is refused, or at one that does not fit.
register-Refused :
    (l : Layout) (a : Answers) (size r i : ℕ)
    → IsDocumented l
    → size ≡ l.pointer * suc (i + r)
    → Overflows (i + suc r) (register_devices l a size (suc r) i)
      ⊎ Refused a (register_devices l a size (suc r) i)
unfolding register_devices
register-Refused l a size zero i h same =
    let last : size ≡ l.pointer * suc i = omega arith in
    inl (
      rw last (
        Overflows-and_then (i + 1) (i + 1) (fill l (l.pointer * suc i) i) _ (omega arith)
          (last-overflow l i h)))
register-Refused l a size (suc r) i h same = elim (fill-cases l size i) [
  | inl full ↦
      inl (Overflows-and_then (i + 1) (i + suc (suc r)) (fill l size i) _ (omega arith) full)
  | inr (fits, _) ↦ elim (Bool-cases (eqb_ℤ (a.register i) (pos 0))) [
    | inr refused ↦ inr (i, rw (fits, refused) refl, ground arith)
    | inl taken ↦
        let more : i + 1 + suc r ≡ i + suc (suc r) = omega arith in
        rw (fits, taken, sym more) (register-Refused l a size r (i + 1) h (omega arith))
  ]
]

-- Where the fields of struct miscdevice lie one behind the other, no load succeeds: it writes
-- behind the end of the array of the devices; or, for 11 devices or more, behind the end of the
-- array of a device's name; or it returns an error. The error leaves nothing allocated or
-- registered, or it is that of the device k, which misc_register refused, and the two allocations
-- and k devices stay behind.
pub probe_never_loads :
    (l : Layout) (a : Answers) (nb_devices : ℤ)
    → IsDocumented l
    → (skeleton_probe l a nb_devices ≡ fault heap_overflow)
      ⊎ ((skeleton_probe l a nb_devices ≡ fault buffer_overflow) × (pos 11 ≤ℤ nb_devices))
      ⊎ ((e : ℤ) × (k : ℕ) × (e ≢ pos 0)
          × ((skeleton_probe l a nb_devices ≡ ok (e, nothing))
              ⊎ ((a.register k ≡ e)
                  × (skeleton_probe l a nb_devices
                      ≡ ok (e, record { private = true; mymisc = true; devices = k })))))
unfolding skeleton_probe
probe_never_loads l a (negsuc n) h = inr (inr (negsuc 0, 0, (λ e. cc), inl refl))
probe_never_loads l a (pos zero) h = inr (inr (negsuc 0, 0, (λ e. cc), inl refl))
probe_never_loads l a (pos (suc n)) h = elim (Bool-cases a.private) [
  | inr none_1 ↦ inr (inr (negsuc 11, 0, (λ e. cc), inl (rw none_1 refl)))
  | inl some_1 ↦ elim (Bool-cases a.mymisc) [
    | inr none_2 ↦ inr (inr (negsuc 11, 0, (λ e. cc), inl (rw (some_1, none_2) refl)))
    | inl some_2 ↦ elim (register-Refused l a (l.pointer * suc n) n 0 h (ground arith)) [
      | inl (inl full) ↦ inl (rw (some_1, some_2, full) refl)
      | inl (inr (full, many)) ↦ inr (inl (rw (some_1, some_2, full) refl, ground arith))
      | inr (k, stops, refused) ↦
          inr (inr (a.register k, k, refused, inr (refl, rw (some_1, some_2, stops) refl)))
    ]
  ]
]
