-- ===== src/Devicetree/Arrays.antt =====
-- Pilote_ex2/ex6_dtb/skeleton_1.c: the children of the node whose attribute is on, as devices in the two
-- arrays of Pilote_ex2/ex3_fops_base_2, which are read and written as there.
pub mod Reach
use csel.Prelude.{
  ℕ, zero, suc, ◌+◌, List, [], ◌∷◌, Bool, true, false, not, Option, none, some, if◌then◌else◌,
  replicate, ℤ, pos, eqb_ℤ,
}
use csel.Cstd.{Bytes, Outcome, ok, fault, and_then, buffer_overflow}
use csel.Devicetree.{Child, is_on, count_device_on, children_of, upto}
use csel.MultiDevice
use csel.MultiDevice.{Devices, Answers, enomem, first_minor, allocate}

abbrev pub skeleton_read : Devices → ℤ → Bool → (count ppos left : ℕ) → Outcome (ℕ × ℕ × Bytes)
skeleton_read = MultiDevice.skeleton_read

abbrev pub skeleton_write : Devices → ℤ → Bytes → (ppos left : ℕ) → Outcome (ℕ × ℕ × Devices)
skeleton_write = MultiDevice.skeleton_write

-- mymisc[i], of which the minor number is kept.
unfoldable pub put_minor : List ℤ → ℕ → ℤ → Outcome (List ℤ)
put_minor [] i minor = fault buffer_overflow
put_minor (m ∷ ms) zero minor = ok (minor ∷ ms)
put_minor (m ∷ ms) (suc i) minor = and_then (put_minor ms i minor) λ rest. ok (m ∷ rest)

-- The loop over the children: the result, and the minor numbers. `answer` is what misc_register returns
-- for the device i, and the number that it gives.
unfoldable pub register_children :
    (answer : ℕ → ℤ × ℤ) → List Child → (i : ℕ) → List ℤ → Outcome (ℤ × List ℤ)
unfolding is_on put_minor
register_children answer [] i mymisc = ok (pos 0, mymisc)
register_children answer (child ∷ children) i mymisc = elim (is_on child) [
  | false ↦ register_children answer children i mymisc
  | true ↦ and_then (put_minor mymisc i (answer i).1) λ filled.
      let rest = register_children answer children (i + 1) filled in
      if eqb_ℤ (answer i).0 (pos 0) then rest else ok ((answer i).0, filled)
]

-- The result, and the devices. The allocations are those of `a`.
unfoldable pub skeleton_probe :
    Answers → (answer : ℕ → ℤ × ℤ) → Option (List Child) → Outcome (ℤ × Option Devices)
unfolding register_children count_device_on children_of
skeleton_probe a answer dt_node =
    let nb_devices = count_device_on (children_of dt_node) in
    if not a.mymisc
    then ok (enomem, none)
    else and_then (register_children answer (children_of dt_node) 0 (replicate nb_devices (pos 0)))
        λ (ret, mymisc).
          if eqb_ℤ ret (pos 0)
          then and_then (first_minor mymisc) (λ offset. ok (allocate nb_devices a offset))
          else ok (ret, none)

-- The devices that are deregistered, for NB_Devices.
unfoldable pub skeleton_remove : ℕ → List ℕ
unfolding upto
skeleton_remove nb_devices = upto 0 nb_devices
