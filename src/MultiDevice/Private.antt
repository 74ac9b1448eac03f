-- ===== src/MultiDevice/Private.antt =====
-- Pilote_ex2/ex3_fops_base_2/skeleton_dt.c: the devices as a platform driver, in an array that belongs to a
-- private structure.
pub mod Overflow
use csel.Prelude.{
  ℕ, not, zero, suc, ◌+◌, ◌-◌, ◌*◌, ◌++◌, Bool, true, false, leb, if◌then◌else◌, ℤ, pos, negsuc,
  ltb_ℤ, eqb_ℤ,
}
use csel.Cstd.{Bytes, codes, Outcome, ok, fault, and_then, heap_overflow, sprintf, format_int}

-- The kernel's structures on a machine, in bytes: a pointer, struct miscdevice, and the ends of its fields
-- minor, name and fops.
pub record Layout : Type 0 where
  pub pointer : ℕ
  pub miscdevice : ℕ
  pub minor_end : ℕ
  pub name_end : ℕ
  pub fops_end : ℕ

-- Whether the allocations succeed, and what misc_register answers for each device.
pub record Answers : Type 0 where
  pub private : Bool
  pub mymisc : Bool
  pub register : ℕ → ℤ

-- What the driver holds: its two allocations, and the devices that are registered.
pub record Held : Type 0 where
  pub private : Bool
  pub mymisc : Bool
  pub devices : ℕ

-- A store that ends at this byte of an allocation of `size` bytes.
abbrev pub stored : (size last : ℕ) → Outcome (Unit {0})
stored size last = if leb last size then ok tt else fault heap_overflow

abbrev pub device_name : ℕ → Bytes
device_name i = codes "myMisc_" ++ format_int (pos i)

-- The stores of minor, name and fops into mymisc[i], with the print of its name into 9 bytes.
unfoldable pub fill : Layout → (size i : ℕ) → Outcome (Unit {0})
unfolding sprintf
fill l size i = and_then (stored size (i * l.miscdevice + l.minor_end)) λ _.
    and_then (sprintf 9 (device_name i)) λ _.
      and_then (stored size (i * l.miscdevice + l.name_end))
        λ _. stored size (i * l.miscdevice + l.fops_end)

-- The loop over `rounds` devices from `i` on: the result, and the devices that are registered at its end.
unfoldable pub register_devices : Layout → Answers → (size rounds i : ℕ) → Outcome (ℤ × ℕ)
unfolding fill
register_devices l a size zero i = ok (pos 0, i)
register_devices l a size (suc rounds) i =
    let rest = register_devices l a size rounds (i + 1) in
    and_then (fill l size i)
      λ _. if eqb_ℤ (a.register i) (pos 0) then rest else ok (a.register i, i)

-- -ENOMEM
abbrev enomem : ℤ
enomem = negsuc 11

abbrev pub nothing : Held
nothing = record { private = false; mymisc = false; devices = 0 }

-- The memory for the array is `NB_Devices` times the size of a pointer to a miscdevice.
abbrev pub probe_devices : Layout → Answers → ℤ → Outcome (ℤ × Held)
probe_devices l a (negsuc n) = ok (negsuc 0, nothing)
probe_devices l a (pos zero) = ok (negsuc 0, nothing)
probe_devices l a (pos (suc n)) =
    if not a.private
    then ok (enomem, nothing)
    else if not a.mymisc
    then ok (enomem, nothing)
    else and_then (register_devices l a (l.pointer * suc n) (suc n) 0)
        λ (retval, k). ok (retval, record { private = true; mymisc = true; devices = k })

unfoldable pub skeleton_probe : Layout → Answers → ℤ → Outcome (ℤ × Held)
unfolding register_devices
skeleton_probe l a nb_devices = probe_devices l a nb_devices

-- misc_deregister for NB_Devices devices, and the two kfree.
abbrev pub skeleton_remove : (nb_devices : ℕ) → Held → Held
skeleton_remove nb_devices h = record {
  private = false;
  mymisc = false;
  devices = h.devices - nb_devices;
}

abbrev pub skeleton_read : (count : ℕ) → ℕ
skeleton_read count = 0

abbrev pub skeleton_write : (count : ℕ) → ℕ
skeleton_write count = 0
