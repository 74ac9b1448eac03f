-- ===== src/Sysfs.antt =====
-- Pilote_ex2/ex5_sysfs: two modules that register a device, a platform driver and an attribute of it;
-- skeleton.c registers a class with a device and a group of attributes too.
pub mod Unwinding
use csel.Prelude.{ℕ, List, [], ◌∷◌, ◌++◌, Bool, not, ℤ, pos, eqb_ℤ, if◌then◌else◌}
use csel.Cstd.{Bytes, Outcome, ok, fault, and_then, invalid_pointer}
use csel.CharDevice
use csel.CharDevice.{Device}

-- What is registered with the kernel.
pub data Resource : Type 0 where
  misc_device platform_driver driver_file class class_device attribute_group : Resource

-- A registration that succeeded, one that failed, and the removal of a registration.
pub data Call : Type 0 where
  registered failed removed : Resource → Call

-- The device of both files is read and written as the first character device is.
abbrev pub skeleton_read : Device → Bool → (count ppos left : ℕ) → Outcome (ℕ × ℕ × Bytes)
skeleton_read = CharDevice.skeleton_read

abbrev pub skeleton_write : Device → Bytes → (ppos left : ℕ) → Outcome (ℕ × ℕ × Device)
skeleton_write = CharDevice.skeleton_write

-- The attributes of skeleton.c hold nothing: a read gives no byte, a write takes all of its bytes.
abbrev pub show_attr_driver : ℕ
show_attr_driver = 0

abbrev pub store_attr_driver : ℕ → ℕ
store_attr_driver count = count

abbrev pub test_show : ℕ
test_show = 0

abbrev pub test_store : ℕ → ℕ
test_store count = count

-- What the kernel answers: 0 where a registration succeeds, or a number of an error. class_create and
-- device_create return a pointer, or one that the number of an error stands in.
pub record Answers : Type 0 where
  pub class_ptr : ℤ
  pub device_ptr : ℤ
  pub misc : ℤ
  pub platform : ℤ
  pub file : ℤ
  pub group : ℤ

-- The result of a load, and its calls.
abbrev pub Load : Type 0
Load = ℤ × List Call

-- A registration: the calls that a failure makes, or what follows.
abbrev pub try_register : Resource → ℤ → List Call → Load → Load
try_register r error undo next =
    if eqb_ℤ error (pos 0) then (next.0, registered r ∷ next.1) else (error, failed r ∷ undo)

-- skeleton_init of skeleton_bus_platform.c
unfoldable pub bus_init : Answers → Load
bus_init a = try_register misc_device a.misc [] (
    try_register platform_driver a.platform (removed misc_device ∷ []) (
      try_register driver_file a.file (removed platform_driver ∷ removed misc_device ∷ [])
        (pos 0, [])))

unfoldable pub bus_exit : List Call
bus_exit = removed driver_file ∷ removed platform_driver ∷ removed misc_device ∷ []

-- The group of attributes belongs to the device: `&test_dev->kobj` of an error leads nowhere.
abbrev pub create_attributes : Answers → Outcome Load
create_attributes a =
    if not (eqb_ℤ a.device_ptr (pos 0))
    then fault invalid_pointer
    else ok (
        try_register attribute_group a.group
          (removed class_device
            ∷ removed class
            ∷ removed driver_file
            ∷ removed platform_driver
            ∷ removed misc_device
            ∷ [])
          (pos 0, []))

-- class_create and device_create, whose results are not looked at.
abbrev pub made : Resource → ℤ → Call
made r error = if eqb_ℤ error (pos 0) then registered r else failed r

abbrev pub create_class : Answers → Outcome Load
create_class a =
    and_then (create_attributes a)
      λ (ret, calls). ok (ret, made class a.class_ptr ∷ made class_device a.device_ptr ∷ calls)

-- A registration before others that may run into undefined behaviour.
abbrev pub try_before : Resource → ℤ → List Call → Outcome Load → Outcome Load
try_before r error undo next =
    if eqb_ℤ error (pos 0)
    then and_then next (λ (ret, calls). ok (ret, registered r ∷ calls))
    else ok (error, failed r ∷ undo)

-- skeleton_init of skeleton.c
unfoldable pub class_init : Answers → Outcome Load
class_init a = try_before misc_device a.misc [] (
    try_before platform_driver a.platform (removed misc_device ∷ []) (
      try_before driver_file a.file (removed platform_driver ∷ removed misc_device ∷ [])
        (create_class a)))

unfoldable pub class_exit : List Call
class_exit =
    removed attribute_group
    ∷ removed class_device
    ∷ removed class
    ∷ removed driver_file
    ∷ removed platform_driver
    ∷ removed misc_device
    ∷ []
