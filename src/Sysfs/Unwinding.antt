-- ===== src/Sysfs/Unwinding.antt =====
-- Loading and unloading keep to a stack: what was registered last is removed first.
use csel.Prelude.{
  ◌≡◌, ◌≢◌, ◌⊎◌, Option, none, some, List, [], ◌∷◌, Bool, true, false, arith, ℤ, pos, if◌then◌else◌,
}
use csel.Cstd.{Outcome, ok, fault, invalid_pointer}
use csel.Sysfs.{
  Load, Resource, misc_device, platform_driver, driver_file, class, class_device, attribute_group,
  Call, registered, failed, removed, Answers, bus_init, bus_exit, class_init, class_exit,
}

abbrev same : Resource → Resource → Bool
same misc_device misc_device = true
same platform_driver platform_driver = true
same driver_file driver_file = true
same class class = true
same class_device class_device = true
same attribute_group attribute_group = true
same r s = false

abbrev pop : Resource → List Resource → Option (List Resource)
pop r [] = none
pop r (s ∷ held) = if same r s then some held else none

-- What is registered after some calls, the last one first; nothing where the order is broken.
unfoldable pub held_after : List Resource → List Call → Option (List Resource)
held_after held [] = some held
held_after held (registered r ∷ calls) = held_after (r ∷ held) calls
held_after held (failed r ∷ calls) = held_after held calls
held_after held (removed r ∷ calls) = elim (pop r held) [
  | none ↦ none
  | some rest ↦ held_after rest calls
]

-- A load that takes all or nothing, and an unload that gives all of it back.
abbrev pub IsClean : ℤ × List Call → List Call → List Resource → Type 0
IsClean (ret, calls) exit all =
    (((ret ≡ pos 0) × (held_after [] calls ≡ some all))
      ⊎ ((ret ≢ pos 0) × (held_after [] calls ≡ some [])))
    × (held_after all exit ≡ some [])

bus_init-IsClean :
    (a : Answers) → IsClean (bus_init a) bus_exit (driver_file ∷ platform_driver ∷ misc_device ∷ [])
unfolding bus_init bus_exit held_after
bus_init-IsClean a = ground arith

-- device_create refuses a class that is an error.
abbrev pub IsDocumented : Answers → Type 0
IsDocumented a = a.class_ptr ≢ pos 0 → a.device_ptr ≢ pos 0

-- What is loaded before the class was taken, and the device could not be made.
abbrev pub LacksDevice : Answers → Type 0
LacksDevice a = (a.misc ≡ pos 0) × (a.platform ≡ pos 0) × (a.file ≡ pos 0) × (a.device_ptr ≢ pos 0)

-- Clean where the load comes to an end, which it does unless it lacks something.
abbrev pub IsCleanOr : Outcome Load → List Call → List Resource → Type 0 → Type 0
IsCleanOr (ok load) exit all Lacks = IsClean load exit all × ¬ Lacks
IsCleanOr (fault e) exit all Lacks = (e ≡ invalid_pointer) × Lacks

class_init-IsClean :
    (a : Answers)
    → IsDocumented a
    → IsCleanOr
        (class_init a)
        class_exit
        (attribute_group ∷ class_device ∷ class ∷ driver_file ∷ platform_driver ∷ misc_device ∷ [])
        (LacksDevice a)
unfolding class_init class_exit held_after
class_init-IsClean a doc = ground arith

-- For all answers of the kernel, in which device_create refuses a class that is an error, each of
-- the two modules either loads with the result 0 and leaves all of its registrations, or returns
-- another result and leaves none, except that the one with a class uses an invalid pointer
-- exactly if the registrations before the class succeed and the device cannot be created; every
-- removal of a load that ends, also those when the module is unloaded, takes away what was
-- registered last of all that is still there.
pub loads_unwind :
    (a : Answers)
    → IsDocumented a
    → IsClean (bus_init a) bus_exit (driver_file ∷ platform_driver ∷ misc_device ∷ [])
      × IsCleanOr
          (class_init a)
          class_exit
          (attribute_group ∷ class_device ∷ class ∷ driver_file ∷ platform_driver ∷ misc_device
            ∷ [])
          (LacksDevice a)
loads_unwind a doc = (bus_init-IsClean a, class_init-IsClean a doc)
