-- ===== src/Tests/ModuleRuns.antt =====
-- Several devices, buttons and attributes: loads, writes and presses.
use csel.Prelude.{
  none, ℕ, ◌+◌, ◌≡◌, refl, ◌⊎◌, ◌↔◌, ◌≢◌, List, [], ◌∷◌, true, false, some, replicate,
  if◌then◌else◌, ◌==◌, ◌≤◌, ◌<◌, ℤ, ◌-ℤ◌, pos, negsuc, arith,
}
use csel.Cstd.{codes, str_eq, ok, fault, over_read, buffer_overflow}
use csel.CharDevice
use csel.CharDevice.Transfer
use csel.MultiDevice
use csel.MultiDevice.{Devices}
use csel.MultiDevice.First.{first, view, first_device_alone}
use csel.MultiDevice.Loading.{device_count_bounds}
use csel.Devicetree
use csel.Devicetree.{Child, PrivData, upto}
use csel.Devicetree.Bounds.{skeleton_write-isolated}
use csel.Devicetree.Arrays
use csel.Devicetree.Arrays.Reach.{later_children_fault}
use csel.Devicetree.Bounds
use csel.Devicetree.Children.{fresh, names}
use csel.Devicetree.Probe.{probe_registers}
use csel.PollDevice
use csel.PollDevice.{interrupt, poll_tests, poll_resets}
use csel.PollDevice.Presses.{count_follows_presses, seen, timely_presses}
use csel.Sysfs
use csel.Sysfs.{misc_device, platform_driver, driver_file, class, class_device, attribute_group}
use csel.Sysfs.Unwinding.{loads_unwind, IsClean, IsCleanOr, LacksDevice}

abbrev two : Devices
two = record {
  global_buffer = replicate 2048 0;
  buffer_size = replicate 2 0;
  offset_minor = pos 62;
}

first_device_alone_example :
    (MultiDevice.skeleton_read two (pos 62) false 10 0 0
      ≡ CharDevice.skeleton_read (first two) false 10 0 0)
    × (view (MultiDevice.skeleton_write two (pos 62) (codes "ab") 0 0)
        ≡ CharDevice.skeleton_write (first two) (codes "ab") 0 0)
first_device_alone_example =
    first_device_alone 1 two 0 (0 ∷ []) false 10 0 0 (codes "ab")
      (record { room = refl; sizes = refl }) refl (omega arith)

abbrev one : ℕ
one = 1

abbrev granted : MultiDevice.Answers
granted = record { mymisc = true; buffer = true; sizes = true; registers = (pos 0, pos 62) ∷ [] }

device_count_bounds_example :
    ((MultiDevice.skeleton_init (pos one) granted ≡ fault over_read) ↔ (one ≡ 0))
    × ((MultiDevice.skeleton_init (pos one) granted ≡ fault buffer_overflow) ↔ (101 ≤ one))
device_count_bounds_example = device_count_bounds one granted refl (refl, tt) (omega arith)

abbrev children : List Child
children =
    record { full_name = codes "a"; attribute = some (codes "on") }
    ∷ record { full_name = codes "b"; attribute = some (codes "off") }
    ∷ record { full_name = codes "c"; attribute = some (codes "on") }
    ∷ []

-- The second device is refused.
abbrev second_refused : Devicetree.Answers
second_refused = record {
  priv_data = true;
  calloc = true;
  register = λ k. if k == 1 then negsuc 15 else pos 0;
}

abbrev all : PrivData
all = record { nb_devices = 2; priv = fresh (codes "a") ∷ fresh (codes "c") ∷ [] }

probe_registers_example :
    ((Devicetree.skeleton_probe second_refused (some children)
        ≡ ok (pos 0, some all, Devicetree.skeleton_remove all))
      × Bounds.IsSound all)
    ⊎ ((k : ℕ) × (d : PrivData) × (Devicetree.skeleton_probe second_refused (some children)
          ≡ ok (second_refused.register k, some d, upto 0 k))
        × (k < 2)
        × (second_refused.register k ≢ pos 0))
unfolding Devicetree.children_of Devicetree.count_device_on names str_eq
probe_registers_example = probe_registers second_refused (some children) refl refl

blank-IsSound : Transfer.IsSound CharDevice.loaded
blank-IsSound = record { room = refl; inside = omega arith }

all-IsSound : Bounds.IsSound all
all-IsSound = record { all = refl; devices = (blank-IsSound, (blank-IsSound, tt)) }

-- The second press comes between the halves of a skeleton_poll, and is lost.
abbrev pressed_thrice : List PollDevice.Event
pressed_thrice =
    interrupt 4
    ∷ poll_tests
    ∷ interrupt 6
    ∷ poll_resets
    ∷ poll_tests
    ∷ poll_resets
    ∷ interrupt 7
    ∷ []

abbrev idle : PollDevice.System
idle = record { buttons = record { button_pressed = false }; polling = none; count = 0 }

count_follows_presses_example :
    (s' : PollDevice.System) × (PollDevice.run idle pressed_thrice ≡ ok s')
    × (seen idle ≤ seen s')
    × (seen s' ≤ seen idle + timely_presses false pressed_thrice)
    × ((seen s' ≡ 0) ↔ ((seen idle ≡ 0) × (timely_presses false pressed_thrice ≡ 0)))
unfolding timely_presses
count_follows_presses_example = count_follows_presses idle pressed_thrice (omega arith)

two_are_timely : timely_presses false pressed_thrice ≡ 2
unfolding timely_presses
two_are_timely = refl

one_is_counted :
    PollDevice.run idle pressed_thrice
    ≡ ok (record { buttons = record { button_pressed = true }; polling = none; count = 1 })
unfolding PollDevice.run
one_is_counted = refl

abbrev group_refused : Sysfs.Answers
group_refused = record {
  class_ptr = pos 0;
  device_ptr = pos 0;
  misc = pos 0;
  platform = pos 0;
  file = pos 0;
  group = negsuc 11;
}

loads_unwind_example :
    IsClean
      (Sysfs.bus_init group_refused)
      Sysfs.bus_exit
      (driver_file ∷ platform_driver ∷ misc_device ∷ [])
    × IsCleanOr
        (Sysfs.class_init group_refused)
        Sysfs.class_exit
        (attribute_group ∷ class_device ∷ class ∷ driver_file ∷ platform_driver ∷ misc_device ∷ [])
        (LacksDevice group_refused)
loads_unwind_example = loads_unwind group_refused (λ no_class. absurd (no_class refl))

-- Every device is taken, and gets a number below that of the one before it.
abbrev given : ℕ → ℤ × ℤ
given i = (pos 0, pos 62 -ℤ pos i)

later_children_fault_example :
    (devs : Devices) × (Arrays.skeleton_probe granted given (some children) ≡ ok (pos 0, some devs))
    × (Arrays.skeleton_read devs (pos 62 -ℤ pos 1) false 10 0 0 ≡ fault over_read)
    × (Arrays.skeleton_write devs (pos 62 -ℤ pos 1) (codes "ab") 0 0 ≡ fault buffer_overflow)
unfolding Devicetree.children_of Devicetree.count_device_on str_eq
later_children_fault_example =
    later_children_fault granted given (some children) 1 10 0 0 (codes "ab") refl refl refl
      (λ i. refl) (omega arith) (omega arith) (omega arith) (omega arith)
