-- ===== src/Tests/Module.antt =====
-- Runs of the kernel module.
use csel.Prelude.{◌-◌, ◌≤◌, ◌≡◌, refl, inr, true, some, List, [], ◌∷◌, arith, ℤ, pos, negsuc}
use csel.Cstd.{Bytes, codes, Outcome, ok, fault, div_by_zero, format_int}
use csel.FanPwm.{Driver, timer_callback}
use csel.FanPwm.Blink.{timer_callback_blinks}
use csel.FanPwm.History.{
  Event, tick, write_mode, write_freq, read_temp_gpu, run, loaded, IsSound, loaded-IsSound,
  run-IsSound, IsFair,
}
use csel.FanPwm.Lifecycle.{Answers, Held, nothing, skeleton_init, Leaves, init_failure}
use csel.Tests.Fixtures.{test_kernel, warm, unreadable, driver}

-- As the callback leaves the driver at tick 1000.
abbrev toggled : Driver
toggled = record driver { freq = pos 10; led_trigger = 1; expires = some 1125 }

abbrev toggled_twice : Driver
toggled_twice = record driver { freq = pos 10; led = 1; expires = some 1150 }

first_tick : timer_callback test_kernel 1000 warm driver ≡ ok toggled
unfolding timer_callback
first_tick = refl

second_tick : timer_callback test_kernel 1125 warm toggled ≡ ok toggled_twice
unfolding timer_callback
second_tick = refl

timer_callback_blinks_example :
    (toggled.led ≤ 1)
    × (toggled_twice.led ≡ 1 - toggled.led)
    × (toggled_twice.led_trigger ≡ driver.led_trigger)
timer_callback_blinks_example =
    timer_callback_blinks test_kernel 1000 1125 warm warm driver toggled toggled_twice (omega arith)
      first_tick second_tick

abbrev history : List Event
history =
    tick 1000 warm
    ∷ write_mode (codes "1")
    ∷ write_freq (codes "5")
    ∷ read_temp_gpu warm
    ∷ tick 1125 unreadable
    ∷ []

five-IsFair : IsFair test_kernel (write_freq (codes "5"))
unfolding csel.Cstd.scan_int
five-IsFair = inr (omega arith)

warm-IsFair : IsFair test_kernel (read_temp_gpu warm)
warm-IsFair = omega arith

run-IsSound_example : (d' : Driver) × (run test_kernel loaded history ≡ ok d') × IsSound d'
run-IsSound_example =
    run-IsSound test_kernel loaded history loaded-IsSound
      (tt, (tt, (five-IsFair, (warm-IsFair, (tt, tt)))))

abbrev good_answers : Answers
good_answers = record {
  cpu_zone = pos 64;
  gpu_zone = pos 128;
  gpio_valid = pos 1;
  gpio_requested = pos 0;
  class_ptr = pos 0;
  device_ptr = pos 0;
  group_created = pos 0;
}

abbrev loaded_module : ℤ × Held
loaded_module =
    (pos 0, record { gpio = true; timer = true; class = true; device = true; group = true })

init_runs : skeleton_init good_answers nothing ≡ ok loaded_module
unfolding skeleton_init
init_runs = refl

-- sysfs_create_group fails with -17.
abbrev no_group : Answers
no_group = record good_answers { group_created = negsuc 16 }

init_failure_example : Leaves no_group (skeleton_init no_group nothing)
init_failure_example = init_failure no_group
