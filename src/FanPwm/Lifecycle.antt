-- ===== src/FanPwm/Lifecycle.antt =====
-- skeleton_init and skeleton_exit: what the module acquires from the kernel, and gives back.
use csel.Prelude.{
  ◌⊎◌, ◌≡◌, ◌≢◌, ◌↔◌, Bool, true, false, ◌||◌, if◌then◌else◌, arith, ℤ, pos, negsuc, ltb_ℤ, eqb_ℤ,
  ◌≤ℤ◌,
}
use csel.Cstd.{Outcome, ok, fault, invalid_pointer}

-- What is registered with the kernel. `timer` says that the timer is armed.
pub record Held : Type 0 where
  pub gpio : Bool
  pub timer : Bool
  pub class : Bool
  pub device : Bool
  pub group : Bool

abbrev pub nothing : Held
nothing = record { gpio = false; timer = false; class = false; device = false; group = false }

-- What the kernel answers: the two zones as the `int` that their pointer is converted to, and the
-- values of gpio_is_valid, gpio_request, class_create and device_create, as 0 where their pointer is none in
-- which an error stands, and sysfs_create_group.
pub record Answers : Type 0 where
  pub cpu_zone : ℤ
  pub gpu_zone : ℤ
  pub gpio_valid : ℤ
  pub gpio_requested : ℤ
  pub class_ptr : ℤ
  pub device_ptr : ℤ
  pub group_created : ℤ

-- -EINVAL, -ENODEV and -EEXIST
abbrev pub is_zone_error : ℤ → Bool
is_zone_error e = eqb_ℤ e (negsuc 21) || eqb_ℤ e (negsuc 18) || eqb_ℤ e (negsuc 16)

unfoldable pub create_group : ℤ → Held → ℤ × Held
create_group error h =
    if eqb_ℤ error (pos 0)
    then (pos 0, record h { group = true })
    else (error, record h { device = false; class = false })

-- The results of class_create and device_create are not looked at: the group is created on the device that
-- device_create returned, where an error leads nowhere.
unfoldable pub add_attributes : Answers → Held → Outcome (ℤ × Held)
unfolding create_group
add_attributes a h =
    if eqb_ℤ a.device_ptr (pos 0)
    then ok (
        create_group a.group_created
          (record h { class = eqb_ℤ a.class_ptr (pos 0); device = true }))
    else fault invalid_pointer

unfoldable pub skeleton_init : Answers → Held → Outcome (ℤ × Held)
unfolding add_attributes
skeleton_init a h =
    if is_zone_error a.cpu_zone
    then ok (negsuc 0, h)
    else if is_zone_error a.gpu_zone
    then ok (negsuc 0, h)
    else if eqb_ℤ a.gpio_valid (pos 0)
    then ok (negsuc 0, h)
    else if ltb_ℤ a.gpio_requested (pos 0)
    then ok (negsuc 0, h)
    else add_attributes a (record h { gpio = true; timer = true })

unfoldable pub skeleton_exit : Held → Held
skeleton_exit h =
    let h1 = record h { group = false } in
    let h2 = record h1 { device = false } in
    let h3 = record h2 { class = false } in
    let h4 = record h3 { timer = false } in record h4 { gpio = false }

-- The zones were found, the pin was valid and its request was granted.
abbrev pub HasPin : Answers → Type 0
HasPin a =
    (is_zone_error a.cpu_zone ≡ false)
    × (is_zone_error a.gpu_zone ≡ false)
    × (a.gpio_valid ≢ pos 0)
    × (pos 0 ≤ℤ a.gpio_requested)

-- If loading the module returns 0, then everything is registered and the timer is armed, and
-- unloading gives everything back.
pub exit_after_init :
    (a : Answers) (h : Held)
    → a.class_ptr ≡ pos 0
    → skeleton_init a nothing ≡ ok (pos 0, h)
    → (h ≡ record { gpio = true; timer = true; class = true; device = true; group = true })
      × (skeleton_exit h ≡ nothing)
unfolding skeleton_init skeleton_exit
exit_after_init a h made e = ground arith

-- What a load leaves behind that does not return 0.
abbrev pub Leaves : Answers → Outcome (ℤ × Held) → Type 0
Leaves a (fault e) = (e ≡ invalid_pointer) × HasPin a × (a.device_ptr ≢ pos 0)
Leaves a (ok (ret, h)) =
    (ret ≡ pos 0)
    ⊎ ((ret ≢ pos 0)
        × (h.class ≡ false)
        × (h.device ≡ false)
        × (h.group ≡ false)
        × (h.gpio ≡ h.timer)
        × ((h.timer ≡ true) ↔ HasPin a))

-- Loading the module uses an invalid pointer only where both zones were found, the pin was valid,
-- its request was granted and the device could not be created. Otherwise it returns; and if it
-- does not return 0, the class, the device and the attributes are not registered afterwards, the
-- pin is held exactly if the timer is armed, and the timer is left armed exactly if both zones
-- were found, the pin was valid and its request was granted, so that the attributes were what
-- failed.
pub init_failure : (a : Answers) → Leaves a (skeleton_init a nothing)
unfolding skeleton_init
init_failure a = ground arith
