-- ===== src/Devicetree.antt =====
-- Pilote_ex2/ex6_dtb: two modules that make one device for each child of their node whose attribute is
-- "on". In skeleton.c each device has a structure of its own; skeleton_1.c keeps the two arrays of
-- Pilote_ex2/ex3_fops_base_2.
pub mod Arrays
pub mod Bounds
pub mod Children
pub mod Probe
use csel.Prelude.{
  ℕ, zero, suc, ◌+◌, List, [], ◌∷◌, ◌++◌, Bool, true, false, not, Option, none, some, if◌then◌else◌,
  length, replicate, get_elem?, ◌==◌, ℤ, pos, negsuc, eqb_ℤ,
}
use csel.Cstd.{Bytes, codes, str_eq, Outcome, ok, fault, and_then, buffer_overflow, over_read}
use csel.CharDevice
use csel.CharDevice.{Device}
use csel.MultiDevice
use csel.MultiDevice.{Devices}

-- A child of the node: its full name, and what of_property_read_string finds as its attribute.
pub record Child : Type 0 where
  pub full_name : Bytes
  pub attribute : Option Bytes

unfoldable pub is_on : Child → Bool
is_on child = elim child.attribute [ none ↦ false | some attr ↦ str_eq attr (codes "on") ]

-- The children that are available, if there is a node.
unfoldable pub count_device_on : List Child → ℕ
unfolding is_on
count_device_on [] = 0
count_device_on (child ∷ children) =
    let count = count_device_on children in if is_on child then suc count else count

unfoldable pub children_of : Option (List Child) → List Child
children_of none = []
children_of (some children) = children

-- struct priv: the text of a device, and the name that its miscdevice has.
pub record Priv : Type 0 where
  pub device : Device
  pub name : Option Bytes

-- As devm_kcalloc gives it.
abbrev pub blank : Priv
blank = record { device = CharDevice.loaded; name = none }

pub record PrivData : Type 0 where
  pub nb_devices : ℕ
  pub priv : List Priv

-- An assignment to fields of priv[i].
unfoldable pub update : (Priv → Priv) → List Priv → ℕ → Outcome (List Priv)
update f [] i = fault buffer_overflow
update f (q ∷ qs) zero = ok (f q ∷ qs)
update f (q ∷ qs) (suc i) = and_then (update f qs i) λ rest. ok (q ∷ rest)

-- priv[i]
unfoldable pub at : List Priv → ℕ → Outcome Priv
at [] i = fault over_read
at (q ∷ qs) zero = ok q
at (q ∷ qs) (suc i) = at qs i

-- The loop over the children, from the device `i` on: the result, the array, and the numbers of the devices
-- that are registered. misc_register answers with `answer` of the device's number.
unfoldable pub register_children :
    (answer : ℕ → ℤ) → List Child → (i : ℕ) → List Priv → Outcome (ℤ × List Priv × List ℕ)
unfolding is_on update
register_children answer [] i privs = ok (pos 0, privs, [])
register_children answer (child ∷ children) i privs = elim (is_on child) [
  | false ↦ register_children answer children i privs
  | true ↦ and_then (update (λ p. record p { name = some child.full_name }) privs i) λ filled.
      let rest = register_children answer children (i + 1) filled in
      if eqb_ℤ (answer i) (pos 0)
      then and_then rest (λ (ret, done, registered). ok (ret, done, i ∷ registered))
      else ok (answer i, filled, [])
]

-- Whether the two allocations succeed, and the answers of misc_register.
pub record Answers : Type 0 where
  pub priv_data : Bool
  pub calloc : Bool
  pub register : ℕ → ℤ

-- -ENOMEM
abbrev pub enomem : ℤ
enomem = negsuc 11

-- The result, what platform_set_drvdata keeps, and the devices that are registered.
unfoldable pub skeleton_probe :
    Answers → Option (List Child) → Outcome (ℤ × Option PrivData × List ℕ)
unfolding register_children count_device_on children_of
skeleton_probe a dt_node =
    let nb_devices = count_device_on (children_of dt_node) in
    if not a.priv_data
    then ok (enomem, none, [])
    else if not a.calloc
    then ok (enomem, none, [])
    else and_then
        (register_children a.register (children_of dt_node) 0 (replicate nb_devices blank))
        λ (ret, privs, registered).
          ok (ret, some (record { nb_devices = nb_devices; priv = privs }), registered)

unfoldable pub upto : (i n : ℕ) → List ℕ
upto i zero = []
upto i (suc n) = i ∷ upto (i + 1) n

-- The devices that are deregistered.
unfoldable pub skeleton_remove : PrivData → List ℕ
unfolding upto
skeleton_remove d = upto 0 d.nb_devices

-- A read of the device `k`.
unfoldable pub skeleton_read :
    PrivData → (k : ℕ) → (is_null : Bool) → (count ppos left : ℕ) → Outcome (ℕ × ℕ × Bytes)
unfolding at
skeleton_read d k is_null count ppos left =
    and_then (at d.priv k) λ p. CharDevice.skeleton_read p.device is_null count ppos left

unfoldable pub skeleton_write :
    PrivData → (k : ℕ) → Bytes → (ppos left : ℕ) → Outcome (ℕ × ℕ × PrivData)
unfolding at update
skeleton_write d k bytes ppos left = and_then (at d.priv k) λ p.
    and_then (CharDevice.skeleton_write p.device bytes ppos left) λ (n, ppos', device).
      and_then (update (λ q. record q { device = device }) d.priv k)
        λ privs. ok (n, ppos', record d { priv = privs })
