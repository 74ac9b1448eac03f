-- ===== src/Devicetree/Children.antt =====
-- The children whose attribute is on.
use csel.Prelude.{
  suc, ◌≡◌, refl, List, [], ◌∷◌, map, true, false, Bool-cases, inl, inr, if◌then◌else◌, some,
  length, arith, All, ap, ◌∙◌,
}
use csel.Cstd.{Bytes}
use csel.CharDevice
use csel.CharDevice.Transfer
use csel.Devicetree.{Child, is_on, count_device_on, Priv, PrivData}
use csel.Devicetree.Bounds.{IsSound}

-- The names of the children whose attribute is "on".
unfoldable pub names : List Child → List Bytes
names [] = []
names (child ∷ children) =
    let rest = names children in if is_on child then child.full_name ∷ rest else rest

-- A device that is registered and was not written to.
abbrev pub fresh : Bytes → Priv
fresh name = record { device = CharDevice.loaded; name = some name }

pub length-names : (children : List Child) → length (names children) ≡ count_device_on children
unfolding names count_device_on
length-names [] = refl
length-names (child ∷ children) = elim (Bool-cases (is_on child)) [
  | inl on ↦ rw on (omega (arith, length-names children))
  | inr off ↦ rw off (length-names children)
]

pub count_on :
    (child : Child) (children : List Child)
    → is_on child ≡ true
    → count_device_on (child ∷ children) ≡ suc (count_device_on children)
unfolding count_device_on
count_on child children on = rw (count_device_on, on) refl

pub count_off :
    (child : Child) (children : List Child)
    → is_on child ≡ false
    → count_device_on (child ∷ children) ≡ count_device_on children
unfolding count_device_on
count_off child children off = rw (count_device_on, off) refl

pub names_off :
    (child : Child) (children : List Child)
    → is_on child ≡ false
    → names (child ∷ children) ≡ names children
unfolding names
names_off child children off = rw (names, off) refl

fresh-IsSound : (names : List Bytes) → All (λ p. Transfer.IsSound p.device) (map fresh names)
fresh-IsSound [] = tt
fresh-IsSound (name ∷ names) = (record { room = refl; inside = omega arith }, fresh-IsSound names)

length-fresh : (names : List Bytes) → length (map fresh names) ≡ length names
length-fresh [] = refl
length-fresh (name ∷ names) = ap suc (length-fresh names)

-- A device for each child that is on, and none that was written to.
abbrev pub all_devices : List Child → PrivData
all_devices children = record {
  nb_devices = count_device_on children;
  priv = map fresh (names children);
}

pub all_devices-IsSound : (children : List Child) → IsSound (all_devices children)
all_devices-IsSound children = record {
  all = length-fresh (names children) ∙ length-names children;
  devices = fresh-IsSound (names children);
}
