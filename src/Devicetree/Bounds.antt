-- ===== src/Devicetree/Bounds.antt =====
-- Each device keeps to its own structure.
use csel.Prelude.{
  ℕ, zero, suc, ◌<◌, ◌≡◌, ◌≢◌, refl, ap, subst, ◌∙◌, List, [], ◌∷◌, Bool, All, length, arith,
}
use csel.Cstd.{Bytes, ok, and_then, and_then-eq-ok}
use csel.CharDevice
use csel.CharDevice.{Device}
use csel.CharDevice.Transfer
use csel.Devicetree.{Priv, PrivData, update, at, skeleton_read, skeleton_write}

-- As many structures as devices, each with a text inside its array.
pub record IsSound (d : PrivData) : Type 0 where
  pub all : length d.priv ≡ d.nb_devices
  pub devices : All (λ p. Transfer.IsSound p.device) d.priv

at-IsSound :
    (privs : List Priv) (k : ℕ)
    → All (λ p. Transfer.IsSound p.device) privs
    → k < length privs
    → (p : Priv) × (at privs k ≡ ok p) × Transfer.IsSound p.device
unfolding at
at-IsSound [] k s h = absurd (omega arith)
at-IsSound (p ∷ privs) zero s h = (p, refl, s.0)
at-IsSound (p ∷ privs) (suc k) s h = at-IsSound privs k s.1 (omega arith)

update-IsSound :
    (device : Device) (privs : List Priv) (k : ℕ)
    → All (λ p. Transfer.IsSound p.device) privs
    → Transfer.IsSound device
    → k < length privs
    → (privs' : List Priv) × (update (λ p. record p { device = device }) privs k ≡ ok privs')
      × (length privs' ≡ length privs)
      × All (λ p. Transfer.IsSound p.device) privs'
unfolding update
update-IsSound device [] k s new h = absurd (omega arith)
update-IsSound device (p ∷ privs) zero s new h =
    (record p { device = device } ∷ privs, refl, refl, (new, s.1))
update-IsSound device (p ∷ privs) (suc k) s new h =
    let (privs', e, n, all) = update-IsSound device privs k s.1 new (omega arith) in
    (p ∷ privs', rw e refl, omega arith, (s.0, all))

-- An assignment to a structure of the array leaves the others.
update_others :
    (f : Priv → Priv) (privs privs' : List Priv) (k j : ℕ)
    → update f privs k ≡ ok privs'
    → j ≢ k
    → at privs' j ≡ at privs j
unfolding update at
update_others f [] privs' k j e other = cc
update_others f (p ∷ privs) privs' zero zero e other = absurd (other refl)
update_others f (p ∷ privs) privs' zero (suc j) e other =
    let same : f p ∷ privs ≡ privs' = cc in subst (λ qs. at qs (suc j) ≡ at privs j) same refl
update_others f (p ∷ privs) privs' (suc k) zero e other =
    let (rest, below, result) = and_then-eq-ok (update f privs k) _ e in
    let same : p ∷ rest ≡ privs' = cc in subst (λ qs. at qs zero ≡ ok p) same refl
update_others f (p ∷ privs) privs' (suc k) (suc j) e other =
    let (rest, below, result) = and_then-eq-ok (update f privs k) _ e in
    let same : p ∷ rest ≡ privs' = cc in
    subst (λ qs. at qs (suc j) ≡ at privs j) same
      (update_others f privs rest k j below λ equal. other (ap suc equal))

-- Where there are as many structures as devices, and each text lies in its array of 1024 bytes, a
-- write to a device k of any bytes stays in bounds and keeps to this, and a read of another
-- device j gives the same as before.
pub skeleton_write-isolated :
    (d : PrivData) (k j : ℕ) (bytes : Bytes) (ppos left : ℕ) (is_null : Bool) (count from kept : ℕ)
    → IsSound d
    → k < d.nb_devices
    → j ≢ k
    → (ret : ℕ) × (ppos' : ℕ) × (d' : PrivData) × (skeleton_write d k bytes ppos left
        ≡ ok (ret, ppos', d'))
      × IsSound d'
      × (skeleton_read d' j is_null count from kept ≡ skeleton_read d j is_null count from kept)
unfolding skeleton_write skeleton_read
skeleton_write-isolated d k j bytes ppos left is_null count from kept s below other =
    let n = s.all in
    let (p, here, sound) = at-IsSound d.priv k s.devices (omega arith) in
    let (ret, ppos', device, e, sound', _) =
      Transfer.skeleton_write-IsSound p.device bytes ppos left sound in
    let (privs, put, same, all) = update-IsSound device d.priv k s.devices sound' (omega arith) in
    (
      ret,
      ppos',
      record d { priv = privs },
      rw (here, e, put) refl,
      record { all = same ∙ n; devices = all },
      ap (λ m. and_then m λ p. CharDevice.skeleton_read p.device is_null count from kept)
          (update_others _ d.priv privs k j put other),
    )
