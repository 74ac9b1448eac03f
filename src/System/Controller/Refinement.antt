-- ===== src/System/Controller/Refinement.antt =====
-- Sequences of acts: the daemon, the module and the answers against the fan as a user knows it.
use csel.Prelude.{ℕ, ◌≤ℤ◌, ◌≡◌, refl, ◌≢◌, Option, some, List, [], ◌∷◌, arith, ℤ, pos, negsuc}
use csel.Cstd.{ok}
use csel.FanPwm.{Kernel, IsDocumented}
use csel.System.Control.{Attribute, mode_attr}
use csel.System.Controller.{
  Act, presses_k1, presses_k2, presses_k3, looks, asks_setmode, asks_setfreq, asks_getfreq, Fan,
  fan_after, IsAllowed, Machine, AllAllowed, run_machine, run_fan,
}
use csel.System.Controller.Simulation.{Agrees, Refines}
use csel.System.Controller.Requests.{k3-Refines, setmode-Refines, getfreq-Refines, setfreq-Refines}
use csel.System.Controller.Steps.{k1-Refines, k2-Refines, looks-Refines}

module _ (k : Kernel) (doc : IsDocumented k) (attribute_of : ℤ → Option Attribute) (f : ℤ)
    (on_mode : attribute_of f ≡ some mode_attr) (good : f ≢ negsuc 0) where
  nat_of : (a : ℤ) → pos 0 ≤ℤ a → (n : ℕ) × (a ≡ pos n)
  nat_of (pos n) h = (n, refl)
  nat_of (negsuc n) h = absurd (omega arith)

  act-Refines :
      (act : Act) (s : Machine) (c : Fan)
      → IsAllowed act c
      → Agrees k attribute_of f s c
      → Refines k attribute_of f act s c
  act-Refines presses_k1 s c allowed h =
      let (n, e) = nat_of c.seen allowed.0 in
      k1-Refines k doc attribute_of f on_mode good n s c e (ground arith) h
  act-Refines presses_k2 s c allowed h =
      k2-Refines k doc attribute_of f on_mode good c.seen s c refl allowed.0 allowed.1 h
  act-Refines looks s c allowed h = looks-Refines k doc attribute_of f on_mode good s c allowed h
  act-Refines presses_k3 s c allowed h = k3-Refines k doc attribute_of f on_mode good s c h
  act-Refines (asks_setmode env stale v) s c allowed h =
      setmode-Refines k doc attribute_of f on_mode good env stale v s c allowed h
  act-Refines (asks_setfreq env stale v) s c allowed h =
      setfreq-Refines k doc attribute_of f on_mode good env stale v s c allowed h
  act-Refines (asks_getfreq env stale) s c allowed h =
      getfreq-Refines k doc attribute_of f on_mode good env stale s c h

  -- For a kernel that does what is documented, where the mode's file always opens as a descriptor
  -- other than -1 that is open on the module's attribute `mode`: from a state in which the daemon
  -- and the module have the mode and the frequency of the fan, any presses of K1, K2 and K3,
  -- looks of the daemon at the module's frequency, and requests of the client to set the mode, to
  -- set the frequency or to tell it, each allowed when it comes, run to their end, and leave the
  -- daemon and the module with the mode and the frequency that the fan then has; and the strings
  -- sent to the client are the answers of the fan: OK to a frequency that is set, AUTO to one
  -- that is refused, and the frequency at the last look in decimal to the request to tell it.
  -- There K3 takes the other mode, and a mode that is set is taken; in mode 1 alone, a frequency
  -- that is set is taken, and K1 and K2 step up and down from the frequency at the last look.
  -- Allowed are requests with ints above -999999999, looks at a frequency from -99 to 999, and
  -- presses of K1 and K2 where the frequency at the last look is not negative and, for K1, at
  -- most 2147483597.
  pub acts_refine :
      (acts : List Act) (s : Machine) (c : Fan)
      → AllAllowed acts c
      → Agrees k attribute_of f s c
      → (s' : Machine) × (run_machine k attribute_of f acts s ≡ ok s')
        × Agrees k attribute_of f s' (run_fan acts c)
  unfolding run_machine run_fan
  acts_refine [] s c allowed h = (s, refl, h)
  acts_refine (act ∷ acts) s c allowed h =
      let (s1, first, h1) = act-Refines act s c allowed.0 h in
      let (s2, rest, h2) = acts_refine acts s1 (fan_after act c) allowed.1 h1 in
      (s2, rw (first, rest) refl, h2)
