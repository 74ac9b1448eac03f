-- ===== src/PollDevice/Loading.antt =====
-- What a load leaves registered, and what unloading gives back.
use csel.Prelude.{◌≡◌, ◌≢◌, ◌↔◌, true, false, arith, pos}
use csel.PollDevice.{Held, Answers, skeleton_init}

abbrev pub nothing : Held
nothing = record { misc = false; key0 = false; key1 = false; key2 = false }

pub skeleton_init_lem :
    (a : Answers)
    → (((skeleton_init a nothing).0 ≡ pos 0) ↔ (
        (skeleton_init a nothing).1
        ≡ record { misc = true; key0 = true; key1 = true; key2 = true }))
      × (((skeleton_init a nothing).1 ≡ nothing) ↔ (a.misc ≢ pos 0))
unfolding skeleton_init
skeleton_init_lem a = ground arith
