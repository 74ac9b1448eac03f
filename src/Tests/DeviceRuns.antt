-- ===== src/Tests/DeviceRuns.antt =====
-- Runs of the character device.
use csel.Prelude.{pos, ◌≡◌, refl, [], ◌∷◌, ◌++◌, false, arith}
use csel.Cstd.{codes, ok}
use csel.CharDevice.{Device, loaded, skeleton_read, skeleton_write, skeleton_init}
use csel.CharDevice.Transfer.{IsSound, read_after_write}

loaded-IsSound : IsSound loaded
loaded-IsSound = record { room = refl; inside = omega arith }

-- Nothing can be read before the first write.
empty : skeleton_read loaded false 100 0 0 ≡ ok (0, 0, [])
unfolding skeleton_read
empty = refl

read_after_write_example :
    (dev' : Device) × (skeleton_write loaded (codes "salut") 3 0 ≡ ok (5, 0, dev'))
    × (skeleton_read dev' false 6 0 0 ≡ ok (6, 6, codes "salut" ++ 0 ∷ []))
    × (skeleton_read dev' false 6 6 0 ≡ ok (0, 6, []))
read_after_write_example =
    read_after_write loaded (codes "salut") 3 6 loaded-IsSound (omega arith) (omega arith)
      (omega arith)

loading : skeleton_init loaded (pos 0) ≡ (pos 0, loaded)
unfolding skeleton_init
loading = refl
