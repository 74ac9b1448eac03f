-- ===== src/MultiDevice/Index.antt =====
-- Which devices have their own place in the arrays.
use csel.Prelude.{
  ℕ, zero, suc, ◌*◌, ◌≤◌, ◌≡◌, refl, List, [], ◌∷◌, false, none, some, length, get_elem?, arith, ℤ,
  pos, ◌-ℤ◌,
}
use csel.Cstd.{Bytes, fault, over_read, buffer_overflow}
use csel.MultiDevice.{Devices, skeleton_read, skeleton_write, idx, size_at}

-- `n` devices, each with room for its text.
pub record IsSound (n : ℕ) (devs : Devices) : Type 0 where
  pub room : length devs.global_buffer ≡ n * 1024
  pub sizes : length devs.buffer_size ≡ n

get_elem?-beyond : (xs : List ℕ) (i : ℕ) → length xs ≤ i → get_elem? xs i ≡ none
get_elem?-beyond [] i h = refl
get_elem?-beyond (x ∷ xs) zero h = absurd (omega arith)
get_elem?-beyond (x ∷ xs) (suc i) h = get_elem?-beyond xs i (omega arith)

pub idx_device : (devs : Devices) (k : ℕ) → idx devs (devs.offset_minor -ℤ pos k) ≡ some (k * 1024)
idx_device devs k = ground arith

-- A read and a write of a device whose place is outside the array of the sizes.
read_beyond :
    (devs : Devices) (minor : ℤ) (i count ppos left : ℕ)
    → idx devs minor ≡ some i
    → length devs.buffer_size ≤ i
    → skeleton_read devs minor false count ppos left ≡ fault over_read
unfolding skeleton_read
read_beyond devs minor i count ppos left e far =
    rw (e, size_at, get_elem?-beyond devs.buffer_size i far) refl

write_beyond :
    (devs : Devices) (minor : ℤ) (i : ℕ) (bytes : Bytes) (ppos : ℕ)
    → idx devs minor ≡ some i
    → length devs.buffer_size ≤ i
    → 1 ≤ length bytes
    → length bytes ≤ 1023
    → skeleton_write devs minor bytes ppos 0 ≡ fault buffer_overflow
unfolding skeleton_write
write_beyond devs minor i bytes ppos e far some_bytes fits = rw e (ground arith)

-- With n devices, whose arrays have 1024 bytes and one size for each, and a device whose minor
-- number lies k below the first, where n is at most 1024 k: every read reads the array of sizes
-- outside its bounds, and every write of 1 to 1023 bytes that can be copied as a whole writes
-- outside of an array.
pub other_devices_fault :
    (n k : ℕ) (devs : Devices) (count ppos left : ℕ) (bytes : Bytes)
    → IsSound n devs
    → n ≤ k * 1024
    → 1 ≤ length bytes
    → length bytes ≤ 1023
    → let minor = devs.offset_minor -ℤ pos k in
      (skeleton_read devs minor false count ppos left ≡ fault over_read)
      × (skeleton_write devs minor bytes ppos 0 ≡ fault buffer_overflow)
other_devices_fault n k devs count ppos left bytes s far some_bytes fits = (
  read_beyond devs minor (k * 1024) count ppos left (idx_device devs k) beyond,
  write_beyond devs minor (k * 1024) bytes ppos (idx_device devs k) beyond some_bytes fits,
)
  where
    minor : ℤ
    minor = devs.offset_minor -ℤ pos k

    beyond : length devs.buffer_size ≤ k * 1024
    beyond = let e = s.sizes in omega arith
