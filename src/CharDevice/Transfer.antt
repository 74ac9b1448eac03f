-- ===== src/CharDevice/Transfer.antt =====
-- Reads and writes of the device: their bounds, and what a reader gets of what was written.
use csel.Prelude.{
  ℕ, ◌+◌, ◌≤◌, ◌≡◌, refl, inl, inr, [], ◌∷◌, ◌++◌, true, false, leb, ltb, ◌==◌, length, take, drop,
  take-append, length-append, length-drop, arith, Bool-cases,
}
use csel.Cstd.{Bytes, ok}
use csel.CharDevice.{Device, skeleton_read, skeleton_write}

-- The array has its 1024 bytes, and the text lies in it.
pub record IsSound (dev : Device) : Type 0 where
  pub room : length dev.global_buffer ≡ 1024
  pub inside : dev.buffer_size ≤ 1024

-- The device after a write that was copied as a whole, and after one that was not.
abbrev stored : Device → Bytes → Device
stored dev bytes = record {
  global_buffer = bytes ++ 0 ∷ drop (length bytes + 1) dev.global_buffer;
  buffer_size = length bytes + 1;
}

abbrev half_stored : Device → Bytes → Device
half_stored dev bytes = record dev {
  global_buffer = bytes ++ drop (length bytes) dev.global_buffer;
}

stored-IsSound :
    (dev : Device) (bytes : Bytes) → IsSound dev → length bytes ≤ 1023 → IsSound (stored dev bytes)
stored-IsSound dev bytes s fits =
    let rest = drop (length bytes + 1) dev.global_buffer in
    let l = length-append bytes (0 ∷ rest) in
    let r = length-drop (length bytes + 1) dev.global_buffer in
    let room = s.room in record { room = omega arith; inside = omega arith }

half_stored-IsSound :
    (dev : Device) (bytes : Bytes)
    → IsSound dev
    → length bytes ≤ 1023
    → IsSound (half_stored dev bytes)
half_stored-IsSound dev bytes s fits =
    let rest = drop (length bytes) dev.global_buffer in
    let l = length-append bytes rest in
    let r = length-drop (length bytes) dev.global_buffer in
    let room = s.room in record { room = omega arith; inside = s.inside }

-- A write of any bytes, at any position and however much of it could be copied, keeps to the
-- array of 1024 bytes where the array has this size and the text lies in it; the device is such a
-- one afterwards, and the result is at most the number of bytes that were to be written.
pub skeleton_write-IsSound :
    (dev : Device) (bytes : Bytes) (ppos left : ℕ)
    → IsSound dev
    → (ret : ℕ) × (ppos' : ℕ) × (dev' : Device) × (skeleton_write dev bytes ppos left
        ≡ ok (ret, ppos', dev'))
      × IsSound dev'
      × (ret ≤ length bytes)
unfolding skeleton_write
skeleton_write-IsSound dev bytes ppos left s = elim (Bool-cases (length bytes == 0)) [
  | inl t ↦ (0, ppos, dev, rw t refl, s, omega arith)
  | inr t ↦ elim (Bool-cases (leb 1024 (length bytes))) [
    | inl u ↦ (0, ppos, dev, rw (t, u) refl, s, omega arith)
    | inr u ↦
        let v : ltb (length dev.global_buffer) (length bytes + 1) ≡ false =
          ground (arith, s.room, u) in
        elim (Bool-cases (left == 0)) [
          | inl w ↦ (
            length bytes,
            0,
            stored dev bytes,
            rw (t, u, v, w) refl,
            stored-IsSound dev bytes s (ground (arith, u)),
            omega arith,
          )
          | inr w ↦ (
            0,
            0,
            half_stored dev bytes,
            rw (t, u, v, w) refl,
            half_stored-IsSound dev bytes s (ground (arith, u)),
            omega arith,
          )
        ]
  ]
]

-- After a write of 1 to 1023 bytes that is copied as a whole into a device whose array has its
-- 1024 bytes, a read from the start with room for one byte more gives these bytes and a NUL, and
-- the next read, from the position where that one ended, gives nothing.
pub read_after_write :
    (dev : Device) (bytes : Bytes) (ppos count : ℕ)
    → IsSound dev
    → 1 ≤ length bytes
    → length bytes ≤ 1023
    → length bytes + 1 ≤ count
    → (dev' : Device) × (skeleton_write dev bytes ppos 0 ≡ ok (length bytes, 0, dev'))
      × (skeleton_read dev' false count 0 0
          ≡ ok (length bytes + 1, length bytes + 1, bytes ++ 0 ∷ []))
      × (skeleton_read dev' false count (length bytes + 1) 0 ≡ ok (0, length bytes + 1, []))
unfolding skeleton_write skeleton_read
read_after_write dev bytes ppos count s some_text fits room =
    let t : (length bytes == 0) ≡ false = ground arith in
    let u : leb 1024 (length bytes) ≡ false = ground arith in
    let v : ltb (length dev.global_buffer) (length bytes + 1) ≡ false = ground (arith, s.room) in
    let small : ltb count (length bytes + 1) ≡ false = ground arith in
    let start : leb (length bytes + 1) 0 ≡ false = ground arith in
    let end : leb (length bytes + 1) (length bytes + 1) ≡ true = ground arith in
    let sound = stored-IsSound dev bytes s fits in
    let held : ltb (length (stored dev bytes).global_buffer) (length bytes + 1) ≡ false =
      ground (arith, sound.room) in
    let text : take (length bytes + 1) (stored dev bytes).global_buffer ≡ bytes ++ 0 ∷ [] =
      take-append (length bytes + 1) 1 bytes _ refl in
    (stored dev bytes, rw (t, u, v) refl, rw (small, start, held, text) refl, rw (small, end) refl)
