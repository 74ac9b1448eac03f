-- ===== src/CharDevice.antt =====
-- Pilote_ex2/ex2_fops_base/skeleton.c: a character device that keeps the last text written to it.
pub mod Transfer
use csel.Prelude.{
  ℕ, ◌+◌, ◌-◌, List, [], ◌∷◌, ◌++◌, Bool, true, false, ◌||◌, ltb, leb, ◌==◌, if◌then◌else◌, length,
  take, drop, replicate, ℤ, pos, eqb_ℤ,
}
use csel.Cstd.{Bytes, Outcome, ok, fault, buffer_overflow, over_read}

abbrev pub buffer_size_max : ℕ
buffer_size_max = 1024

-- The array `global_buffer` of BUFFER_SIZE bytes, and `buffer_size`.
pub record Device : Type 0 where
  pub global_buffer : Bytes
  pub buffer_size : ℕ

-- The device of a module that was loaded.
abbrev pub loaded : Device
loaded = record { global_buffer = replicate buffer_size_max 0; buffer_size = 0 }

-- A read of `count` bytes at the position `ppos`: the result, the new position, and the bytes that
-- reach the user. copy_to_user leaves `left` of them out.
unfoldable pub skeleton_read :
    Device → (is_null : Bool) → (count ppos left : ℕ) → Outcome (ℕ × ℕ × Bytes)
skeleton_read dev is_null count ppos left =
    if is_null || ltb count dev.buffer_size
    then ok (0, ppos, [])
    else if leb dev.buffer_size ppos
    then ok (0, ppos, [])
    else if ltb (length dev.global_buffer) dev.buffer_size
    then fault over_read
    else if left == 0
    then ok (dev.buffer_size, dev.buffer_size, take dev.buffer_size dev.global_buffer)
    else ok (0, ppos, take (dev.buffer_size - left) dev.global_buffer)

-- A write: `bytes` is what copy_from_user puts into the array, one byte for each that the user asks to
-- write, and `left` is the number of those that it could not copy. The result, the new position and the
-- device.
unfoldable pub skeleton_write : Device → Bytes → (ppos left : ℕ) → Outcome (ℕ × ℕ × Device)
skeleton_write dev bytes ppos left =
    let count = length bytes in
    if count == 0
    then ok (0, ppos, dev)
    else if leb buffer_size_max count
    then ok (0, ppos, dev)
    else if ltb (length dev.global_buffer) (count + 1)
    then fault buffer_overflow
    else if left == 0
    then ok (
      count,
      0,
      record {
        global_buffer = bytes ++ 0 ∷ drop (count + 1) dev.global_buffer;
        buffer_size = count + 1;
      },
    )
    else ok (0, 0, record dev { global_buffer = bytes ++ drop count dev.global_buffer })

-- misc_register answers with `error`.
unfoldable pub skeleton_init : Device → (error : ℤ) → ℤ × Device
skeleton_init dev error =
    let dev' = record dev { buffer_size = 0 } in
    if eqb_ℤ error (pos 0) then (pos 0, dev') else (error, dev')
