-- ===== src/MultiDevice.antt =====
-- Pilote_ex2/ex3_fops_base_2/skeleton.c: a module with NB_Devices character devices, which share one
-- array for their texts and one for the sizes of these.
pub mod First
pub mod Index
pub mod Loading
pub mod Private
use csel.Prelude.{
  ℕ, not, zero, suc, ◌+◌, ◌-◌, ◌*◌, List, [], ◌∷◌, ◌++◌, Bool, true, false, ◌||◌, ltb, leb, ◌==◌,
  Option, none, some, if◌then◌else◌, length, take, drop, replicate, get_elem?, ℤ, pos, negsuc, ◌-ℤ◌,
  eqb_ℤ,
}
use csel.Cstd.{
  Bytes, codes, Outcome, ok, fault, and_then, buffer_overflow, over_read, sprintf, format_int,
}
use csel.CharDevice.{buffer_size_max}

pub record Devices : Type 0 where
  pub global_buffer : Bytes
  pub buffer_size : List ℕ
  pub offset_minor : ℤ

-- (offset_minor - minor) * BUFFER_SIZE, where it is not negative
abbrev pub idx_of : ℤ → Option ℕ
idx_of (pos n) = some (n * buffer_size_max)
idx_of (negsuc n) = none

abbrev pub idx : Devices → ℤ → Option ℕ
idx devs minor = idx_of (devs.offset_minor -ℤ minor)

-- buffer_size[i], and global_buffer + i for `size` bytes
abbrev pub size_at : Devices → Option ℕ → Outcome ℕ
size_at devs none = fault over_read
size_at devs (some i) = elim (get_elem? devs.buffer_size i) [
  | none ↦ fault over_read
  | some size ↦ ok size
]

abbrev pub bytes_at : Devices → Option ℕ → ℕ → Outcome Bytes
bytes_at devs none size = fault over_read
bytes_at devs (some i) size =
    if leb (i + size) (length devs.global_buffer)
    then ok (take size (drop i devs.global_buffer))
    else fault over_read

-- Bytes put into an array at `i`, if they fit.
abbrev pub put_at : List ℕ → Option ℕ → List ℕ → Outcome (List ℕ)
put_at xs none ys = fault buffer_overflow
put_at xs (some i) ys =
    if leb (i + length ys) (length xs)
    then ok (take i xs ++ (ys ++ drop (i + length ys) xs))
    else fault buffer_overflow

-- As for one device: the result, the new position, and the bytes that reach the user.
unfoldable pub skeleton_read :
    Devices → ℤ → (is_null : Bool) → (count ppos left : ℕ) → Outcome (ℕ × ℕ × Bytes)
skeleton_read devs minor is_null count ppos left =
    if is_null
    then ok (0, ppos, [])
    else and_then (size_at devs (idx devs minor)) λ size.
      if ltb count size
      then ok (0, ppos, [])
      else if leb size ppos
      then ok (0, ppos, [])
      else and_then (bytes_at devs (idx devs minor) size) λ bytes.
        if left == 0 then ok (size, size, bytes) else ok (0, ppos, take (size - left) bytes)

unfoldable pub skeleton_write : Devices → ℤ → Bytes → (ppos left : ℕ) → Outcome (ℕ × ℕ × Devices)
skeleton_write devs minor bytes ppos left =
    let count = length bytes in
    let i = idx devs minor in
    if count == 0
    then ok (0, ppos, devs)
    else if leb buffer_size_max count
    then ok (0, ppos, devs)
    else if left == 0
    then and_then (put_at devs.global_buffer i (bytes ++ 0 ∷ [])) (λ buffer.
      and_then (put_at devs.buffer_size i ((count + 1) ∷ []))
        λ sizes. ok (count, 0, record devs { global_buffer = buffer; buffer_size = sizes }))
    else and_then (put_at devs.global_buffer i bytes)
        λ buffer. ok (0, 0, record devs { global_buffer = buffer })

-- What the load gets from the kernel: whether the three allocations succeed, and for each device the
-- result of misc_register and the minor number that it is given.
pub record Answers : Type 0 where
  pub mymisc : Bool
  pub buffer : Bool
  pub sizes : Bool
  pub registers : List (ℤ × ℤ)

abbrev device_name : ℕ → Bytes
device_name i = codes "myMisc_" ++ format_int (pos i)

-- -ENOMEM
abbrev pub enomem : ℤ
enomem = negsuc 11

-- The loop over the devices from `i` on, `rounds` of them: the result, and the minor numbers of those that
-- are registered. The name of each is printed into ten bytes.
unfoldable pub register_devices : (rounds i : ℕ) → List (ℤ × ℤ) → Outcome (ℤ × List ℤ)
unfolding sprintf
register_devices zero i answers = ok (pos 0, [])
register_devices (suc rounds) i [] = ok (enomem, [])
register_devices (suc rounds) i ((error, minor) ∷ answers) =
    let rest = register_devices rounds (i + 1) answers in
    and_then (sprintf 10 (device_name i)) λ _.
      if eqb_ℤ error (pos 0)
      then and_then rest (λ (ret, minors). ok (ret, minor ∷ minors))
      else ok (error, [])

-- offset_minor = mymisc[0].minor
abbrev pub first_minor : List ℤ → Outcome ℤ
first_minor [] = fault over_read
first_minor (m ∷ ms) = ok m

abbrev pub allocate : ℕ → Answers → ℤ → ℤ × Option Devices
allocate n a offset =
    if not a.buffer then (enomem, none) else if not a.sizes then (enomem, none) else (
      pos 0,
      some (record {
        global_buffer = replicate (n * buffer_size_max) 0;
        buffer_size = replicate n 0;
        offset_minor = offset;
      }),
    )

-- The number of devices that NB_Devices asks for: the loop makes no round where it is negative.
abbrev pub rounds_of : ℤ → ℕ
rounds_of (pos n) = n
rounds_of (negsuc n) = 0

-- The result, the devices, and the minor numbers that are registered.
unfoldable pub skeleton_init : ℤ → Answers → Outcome (ℤ × Option Devices × List ℤ)
unfolding register_devices
skeleton_init nb_devices a =
    if not a.mymisc
    then ok (enomem, none, [])
    else and_then (register_devices (rounds_of nb_devices) 0 a.registers) λ (ret, minors).
      if eqb_ℤ ret (pos 0)
      then and_then (first_minor minors) (λ offset.
        let (r, devs) = allocate (rounds_of nb_devices) a offset in ok (r, devs, minors))
      else ok (ret, none, minors)

-- misc_deregister for `rounds` devices of those in mymisc.
unfoldable pub deregister_devices : (rounds : ℕ) → List ℤ → Outcome (List ℤ)
deregister_devices zero minors = ok minors
deregister_devices (suc rounds) [] = fault over_read
deregister_devices (suc rounds) (minor ∷ minors) = deregister_devices rounds minors

-- The devices and their arrays, which are freed, and the minor numbers that stay registered.
unfoldable pub skeleton_exit : ℤ → Option Devices → List ℤ → Outcome (Option Devices × List ℤ)
unfolding deregister_devices
skeleton_exit nb_devices devs minors =
    and_then (deregister_devices (rounds_of nb_devices) minors) λ rest. ok (none, rest)
