-- ===== src/MultiDevice/First.antt =====
-- The first device beside the others.
use csel.Prelude.{
  ℕ, zero, suc, ◌+◌, ◌-◌, ◌≤◌, ◌≡◌, refl, ap, ◌∙◌, List, [], ◌∷◌, ◌++◌, Bool, true, false, ◌||◌,
  if◌then◌else◌, length, take, drop, some, Bool-cases, inl, inr, leb, ltb, ◌==◌, length-append,
  length-take, arith, append_assoc,
}
use csel.Cstd.{Bytes, Outcome, ok, and_then}
use csel.CharDevice
use csel.CharDevice.{Device}
use csel.MultiDevice.{Devices, skeleton_read, skeleton_write, idx, size_at, put_at, bytes_at}
use csel.MultiDevice.Index.{IsSound}

first_size : List ℕ → ℕ
first_size [] = 0
first_size (size ∷ sizes) = size

-- The first device, with the part of the array that is its own.
unfoldable pub first : Devices → Device
unfolding first_size
first devs = record {
  global_buffer = take 1024 devs.global_buffer;
  buffer_size = first_size devs.buffer_size;
}

-- What a write of the first device does to it.
unfoldable pub view : Outcome (ℕ × ℕ × Devices) → Outcome (ℕ × ℕ × Device)
unfolding first
view out = and_then out λ (n, ppos, devs). ok (n, ppos, first devs)

take_over :
    (m : ℕ) (ys xs : Bytes)
    → length ys ≤ m
    → m ≤ length xs
    → take m (ys ++ drop (length ys) xs) ≡ ys ++ drop (length ys) (take m xs)
take_over m [] xs h room = refl
take_over zero (y ∷ ys) xs h room = absurd (omega arith)
take_over (suc m) (y ∷ ys) [] h room = absurd (omega arith)
take_over (suc m) (y ∷ ys) (x ∷ xs) h room =
    ap (λ zs. y ∷ zs) (take_over m ys xs (omega arith) (omega arith))

take_less : (m n : ℕ) (xs : Bytes) → m ≤ n → take m (take n xs) ≡ take m xs
take_less zero n xs h = refl
take_less (suc m) zero xs h = absurd (omega arith)
take_less (suc m) (suc n) [] h = refl
take_less (suc m) (suc n) (x ∷ xs) h = ap (λ zs. x ∷ zs) (take_less m n xs (omega arith))

idx_self : (devs : Devices) → idx devs devs.offset_minor ≡ some 0
idx_self devs = ground arith

guards :
    {A : Type 0} (a b : Bool) (x y : A)
    → (if a then x else if b then x else y) ≡ (if a || b then x else y)
guards true b x y = refl
guards false b x y = refl

long_enough : (n : ℕ) (xs : Bytes) → n ≤ length xs → length (take n xs) ≡ n
long_enough n xs h = omega (arith, length-take n xs)

bytes_first :
    (devs : Devices) (size : ℕ)
    → size ≤ 1024
    → 1024 ≤ length devs.global_buffer
    → bytes_at devs (some 0) size ≡ ok (take size devs.global_buffer)
bytes_first devs size fits room = ground arith

ltb-long :
    (devs : Devices) (size : ℕ)
    → size ≤ 1024
    → 1024 ≤ length devs.global_buffer
    → ltb (length (take 1024 devs.global_buffer)) size ≡ false
ltb-long devs size fits room = rw (long_enough 1024 devs.global_buffer room) (ground arith)

read_first :
    (devs : Devices) (size : ℕ) (sizes : List ℕ) (is_null : Bool) (count ppos left : ℕ)
    → devs.buffer_size ≡ size ∷ sizes
    → size ≤ 1024
    → 1024 ≤ length devs.global_buffer
    → skeleton_read devs devs.offset_minor is_null count ppos left
      ≡ CharDevice.skeleton_read (first devs) is_null count ppos left
unfolding skeleton_read CharDevice.skeleton_read first first_size
read_first devs size sizes is_null count ppos left e fits room =
    rw (e, idx_self devs, size_at, e, and_then, bytes_first devs size fits room, and_then)
      (rw (ltb-long devs size fits room, take_less size 1024 devs.global_buffer fits)
        (rw
          (
            take_less (size - left) 1024 devs.global_buffer (omega arith),
            take_less (size - left) size devs.global_buffer (omega arith),
          )
          (guards is_null (ltb count size) _ _)))

put_first :
    (ys xs : Bytes)
    → length ys ≤ 1024
    → 1024 ≤ length xs
    → put_at xs (some 0) ys ≡ ok (ys ++ drop (length ys) xs)
put_first ys xs h room = ground arith

put_size :
    (size : ℕ) (sizes : List ℕ) (n : ℕ) → put_at (size ∷ sizes) (some 0) (n ∷ []) ≡ ok (n ∷ sizes)
put_size size sizes n = ground arith

-- The writes that reach the array.
short_write_first :
    (devs : Devices) (size : ℕ) (sizes : List ℕ) (bytes : Bytes) (ppos left : ℕ)
    → devs.buffer_size ≡ size ∷ sizes
    → 1024 ≤ length devs.global_buffer
    → (length bytes == 0) ≡ false
    → leb 1024 (length bytes) ≡ false
    → view (skeleton_write devs devs.offset_minor bytes ppos left)
      ≡ CharDevice.skeleton_write (first devs) bytes ppos left
unfolding skeleton_write CharDevice.skeleton_write view first first_size
short_write_first devs size sizes bytes ppos left e room some_bytes few =
    elim (Bool-cases (left == 0)) [
      | inl all ↦
          rw
            (
              some_bytes,
              few,
              all,
              idx_self devs,
              put_first (bytes ++ 0 ∷ []) devs.global_buffer fits room,
            )
            (rw (e, put_size size sizes (length bytes + 1), enough)
              (ap
                (λ zs.
                  ok (
                    length bytes,
                    0,
                    record { global_buffer = zs; buffer_size = length bytes + 1 },
                  ))
                text))
      | inr part ↦
          rw
            (
              some_bytes,
              few,
              part,
              idx_self devs,
              put_first bytes devs.global_buffer (ground arith) room,
              enough,
            )
            (rw (take_over 1024 bytes devs.global_buffer (ground arith) room) refl)
    ]
  where
    count : length (bytes ++ 0 ∷ []) ≡ length bytes + 1
    count = length-append bytes (0 ∷ [])

    fits : length (bytes ++ 0 ∷ []) ≤ 1024
    fits = rw count (ground arith)

    enough : ltb (length (take 1024 devs.global_buffer)) (length bytes + 1) ≡ false
    enough = ltb-long devs (length bytes + 1) (ground arith) room

    text :
        take 1024 ((bytes ++ 0 ∷ []) ++ drop (length (bytes ++ 0 ∷ [])) devs.global_buffer)
        ≡ bytes ++ 0 ∷ drop (length bytes + 1) (take 1024 devs.global_buffer)
    text =
        take_over 1024 (bytes ++ 0 ∷ []) devs.global_buffer fits room
        ∙ rw count (append_assoc bytes (0 ∷ []) _)

write_first :
    (devs : Devices) (size : ℕ) (sizes : List ℕ) (bytes : Bytes) (ppos left : ℕ)
    → devs.buffer_size ≡ size ∷ sizes
    → 1024 ≤ length devs.global_buffer
    → view (skeleton_write devs devs.offset_minor bytes ppos left)
      ≡ CharDevice.skeleton_write (first devs) bytes ppos left
unfolding skeleton_write CharDevice.skeleton_write view first first_size
write_first devs size sizes bytes ppos left e room = elim (Bool-cases (length bytes == 0)) [
  | inl none_given ↦ rw none_given refl
  | inr some_bytes ↦ elim (Bool-cases (leb 1024 (length bytes))) [
    | inl many ↦ rw (some_bytes, many) refl
    | inr few ↦ short_write_first devs size sizes bytes ppos left e room some_bytes few
  ]
]

-- In a module with one or more devices, whose arrays have 1024 bytes and one size for each
-- device, and where the size of the first is at most 1024, a read and a write of the device with
-- the first minor number do what those of the module with one device do, on the first 1024 bytes
-- and the first size.
pub first_device_alone :
    (n : ℕ) (devs : Devices) (size : ℕ) (sizes : List ℕ) (is_null : Bool) (count ppos left : ℕ)
    (bytes : Bytes)
    → IsSound (suc n) devs
    → devs.buffer_size ≡ size ∷ sizes
    → size ≤ 1024
    → let minor = devs.offset_minor in
      (skeleton_read devs minor is_null count ppos left
        ≡ CharDevice.skeleton_read (first devs) is_null count ppos left)
      × (view (skeleton_write devs minor bytes ppos left)
          ≡ CharDevice.skeleton_write (first devs) bytes ppos left)
first_device_alone n devs size sizes is_null count ppos left bytes s e fits =
    let room = s.room in
    let enough : 1024 ≤ length devs.global_buffer = omega arith in
    (
      read_first devs size sizes is_null count ppos left e fits enough,
      write_first devs size sizes bytes ppos left e enough,
    )
