-- ===== src/PinToggle/Waves.antt =====
-- The levels of the pin, round after round.
use Prim.Native.Nat.{bit_xor, differ}
use csel.Prelude.{
  none, ℕ, zero, suc, ◌+◌, ◌-◌, ◌%◌, ◌^◌, ◌≤◌, ◌≡◌, ◌≢◌, refl, ap, ◌∙◌, [], Bool, true, false, not,
  ◌==◌, arith, bit, bit-bit_xor, bit-pow, some, le→leb, negsuc, eqb_ℤ, if◌then◌else◌, Bool-cases,
  ◌⊎◌, inl, inr, ℤ,
}
use csel.Cstd.{ok, fault, invalid_pointer}
use csel.PinToggle.{Pin, level, write_levels, write_level, toggle_bit, mmio_main}

-- A bit is 0 or 1.
bit-le : (k v : ℕ) → bit k v ≤ 1
unfolding bit
bit-le zero v = omega arith
bit-le (suc k) v = bit-le k _

differ_one : (x : ℕ) → x ≤ 1 → differ x 1 ≡ 1 - x
differ_one zero h = refl
differ_one (suc zero) h = refl
differ_one (suc (suc x)) h = absurd (omega arith)

differ_zero : (x : ℕ) → differ x 0 ≡ x
differ_zero zero = refl
differ_zero (suc x) = refl

bit-toggled : (b v : ℕ) → bit b (bit_xor v (2 ^ b)) ≡ 1 - bit b v
bit-toggled b v =
    let own : bit b (2 ^ b) ≡ 1 = ground (arith, bit-pow b b) in
    rw (bit-bit_xor b v (2 ^ b), own) (differ_one (bit b v) (bit-le b v))

bit-kept : (k b v : ℕ) → k ≢ b → bit k (bit_xor v (2 ^ b)) ≡ bit k v
bit-kept k b v h =
    let other : bit k (2 ^ b) ≡ 0 = ground (arith, bit-pow k b) in
    rw (bit-bit_xor k v (2 ^ b), other) (differ_zero (bit k v))

-- The bit after so many rounds.
toggle_bit-own : (b n v : ℕ) → bit b (toggle_bit b n v) ≡ (bit b v + n) % 2
unfolding toggle_bit
toggle_bit-own b zero v = omega (arith, bit-le b v)
toggle_bit-own b (suc n) v =
    omega (arith, toggle_bit-own b n (bit_xor v (2 ^ b)), bit-toggled b v, bit-le b v)

toggle_bit-kept : (k b n v : ℕ) → k ≢ b → bit k (toggle_bit b n v) ≡ bit k v
unfolding toggle_bit
toggle_bit-kept k b zero v h = refl
toggle_bit-kept k b (suc n) v h =
    omega (arith, toggle_bit-kept k b n (bit_xor v (2 ^ b)) h, bit-kept k b v h)

flip_parity :
    (n : ℕ) (on : Bool)
    → (if n % 2 == 0 then not on else not (not on)) ≡ (if suc n % 2 == 0 then on else not on)
flip_parity n true = ground arith
flip_parity n false = ground arith

write_levels_lem :
    (n : ℕ) (p : Pin)
    → (write_levels (suc n) p).value ≡ level (if n % 2 == 0 then p.on else not p.on)
unfolding write_levels
write_levels_lem zero p = refl
write_levels_lem (suc n) p = write_levels_lem n (write_level p) ∙ ap level (flip_parity n p.on)

-- The pin of gpio.c before its first round.
abbrev pub off : Pin
off = record { on = false; value = [] }

last_level :
    (rounds w : ℕ)
    → bit 11 w ≡ rounds % 2
    → (write_levels (1000 + rounds) off).value ≡ level (bit 11 w == 0)
last_level rounds w h =
    let count : 1000 + rounds ≡ suc (999 + rounds) = omega arith in
    let parity : (if (999 + rounds) % 2 == 0 then false else true) ≡ (bit 11 w == 0) =
      ground arith in
    rw count (write_levels_lem (999 + rounds) off ∙ ap level parity)

data_back : toggle_bit 12 1000 0 ≡ 0
unfolding toggle_bit
data_back = refl

-- Both programs after so many rounds: the bit of the pin is the parity of the rounds, every other bit is
-- kept, `data` is back at 0, and gpio.c has written the opposite level.
abbrev pub OppositeWaves : (fd : ℤ) (page_size rounds v : ℕ) → Type 0
OppositeWaves fd page_size rounds v =
    (w : ℕ) × (mmio_main fd true page_size rounds v ≡ ok (some (w, 0)))
    × (bit 11 w ≡ rounds % 2)
    × ((k : ℕ) → k ≢ 11 → bit k w ≡ bit k v)
    × ((write_levels (1000 + rounds) off).value ≡ level (bit 11 w == 0))

waves :
    (fd : ℤ) (page_size rounds v : ℕ)
    → 2284 ≤ page_size
    → bit 11 v ≡ 0
    → eqb_ℤ fd (negsuc 0) ≡ false
    → OppositeWaves fd page_size rounds v
unfolding mmio_main
waves fd page_size rounds v fits clear opened =
    let w = toggle_bit 11 rounds (toggle_bit 11 1000 v) in
    let own : bit 11 w ≡ rounds % 2 =
      omega (arith, toggle_bit-own 11 rounds (toggle_bit 11 1000 v), toggle_bit-own 11 1000 v) in
    (
      w,
      rw (opened, le→leb 2284 page_size fits, data_back) refl,
      own,
      (λ k h. toggle_bit-kept k 11 rounds (toggle_bit 11 1000 v) h ∙ toggle_bit-kept k 11 1000 v h),
      last_level rounds w own,
    )

-- Where a page has at least 2284 bytes, and the bit of the pin is clear in the data register when
-- mmio.c begins to toggle it: if /dev/mem could not be opened, mmio.c returns; otherwise, if the
-- page could not be mapped, it goes on to use an invalid pointer; otherwise, after its thousand
-- rounds and `rounds` more, the bit is set exactly if `rounds` is odd, every other bit of the
-- register is as it was, and `data` is back at 0, and after as many rounds gpio.c has last
-- written the opposite level.
pub opposite_waves :
    (fd : ℤ) (mapped : Bool) (page_size rounds v : ℕ)
    → 2284 ≤ page_size
    → bit 11 v ≡ 0
    → ((fd ≡ negsuc 0) × (mmio_main fd mapped page_size rounds v ≡ ok none))
      ⊎ ((fd ≢ negsuc 0)
          × (mapped ≡ false)
          × (mmio_main fd mapped page_size rounds v ≡ fault invalid_pointer))
      ⊎ ((fd ≢ negsuc 0) × (mapped ≡ true) × OppositeWaves fd page_size rounds v)
unfolding mmio_main
opposite_waves fd mapped page_size rounds v fits clear = elim (Bool-cases (eqb_ℤ fd (negsuc 0))) [
  | inl missing ↦ inl (ground arith, rw missing refl)
  | inr opened ↦ elim (Bool-cases mapped) [
    | inr failed ↦ inr (inl (ground arith, failed, rw (opened, failed) refl))
    | inl found ↦ inr (inr (ground arith, found, waves fd page_size rounds v fits clear opened))
  ]
]
