-- ===== src/ChipRegisters/Agreement.antt =====
-- The module and the program print the same number of the chip.
use csel.Prelude.{
  ℕ, ◌+◌, ◌*◌, ◌%◌, ◌^◌, ◌≤◌, ◌<◌, ◌≡◌, refl, true, false, List, [], ◌∷◌, leb, some, ℤ, pos,
  signed32, arith, ltb_ℤ, Bool-cases, inl, inr, if◌then◌else◌, sub_ℕ, ◌/◌, leb→le, le→leb,
}
use csel.Cstd.{add_int, signed_overflow, ok, fault}
use csel.ChipRegisters.{
  by_10, times_1191, Registers, id_address, temp_address, mac_address, temp_c, read_id, read_log,
  read_seg, main, Log, skeleton_init, Answers, read_mac,
}

product_lem :
    (n : ℕ)
    → times_1191 (pos n)
      ≡ (if leb n 1803092 then ok (sub_ℕ 0 (1191 * n)) else fault signed_overflow)
product_lem n = ground arith

quotient_lem : (m : ℕ) → by_10 (sub_ℕ 0 m) ≡ sub_ℕ 0 (m / 10)
quotient_lem m = ground arith

sum_lem : (q : ℕ) → q ≤ 2 ^ 31 → add_int (sub_ℕ 0 q) (pos 223000) ≡ ok (sub_ℕ 223000 q)
sum_lem q h = ground arith

-- The temperature of a raw value that is not negative, or the overflow of int.
temp_c_lem :
    (n : ℕ)
    → temp_c (pos n)
      ≡ (if leb n 1803092 then ok (sub_ℕ 223000 (1191 * n / 10)) else fault signed_overflow)
unfolding temp_c
temp_c_lem n = elim (Bool-cases (leb n 1803092)) [
  | inl small ↦
      let few = leb→le n 1803092 small in
      rw (product_lem n, small, quotient_lem (1191 * n)) (sum_lem (1191 * n / 10) (omega arith))
  | inr large ↦ rw (product_lem n, large) refl
]

read_seg-read_id :
    (r : Registers) (page_size : ℕ)
    → 528 ≤ page_size
    → id_address % page_size ≡ 512
    → read_seg r page_size 4 0 ≡ ok (read_id r 4 0)
unfolding read_seg read_id
read_seg-read_id r page_size fits offset =
    rw
      (
        offset,
        le→leb 528 page_size fits,
        le→leb 524 page_size (omega arith),
        le→leb 520 page_size (omega arith),
        le→leb 516 page_size (omega arith),
      )
      refl

abbrev pub granted : Answers
granted = record { chip_id = true; temp = true; mac = true }

-- The four words of the chip's number.
abbrev pub chip_words : Registers → List ℕ
chip_words r =
    r.word id_address
    ∷ r.word (id_address + 4)
    ∷ r.word (id_address + 8)
    ∷ r.word (id_address + 12)
    ∷ []

-- What a load logs of registers whose temperature is this.
abbrev pub log_of : Registers → ℤ → Log
log_of r temp = record { temp = temp; mac = read_mac r; chip_id = chip_words r }

-- Where the module's three mappings succeed and the register of the temperature is not negative
-- as an int, a load of the module succeeds exactly if the register is at most 1803092, logs then
-- the temperature 223000 - 1191 n / 10 and the four words of the chip's number, and leaves int
-- otherwise. The program, where it opens /dev/mem with a descriptor that is not negative and its
-- mapping succeeds, prints these words too if its page has them: where the remainder of their
-- address by the size of a page is the 512 that the program adds, and a page has at least 528
-- bytes.
pub chip_id_agrees :
    (r : Registers) (fd page_size : ℕ)
    → r.word temp_address < 2 ^ 31
    → 528 ≤ page_size
    → id_address % page_size ≡ 512
    → (skeleton_init r granted ≡ (
        if leb (r.word temp_address) 1803092
        then ok (
          pos 0,
          some (log_of r (sub_ℕ 223000 (1191 * r.word temp_address / 10))),
          id_address ∷ temp_address ∷ mac_address ∷ [],
        )
        else fault signed_overflow))
      × (main r (pos fd) page_size true ≡ ok (pos 0, chip_words r))
unfolding skeleton_init read_log main read_id
chip_id_agrees r fd page_size small fits offset =
    let plain : signed32 (r.word temp_address) ≡ pos (r.word temp_address) = ground arith in
    let opened : ltb_ℤ (pos fd) (pos 0) ≡ false = ground arith in
    (
      elim (Bool-cases (leb (r.word temp_address) 1803092)) [
        | inl low ↦ rw (plain, temp_c_lem (r.word temp_address), low) refl
        | inr high ↦ rw (plain, temp_c_lem (r.word temp_address), high) refl
      ],
      rw (opened, read_seg-read_id r page_size fits offset) refl,
    )
