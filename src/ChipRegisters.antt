-- ===== src/ChipRegisters.antt =====
-- modules_Ex/module_IO_3/skeleton.c, a kernel module that logs registers of the chip, and
-- environment/Ex1_pilote_mem_user_space/main.c, a program that prints the numbers of the chip from /dev/mem.
pub mod Agreement
use csel.Prelude.{
  ℕ, zero, suc, ◌+◌, ◌-◌, ◌*◌, ◌/◌, ◌%◌, List, [], ◌∷◌, ◌++◌, Bool, not, true, false, leb, ltb_ℤ,
  Option, none, some, ℤ, pos, negsuc, sub_ℕ, signed32, if◌then◌else◌,
}
use csel.Cstd.{Outcome, ok, fault, and_then, over_read, in_int32, add_int}

-- The registers by their physical address: a word of 32 bits, and a byte of the two words of the MAC address.
pub record Registers : Type 0 where
  pub word : ℕ → ℕ
  pub byte : ℕ → ℕ

-- phys_addr_ID, phys_addr_Temp and phys_addr_MAC
abbrev pub id_address : ℕ
id_address = 29442560

abbrev pub temp_address : ℕ
temp_address = 29511808

abbrev pub mac_address : ℕ
mac_address = 29556816

-- -1191 * tempRaw / 10 + 223000 in int, where the division cuts towards 0.
abbrev pub times_1191 : ℤ → Outcome ℤ
times_1191 (pos n) = in_int32 (sub_ℕ 0 (1191 * n))
times_1191 (negsuc n) = in_int32 (pos (1191 * suc n))

abbrev pub by_10 : ℤ → ℤ
by_10 (pos n) = pos (n / 10)
by_10 (negsuc n) = sub_ℕ 0 (suc n / 10)

unfoldable pub temp_c : ℤ → Outcome ℤ
temp_c temp_raw = and_then (times_1191 temp_raw) λ product. add_int (by_10 product) (pos 223000)

-- What the module logs: the temperature, the bytes of the MAC address as they are printed, and the
-- four words of the chip's number.
pub record Log : Type 0 where
  pub temp : ℤ
  pub mac : List ℕ
  pub chip_id : List ℕ

-- The loop over the chip's number.
unfoldable pub read_id : Registers → (rounds i : ℕ) → List ℕ
read_id r zero i = []
read_id r (suc rounds) i = r.word (id_address + 4 * i) ∷ read_id r rounds (i + 1)

abbrev pub read_mac : Registers → List ℕ
read_mac r =
    let mac_char : ℕ → ℕ = λ i. r.byte (mac_address + i) in
    mac_char 4 ∷ mac_char 5 ∷ mac_char 6 ∷ mac_char 7 ∷ mac_char 0 ∷ mac_char 1 ∷ []

unfoldable pub read_log : Registers → Outcome Log
unfolding temp_c read_id
read_log r =
    and_then (temp_c (signed32 (r.word temp_address)))
      λ temp. ok (record { temp = temp; mac = read_mac r; chip_id = read_id r 4 0 })

-- Which of the three ioremap succeed.
pub record Answers : Type 0 where
  pub chip_id : Bool
  pub temp : Bool
  pub mac : Bool

-- The result of a load, what it logs, and the addresses that stay mapped.
unfoldable pub skeleton_init : Registers → Answers → Outcome (ℤ × Option Log × List ℕ)
unfolding read_log
skeleton_init r a =
    if not a.chip_id
    then ok (negsuc 0, none, [])
    else if not a.temp
    then ok (negsuc 0, none, id_address ∷ [])
    else if not a.mac
    then ok (negsuc 0, none, id_address ∷ temp_address ∷ [])
    else and_then (read_log r)
        λ log. ok (pos 0, some log, id_address ∷ temp_address ∷ mac_address ∷ [])

-- skeleton_exit unmaps nothing.
abbrev pub skeleton_exit : List ℕ → List ℕ
skeleton_exit mapped = mapped

-- The program: it maps the page around BASE_ADDR_CHIP_ID, and reads behind OFFSET_CHIP_ID in it.
abbrev pub page_start : (page_size : ℕ) → ℕ
page_start page_size = id_address - id_address % page_size

abbrev pub seg_at : Registers → (page_size index : ℕ) → Outcome ℕ
seg_at r page_size index =
    if leb (4 * index + 4) page_size
    then ok (r.word (page_start page_size + 4 * index))
    else fault over_read

unfoldable pub read_seg : Registers → (page_size rounds i : ℕ) → Outcome (List ℕ)
read_seg r page_size zero i = ok []
read_seg r page_size (suc rounds) i =
    and_then (seg_at r page_size (128 + i))
      λ w. and_then (read_seg r page_size rounds (i + 1)) λ ws. ok (w ∷ ws)

-- The status of main, and the words that it prints. A mapping that fails is not NULL, and its
-- address is read.
unfoldable pub main : Registers → (fd : ℤ) (page_size : ℕ) (mapped : Bool) → Outcome (ℤ × List ℕ)
unfolding read_seg
main r fd page_size mapped =
    if ltb_ℤ fd (pos 0)
    then ok (pos 1, [])
    else if not mapped
    then fault over_read
    else and_then (read_seg r page_size 4 0) λ words. ok (pos 0, words)
