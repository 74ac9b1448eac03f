-- ===== src/Tests/KernelRuns.antt =====
-- Runs of the kernel modules of modules_Ex/ and of skeleton_dt.c.
use csel.Prelude.{
  ◌≤ℤ◌, ℕ, zero, suc, ◌-◌, ◌*◌, ◌/◌, ◌==◌, ◌≡◌, ◌≢◌, refl, ◌⊎◌, inl, inr, List, [], ◌∷◌, true, some,
  replicate, in_turn, All, pos, ℤ, sub_ℕ, arith, leb, if◌then◌else◌,
}
use csel.Cstd.{ok, fault, format_int, heap_overflow, buffer_overflow, signed_overflow}
use csel.WaitQueue.{Thread, waiting, notifying, unloading, run, running, unloaded}
use csel.WaitQueue.Unloading.{IsRound, unloading_ends}
use csel.MultiDevice.Private.{Layout, Answers, skeleton_probe, nothing}
use csel.MultiDevice.Private.Overflow.{probe_never_loads}
use csel.ChipRegisters
use csel.ChipRegisters.{Registers, id_address, temp_address, mac_address}
use csel.ChipRegisters.Agreement.{granted, chip_words, log_of, chip_id_agrees}

abbrev round : List Thread
round = waiting ∷ notifying ∷ unloading ∷ []

rounds_are_fair : (n : ℕ) → All IsRound (replicate n round)
rounds_are_fair zero = tt
rounds_are_fair (suc n) = (takes, rounds_are_fair n)
  where
    takes : IsRound round
    takes waiting = inl refl
    takes notifying = inr (inl refl)
    takes unloading = inr (inr (inl refl))

unloading_ends_example :
    (run (waiting ∷ waiting ∷ notifying ∷ in_turn (replicate 18 round)) running).unloader ≡ unloaded
unloading_ends_example =
    unloading_ends (waiting ∷ waiting ∷ notifying ∷ []) (replicate 18 round) (rounds_are_fair 18)
      (omega arith)

-- A machine of 32 bits, and a device that is taken.
abbrev layout : Layout
layout = record { pointer = 4; miscdevice = 44; minor_end = 4; name_end = 8; fops_end = 12 }

abbrev taken : Answers
taken = record { private = true; mymisc = true; register = λ i. pos 0 }

probe_never_loads_example :
    (skeleton_probe layout taken (pos 1) ≡ fault heap_overflow)
    ⊎ ((skeleton_probe layout taken (pos 1) ≡ fault buffer_overflow) × (pos 11 ≤ℤ pos 1))
    ⊎ ((e : ℤ) × (k : ℕ) × (e ≢ pos 0)
        × ((skeleton_probe layout taken (pos 1) ≡ ok (e, nothing))
            ⊎ ((taken.register k ≡ e)
                × (skeleton_probe layout taken (pos 1)
                    ≡ ok (e, record { private = true; mymisc = true; devices = k })))))
probe_never_loads_example =
    probe_never_loads layout taken (pos 1)
      (omega arith, omega arith, omega arith, omega arith, omega arith, omega arith)

one_device : skeleton_probe layout taken (pos 1) ≡ fault heap_overflow
unfolding skeleton_probe format_int
one_device = refl

-- A register holds its address, and that of the temperature 1700.
abbrev registers : Registers
registers = record {
  word = λ a. if a == temp_address then 1700 else a;
  byte = λ a. a - mac_address;
}

chip_id_agrees_example :
    (ChipRegisters.skeleton_init registers granted ≡ (
      if leb 1700 1803092
      then ok (
        pos 0,
        some (log_of registers (sub_ℕ 223000 (1191 * 1700 / 10))),
        id_address ∷ temp_address ∷ mac_address ∷ [],
      )
      else fault signed_overflow))
    × (ChipRegisters.main registers (pos 3) 4096 true ≡ ok (pos 0, chip_words registers))
chip_id_agrees_example = chip_id_agrees registers 3 4096 (omega arith) (omega arith) refl

-- With pages of 64 KiB the program prints other registers.
large_pages :
    ChipRegisters.main registers (pos 3) 65536 true
    ≡ ok (pos 0, 29426176 ∷ 29426180 ∷ 29426184 ∷ 29426188 ∷ [])
unfolding ChipRegisters.main
large_pages = refl
