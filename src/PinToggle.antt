-- ===== src/PinToggle.antt =====
-- environment/gpio/gpio.c and environment/mmio/mmio.c: the pin PG11, toggled through sysfs, and through the
-- data register of its port.
pub mod Waves
use Prim.Native.Nat.{bit_xor}
use csel.Prelude.{
  ℕ, zero, suc, ◌+◌, ◌*◌, ◌/◌, ◌^◌, List, [], ◌∷◌, ◌++◌, Bool, not, leb, Option, none, some, ℤ,
  negsuc, eqb_ℤ, if◌then◌else◌,
}
use csel.Cstd.{Bytes, codes, Outcome, ok, fault, over_read, invalid_pointer}

-- A text that is written to a file.
pub record Write : Type 0 where
  pub path : Bytes
  pub text : Bytes

abbrev pub pin_path : Bytes
pin_path = codes "/sys/class/gpio/gpio203"

-- The writes of open_gpio, which is the same in both programs; their files are closed again.
abbrev pub open_gpio : List Write
open_gpio =
    record { path = codes "/sys/class/gpio/unexport"; text = codes "203" }
    ∷ record { path = codes "/sys/class/gpio/export"; text = codes "203" }
    ∷ record { path = pin_path ++ codes "/direction"; text = codes "out" }
    ∷ []

-- `on`, and the last text written to the value of the pin, with its NUL.
pub record Pin : Type 0 where
  pub on : Bool
  pub value : Bytes

abbrev pub level : Bool → Bytes
level on = (if on then codes "1" else codes "0") ++ 0 ∷ []

-- The body of both loops of gpio.c, and `rounds` of them.
abbrev pub write_level : Pin → Pin
write_level p = record { on = not p.on; value = level p.on }

unfoldable pub write_levels : ℕ → Pin → Pin
write_levels zero p = p
write_levels (suc rounds) p = write_levels rounds (write_level p)

-- *dat_pio ^= (1 << b), `rounds` times
unfoldable pub toggle_bit : (b rounds v : ℕ) → ℕ
toggle_bit b zero v = v
toggle_bit b (suc rounds) v = toggle_bit b rounds (bit_xor v (2 ^ b))

-- The word of the page that dat_pio points to.
abbrev pub dat_index : ℕ
dat_index = (2064 + 6 * 36) / 4

-- main of mmio.c on the data register of the port: `none` where it returns -1, or the register after the
-- thousand rounds that it measures, `rounds` of the loop behind them, and what `data` is then. Where the
-- page could not be mapped, dat_pio is counted from MAP_FAILED, which is no address.
unfoldable pub mmio_main :
    (fd : ℤ) (mapped : Bool) (page_size rounds dat_pio : ℕ) → Outcome (Option (ℕ × ℕ))
mmio_main fd mapped page_size rounds dat_pio =
    if eqb_ℤ fd (negsuc 0)
    then ok none
    else if not mapped
    then fault invalid_pointer
    else if leb (4 * dat_index + 4) page_size
    then ok (some (toggle_bit 11 rounds (toggle_bit 11 1000 dat_pio), toggle_bit 12 1000 0))
    else fault over_read
