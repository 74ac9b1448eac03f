-- ===== src/Daemon/Gpio.antt =====
-- The pins of the power LED and of the three buttons, set up through sysfs.
use csel.Prelude.{◌++◌, ℤ}
use csel.Cstd.{Bytes, codes}
use csel.Daemon.World.{M, ◌>>=◌, ◌>>◌, call, wrote, closed, wronly, rdonly, rdwr, open_file}

abbrev pub gpio_export : Bytes
gpio_export = codes "/sys/class/gpio/export"

abbrev pub gpio_unexport : Bytes
gpio_unexport = codes "/sys/class/gpio/unexport"

abbrev pub gpio_pwr_led : Bytes
gpio_pwr_led = codes "/sys/class/gpio/gpio362"

abbrev pub gpio_k1 : Bytes
gpio_k1 = codes "/sys/class/gpio/gpio0"

abbrev pub gpio_k2 : Bytes
gpio_k2 = codes "/sys/class/gpio/gpio2"

abbrev pub gpio_k3 : Bytes
gpio_k3 = codes "/sys/class/gpio/gpio3"

abbrev pub led_pin : Bytes
led_pin = codes "362"

abbrev pub k1_pin : Bytes
k1_pin = codes "0"

abbrev pub k2_pin : Bytes
k2_pin = codes "2"

abbrev pub k3_pin : Bytes
k3_pin = codes "3"

-- open, write and close of one file; the descriptor is not tested
abbrev pub put_file : Bytes → Bytes → M (Unit {0})
put_file path text = do f ← open_file path wronly; call (wrote f text); call (closed f)

unfoldable pub open_pwr_led : M ℤ
open_pwr_led = do
  put_file gpio_unexport led_pin
  put_file gpio_export led_pin
  put_file (gpio_pwr_led ++ codes "/direction") (codes "out")
  open_file (gpio_pwr_led ++ codes "/value") rdwr

unfoldable pub open_k1 : M ℤ
open_k1 = do
  put_file gpio_unexport k1_pin
  put_file gpio_export k1_pin
  put_file (gpio_k1 ++ codes "/direction") (codes "in")
  put_file (gpio_k1 ++ codes "/edge") (codes "both")
  open_file (gpio_k1 ++ codes "/value") rdonly

unfoldable pub open_k2 : M ℤ
open_k2 = do
  put_file gpio_unexport k2_pin
  put_file gpio_export k2_pin
  put_file (gpio_k2 ++ codes "/direction") (codes "in")
  put_file (gpio_k2 ++ codes "/edge") (codes "both")
  open_file (gpio_k2 ++ codes "/value") rdonly

unfoldable pub open_k3 : M ℤ
open_k3 = do
  put_file gpio_unexport k3_pin
  put_file gpio_export k3_pin
  put_file (gpio_k3 ++ codes "/direction") (codes "in")
  put_file (gpio_k3 ++ codes "/edge") (codes "both")
  open_file (gpio_k3 ++ codes "/value") rdonly
