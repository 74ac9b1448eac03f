-- ===== src/Tests/BlinkerRuns.antt =====
-- Runs of the blinking LED.
use csel.Prelude.{◌≡◌, refl, [], ◌∷◌, pos, true, replicate, arith, some}
use csel.Cstd.{codes, ok, atoi}
use csel.Blinker.{
  Blinker, MyStruct, handle_timer_1_ptr, handle_k1_ptr, handle_k3_ptr, handle_events,
}
use csel.Blinker.Setup.{period_and_duty}
use csel.Blinker.Period.{handle_events-Keeps, Keeps}
use csel.Blinker.Cycle.{StandsAt, level, blink_cycle}

abbrev my_data : MyStruct
my_data = record {
  duty = pos 30;
  led_fd = pos 7;
  k1_fd = pos 8;
  k2_fd = pos 9;
  k3_fd = pos 10;
  timer_fd = pos 11;
}

abbrev blinker : Blinker
blinker = record { period_timer_ms = pos 250; count = 0; k = 0; answers = [] }

arguments : period_and_duty (codes "500" ∷ codes "10" ∷ []) ≡ ok (some (pos 500, pos 10))
unfolding period_and_duty atoi
arguments = refl

handle_events-Keeps_example :
    Keeps (handle_events my_data (handle_k1_ptr ∷ handle_k3_ptr ∷ handle_k3_ptr ∷ []) blinker)
handle_events-Keeps_example =
    handle_events-Keeps my_data (handle_k1_ptr ∷ handle_k3_ptr ∷ handle_k3_ptr ∷ []) blinker
      (250, refl, omega arith, omega arith)

blink_cycle_example :
    StandsAt 30 45 (pos 7) true (handle_events my_data (replicate 145 handle_timer_1_ptr) blinker)
unfolding level
blink_cycle_example =
    blink_cycle my_data 30 145 0 blinker refl (omega arith) (omega arith) (omega arith)
      (refl, refl, refl)
