-- ===== src/Blinker/Setup.antt =====
-- The pins of the LED and of the buttons, and main: the arguments, the set-up with its early returns,
-- and the loop.
use csel.Prelude.{
  List, [], ◌∷◌, ◌++◌, ℤ, pos, negsuc, eqb_ℤ, if◌then◌else◌, Option, none, some, ◌⊎◌, inl, inr,
}
use csel.Cstd.{Bytes, codes, Outcome, ok, and_then, fault, over_read, atoi}
use csel.Blinker.{
  B, ◌>>=◌, ◌>>◌, pure, call, answer, create, opened, wrote, closed, read_8, pwrote_at_0,
  created_timer, created_epoll, epoll_added, waited, MyStruct, Handler, handle_timer_1_ptr,
  handle_k1_ptr, handle_k2_ptr, handle_k3_ptr, exit_failure, setup_time_timer, handle_events,
  set_period,
}

abbrev gpio_export : Bytes
gpio_export = codes "/sys/class/gpio/export"

abbrev gpio_unexport : Bytes
gpio_unexport = codes "/sys/class/gpio/unexport"

abbrev gpio_led : Bytes
gpio_led = codes "/sys/class/gpio/gpio10"

abbrev gpio_path : Bytes
gpio_path = codes "/sys/class/gpio/gpio"

abbrev led_pin : Bytes
led_pin = codes "10"

abbrev pub button_k1 : Bytes
button_k1 = codes "0"

abbrev pub button_k2 : Bytes
button_k2 = codes "2"

abbrev pub button_k3 : Bytes
button_k3 = codes "3"

abbrev open_file : Bytes → B ℤ
open_file path = create (opened path)

-- open, write and close of one file; the descriptor is not tested
abbrev pub put_file : Bytes → Bytes → B (Unit {0})
put_file path text = do f ← open_file path; call (wrote f text); call (closed f)

unfoldable pub open_led : B ℤ
open_led = do
  put_file gpio_unexport led_pin
  put_file gpio_export led_pin
  put_file (gpio_led ++ codes "/direction") (codes "out")
  open_file (gpio_led ++ codes "/value")

-- The writes of "in" and "rising" take the NUL behind them along.
unfoldable pub open_gpio : Bytes → B ℤ
open_gpio gpio = do
  put_file gpio_unexport gpio
  put_file gpio_export gpio
  put_file (gpio_path ++ gpio ++ codes "/direction") (codes "in" ++ 0 ∷ [])
  put_file (gpio_path ++ gpio ++ codes "/edge") (codes "rising" ++ 0 ∷ [])
  f ← open_file (gpio_path ++ gpio ++ codes "/value")
  call (read_8 f)
  pure f

-- Either the status that main returns, or what the loop runs on: the descriptor of epoll and the data.
abbrev pub Started : Type 0
Started = ℤ ⊎ (ℤ × MyStruct)

abbrev pub close_all : List ℤ → B (Unit {0})
close_all [] = pure tt
close_all (fd ∷ fds) = do call (closed fd); close_all fds

-- An early return, with the descriptors that it closes.
abbrev pub give_up : List ℤ → B Started
give_up fds = do close_all fds; pure (inl exit_failure)

-- epoll_ctl for one descriptor: a failure closes those of epoll and of the timer, and a button's.
abbrev pub register : ℤ → ℤ → ℤ → Handler → ℤ → B Started → B Started
register epfd tfd fd handler button next = do
  result ← answer
  call (epoll_added epfd fd handler)
  if eqb_ℤ result (negsuc 0) then give_up (epfd ∷ tfd ∷ button ∷ []) else next

abbrev pub register_all : ℤ → MyStruct → B Started
register_all epfd d = register epfd d.timer_fd d.timer_fd handle_timer_1_ptr d.k1_fd (
    register epfd d.timer_fd d.k1_fd handle_k1_ptr d.k1_fd (
      register epfd d.timer_fd d.k2_fd handle_k2_ptr d.k2_fd
        (register epfd d.timer_fd d.k3_fd handle_k3_ptr d.k3_fd (pure (inr (epfd, d))))))

abbrev pub start_epoll : MyStruct → B Started
start_epoll d = do
  epfd ← create created_epoll
  if eqb_ℤ epfd (negsuc 0) then give_up (d.timer_fd ∷ []) else register_all epfd d

abbrev pub start_timer : ℤ → MyStruct → B Started
start_timer period d = if eqb_ℤ d.timer_fd (negsuc 0) then give_up [] else do
  result ← setup_time_timer d.timer_fd period
  if eqb_ℤ result exit_failure then give_up (d.timer_fd ∷ []) else start_epoll d

-- main up to its loop, from the period and the duty cycle of the arguments.
unfoldable pub start : ℤ → ℤ → B Started
unfolding open_led open_gpio setup_time_timer
start period duty = do
  led ← open_led
  call (pwrote_at_0 led (b'1' ∷ 0 ∷ []))
  k1 ← open_gpio button_k1
  k2 ← open_gpio button_k2
  k3 ← open_gpio button_k3
  tfd ← create created_timer
  start_timer period
      (record { duty = duty; led_fd = led; k1_fd = k1; k2_fd = k2; k3_fd = k3; timer_fd = tfd })

-- The loop on what epoll_wait reports: the events, or nothing where it fails. It is cut where the list
-- ends.
unfoldable pub loop : ℤ → MyStruct → List (Option (List Handler)) → B (Option ℤ)
unfolding handle_events
loop epfd my_data [] = pure none
loop epfd my_data (none ∷ rounds) = do
  call (waited epfd)
  close_all (epfd ∷ my_data.timer_fd ∷ [])
  pure (some exit_failure)
loop epfd my_data (some events ∷ rounds) = do
  call (waited epfd)
  handle_events my_data events
  loop epfd my_data rounds

-- atoi of an argument, which a NUL ends
abbrev number_of : Option ℤ → Outcome ℤ
number_of none = fault over_read
number_of (some v) = ok v

abbrev number : Bytes → Outcome ℤ
number argument = number_of (atoi (argument ++ 0 ∷ []))

-- The period and the duty cycle; nothing where there are too many arguments.
unfoldable pub period_and_duty : List Bytes → Outcome (Option (ℤ × ℤ))
period_and_duty [] = ok (some (pos 250, pos 50))
period_and_duty (period ∷ []) = and_then (number period) λ p. ok (some (p, pos 50))
period_and_duty (period ∷ duty ∷ []) =
    and_then (number period) λ p. and_then (number duty) λ d. ok (some (p, d))
period_and_duty (period ∷ duty ∷ more ∷ rest) = ok none

abbrev run_started : List (Option (List Handler)) → Started → B (Option ℤ)
run_started rounds (inl status) = pure (some status)
run_started rounds (inr (epfd, my_data)) = loop epfd my_data rounds

abbrev run_arguments : List (Option (List Handler)) → Option (ℤ × ℤ) → B (Option ℤ)
run_arguments rounds none = pure (some exit_failure)
run_arguments rounds (some (period, duty)) = do
  set_period period
  started ← start period duty
  run_started rounds started

-- The status of the program, where it ends on the rounds of its loop that are given.
unfoldable pub main : List Bytes → List (Option (List Handler)) → Outcome (B (Option ℤ))
unfolding start loop period_and_duty
main arguments rounds =
    and_then (period_and_duty arguments) λ parsed. ok (run_arguments rounds parsed)
