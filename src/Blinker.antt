-- ===== src/Blinker.antt =====
-- environment/Ex5_1_sysfs_gpio/main.c: an LED that blinks with a duty cycle, on a timer, and three
-- buttons that change its period. An interval of the timer is a hundredth of the period.
pub mod Setup
pub mod Period
pub mod Cycle
use csel.Prelude.{
  ℕ, suc, ◌+◌, ◌*◌, ◌/◌, ◌%◌, zero, List, [], ◌∷◌, ◌++◌, ℤ, pos, negsuc, ◌+ℤ◌, ◌-ℤ◌, ltb_ℤ, eqb_ℤ,
  ◌==◌, leb, if◌then◌else◌, drop, Bool, true, false,
}
use csel.Cstd.{Bytes, codes}

-- struct my_struct
pub record MyStruct : Type 0 where
  pub duty : ℤ
  pub led_fd : ℤ
  pub k1_fd : ℤ
  pub k2_fd : ℤ
  pub k3_fd : ℤ
  pub timer_fd : ℤ

pub data Handler : Type 0 where
  handle_timer_1_ptr handle_k1_ptr handle_k2_ptr handle_k3_ptr : Handler

-- The system calls, with what they were given, and the descriptor where they make one. A timer's
-- interval is its seconds and nanoseconds.
pub data Call : Type 0 where
  opened : Bytes → ℤ → Call
  wrote : ℤ → Bytes → Call
  closed : ℤ → Call
  read_8 : ℤ → Call
  pwrote_at_0 : ℤ → Bytes → Call
  created_timer : ℤ → Call
  created_epoll : ℤ → Call
  epoll_added : ℤ → ℤ → Handler → Call
  set_time : ℤ → (start interval : ℤ × ℤ) → Call
  waited : ℤ → Call

-- periodTimerMs, `count` of handleTimer_1 and `k` of toggleLed; and what the system calls will answer,
-- in their order.
pub record Blinker : Type 0 where
  pub period_timer_ms : ℤ
  pub count : ℕ
  pub k : ℕ
  pub answers : List ℤ

-- The result, the state afterwards, and the calls that were made.
abbrev pub B : Type 0 → Type 0
B A = Blinker → A × Blinker × List Call

abbrev pub pure : {A : Type 0} → A → B A
pure a b = (a, b, [])

infixl 5 ◌>>=◌ ◌>>◌
abbrev pub ◌>>=◌ : {A C : Type 0} → B A → (A → B C) → B C
◌>>=◌ m f b = let (a, b', t) = m b in let (c, b'', u) = f a b' in (c, b'', t ++ u)

abbrev pub ◌>>◌ : {A C : Type 0} → B A → B C → B C
m >> n = m >>= λ _. n

abbrev pub call : Call → B (Unit {0})
call c b = (tt, b, c ∷ [])

abbrev pub get : B Blinker
get b = (b, b, [])

abbrev pub first_answer : List ℤ → ℤ
first_answer [] = negsuc 0
first_answer (a ∷ rest) = a

-- The next answer; -1 where none is left.
abbrev pub answer : B ℤ
answer b = (first_answer b.answers, record b { answers = drop 1 b.answers }, [])

abbrev pub create : (ℤ → Call) → B ℤ
create made = do fd ← answer; call (made fd); pure fd

abbrev pub exit_success : ℤ
exit_success = pos 0

abbrev pub exit_failure : ℤ
exit_failure = pos 1

-- The operators of C on a `long` and a positive constant: the quotient is rounded towards 0, and the
-- remainder has the sign of the dividend.
abbrev pub negated : ℕ → ℤ
negated zero = pos 0
negated (suc n) = negsuc n

abbrev pub times : ℤ → ℕ → ℤ
times (pos n) c = pos (n * c)
times (negsuc n) c = negated (suc n * c)

abbrev pub quotient : ℤ → ℕ → ℤ
quotient (pos n) c = pos (n / c)
quotient (negsuc n) c = negated (suc n / c)

abbrev pub remainder : ℤ → ℕ → ℤ
remainder (pos n) c = pos (n % c)
remainder (negsuc n) c = negated (suc n % c)

-- The interval of the timer for a period in milliseconds.
unfoldable pub interval_of : ℤ → ℤ × ℤ
interval_of period =
    let period_timer_ns = quotient (times period 1000000) 100 in
    (quotient period_timer_ns 1000000000, remainder period_timer_ns 1000000000)

-- clock_gettime is answered by the time that it stores, and timerfd_settime by its result.
unfoldable pub setup_time_timer : ℤ → ℤ → B ℤ
setup_time_timer tfd period = do
  sec ← answer
  nsec ← answer
  result ← answer
  call (set_time tfd (sec, nsec) (interval_of period))
  if ltb_ℤ result (pos 0) then (do call (closed tfd); pure exit_failure) else pure exit_success

unfoldable pub toggle_led : ℤ → B (Unit {0})
toggle_led led b =
    let k' = (b.k + 1) % 2 in
    (
      tt,
      record b { k = k' },
      pwrote_at_0 led (if k' == 0 then b'1' ∷ 0 ∷ [] else b'0' ∷ 0 ∷ []) ∷ [],
    )

abbrev set_count : ℕ → B (Unit {0})
set_count n b = (tt, record b { count = n }, [])

unfoldable pub handle_timer_1 : MyStruct → B (Unit {0})
unfolding toggle_led
handle_timer_1 my_data = do
  call (read_8 my_data.timer_fd)
  b ← get
  set_count (b.count + 1)
  if eqb_ℤ (pos (b.count + 1)) my_data.duty then toggle_led my_data.led_fd else pure tt
  if leb 100 (b.count + 1) then (do toggle_led my_data.led_fd; set_count 0) else pure tt

abbrev pub set_period : ℤ → B (Unit {0})
set_period p b = (tt, record b { period_timer_ms = p }, [])

-- setupTimeTimer for the current period, and the descriptor closed if it failed
unfoldable pub restart_timer : MyStruct → B (Unit {0})
unfolding setup_time_timer
restart_timer my_data = do
  b ← get
  result ← setup_time_timer my_data.timer_fd b.period_timer_ms
  if eqb_ℤ result exit_failure then call (closed my_data.timer_fd) else pure tt

unfoldable pub handle_k1 : MyStruct → B (Unit {0})
unfolding restart_timer
handle_k1 my_data = do
  call (read_8 my_data.k1_fd)
  b ← get
  if ltb_ℤ b.period_timer_ms (pos 60000) then set_period (b.period_timer_ms +ℤ pos 100) else pure tt
  restart_timer my_data

unfoldable pub handle_k2 : MyStruct → B (Unit {0})
unfolding restart_timer
handle_k2 my_data = do call (read_8 my_data.k2_fd); set_period (pos 250); restart_timer my_data

unfoldable pub handle_k3 : MyStruct → B (Unit {0})
unfolding restart_timer
handle_k3 my_data = do
  call (read_8 my_data.k3_fd)
  b ← get
  if ltb_ℤ (pos 100) b.period_timer_ms then set_period (b.period_timer_ms -ℤ pos 100) else pure tt
  restart_timer my_data

unfoldable pub run_handler : Handler → MyStruct → B (Unit {0})
unfolding handle_timer_1 handle_k1 handle_k2 handle_k3
run_handler handle_timer_1_ptr = handle_timer_1
run_handler handle_k1_ptr = handle_k1
run_handler handle_k2_ptr = handle_k2
run_handler handle_k3_ptr = handle_k3

-- The events of one epoll_wait, in their order.
unfoldable pub handle_events : MyStruct → List Handler → B (Unit {0})
unfolding run_handler
handle_events my_data [] = pure tt
handle_events my_data (h ∷ hs) = do run_handler h my_data; handle_events my_data hs
