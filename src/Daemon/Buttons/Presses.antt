-- ===== src/Daemon/Buttons/Presses.antt =====
-- A press of K1 or K2: the timer is set and the LED put on, and then the frequency takes a step.
use csel.Prelude.{◌≡◌, ◌≢◌, List, [], ◌∷◌, ◌++◌, drop, arith, ℤ, pos, ltb_ℤ, if◌then◌else◌}
use csel.Cstd.{Bytes, ok}
use csel.Daemon.World.{
  Daemon, FileDesc, Trace, closed, pread_at_0, pwrote_at_0, set_timer_fd, first_fd,
}
use csel.Daemon.Buttons.{k1_handler, k2_handler, set_timer, increment_freq, decrement_freq}

-- The daemon when it takes the step, and the calls that it has made until then for the button `fd`.
abbrev pub at_step : Daemon → Daemon
at_step d = record d {
  ts = record d.ts { value_nsec = 0; value_sec = 1 };
  answers = record d.answers {
    reads = drop 1 d.answers.reads;
    settimes = drop 1 d.answers.settimes;
  };
}

abbrev pub press_trace : ℤ → FileDesc → Daemon → Trace → Trace
press_trace fd fds d t =
    pread_at_0 fd 1
    ∷ set_timer_fd fds.timer_fd (record d.ts { value_nsec = 0; value_sec = 1 })
    ∷ ((if ltb_ℤ (first_fd d.answers.settimes) (pos 0) then closed fds.timer_fd ∷ [] else [])
        ++ pwrote_at_0 fds.led_pwr_fd (b'1' ∷ 0 ∷ []) ∷ t)

pub k1_handler_lem :
    (fds : FileDesc) (d : Daemon) (rest : List Bytes) (t : Trace)
    → d.answers.reads ≡ (b'1' ∷ []) ∷ rest
    → increment_freq (at_step d) ≡ ok (tt, at_step d, t)
    → k1_handler fds d ≡ ok (tt, at_step d, press_trace fds.k1_fd fds d t)
unfolding k1_handler set_timer
k1_handler_lem fds d rest t e steps = ground arith

pub k2_handler_lem :
    (fds : FileDesc) (d : Daemon) (rest : List Bytes) (t : Trace)
    → d.answers.reads ≡ (b'1' ∷ []) ∷ rest
    → decrement_freq (at_step d) ≡ ok (tt, at_step d, t)
    → k2_handler fds d ≡ ok (tt, at_step d, press_trace fds.k2_fd fds d t)
unfolding k2_handler set_timer
k2_handler_lem fds d rest t e steps = ground arith

pub increment_auto : (d : Daemon) → d.cur_mode ≢ pos 1 → increment_freq d ≡ ok (tt, d, [])
unfolding increment_freq
increment_auto d auto = ground arith

pub decrement_auto : (d : Daemon) → d.cur_mode ≢ pos 1 → decrement_freq d ≡ ok (tt, d, [])
unfolding decrement_freq
decrement_auto d auto = ground arith

pub decrement_zero : (d : Daemon) → d.cur_freq ≡ pos 0 → decrement_freq d ≡ ok (tt, d, [])
unfolding decrement_freq
decrement_zero d stopped = ground arith
