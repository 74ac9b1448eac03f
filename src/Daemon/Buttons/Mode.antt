-- ===== src/Daemon/Buttons/Mode.antt =====
-- The change of the mode, by K3 and by a message.
use mathlib.Core.List.{map}
use csel.Prelude.{
  ◌≤◌, ◌≡◌, refl, ◌≢◌, List, [], ◌∷◌, ◌++◌, arith, drop, ℤ, pos, negsuc, ◌≤ℤ◌, ltb_ℤ, eqb_ℤ,
  IsInt32, if◌then◌else◌, length, ◌+◌,
}
use csel.Cstd.{Bytes, ok, format_int}
use csel.Cstd.Laws.{length-format_int_pos, length-format_int_negsuc}
use csel.Daemon.World.{
  Daemon, FileDesc, Trace, opened, wronly, pwrote_at_0, closed, set_timer_fd, lock, unlock, i2c,
  first_fd,
}
use csel.Daemon.Lcd.Bounds.{lcd_write_mode_total}
use csel.Daemon.Fan.{fan_mode_file, set_mode}
use csel.Daemon.Buttons.{apply_mode, k3_action}

-- The calls that apply a mode, where the mode's file opens as `f` and the display's line is `ms`.
abbrev pub mode_trace : ℤ → ℤ → List Bytes → Trace
mode_trace f mode ms =
    opened fan_mode_file wronly f
    ∷ pwrote_at_0 f (format_int mode)
    ∷ closed f
    ∷ lock
    ∷ (map i2c ms ++ unlock ∷ [])

mode_fits : (a : ℤ) → negsuc 999999998 ≤ℤ a → IsInt32 a → length (format_int a) + 1 ≤ 11
mode_fits (pos n) low fits = omega (arith, (length-format_int_pos n 9).1 (omega arith))
mode_fits (negsuc n) low fits = omega (arith, (length-format_int_negsuc n 8).1 (omega arith))

-- The mode is written to the module and shown on the display; nothing else of the daemon changes.
pub apply_mode_lem :
    (d : Daemon) (f : ℤ) (rest : List ℤ)
    → negsuc 999999998 ≤ℤ d.cur_mode
    → IsInt32 d.cur_mode
    → d.answers.opens ≡ f ∷ rest
    → f ≢ negsuc 0
    → (ms : List Bytes) × (apply_mode d
        ≡ ok (
          tt,
          record d { answers = record d.answers { opens = rest } },
          mode_trace f d.cur_mode ms,
        ))
unfolding set_mode
apply_mode_lem d f rest low fits e good =
    let (ms, shown) = lcd_write_mode_total d.cur_mode in
    (
      ms,
      ground (
        arith,
        shown (record d { answers = record d.answers { opens = drop 1 d.answers.opens } }),
        mode_fits d.cur_mode low fits,
      ),
    )

-- What K3 does where it is pressed, with the mode's file opening as `f`: the timer of one second is
-- set, the LED is put on, the other mode is taken and applied.
pub k3_action_lem :
    (fds : FileDesc) (d : Daemon) (f : ℤ) (rest : List ℤ)
    → d.answers.opens ≡ f ∷ rest
    → f ≢ negsuc 0
    → let m = if eqb_ℤ d.cur_mode (pos 0) then pos 1 else pos 0 in
      (ms : List Bytes) × (d' : Daemon) × (k3_action fds d
        ≡ ok (
          tt,
          d',
          set_timer_fd fds.timer_fd (record d.ts { value_nsec = 0; value_sec = 1 })
              ∷ ((if ltb_ℤ (first_fd d.answers.settimes) (pos 0)
                    then closed fds.timer_fd ∷ []
                    else [])
                  ++ pwrote_at_0 fds.led_pwr_fd (b'1' ∷ 0 ∷ []) ∷ mode_trace f m ms),
        ))
      × (d'.cur_mode ≡ m)
      × (d'.cur_freq ≡ d.cur_freq)
      × (d'.stop_request ≡ d.stop_request)
      × (d'.file_descriptors ≡ d.file_descriptors)
unfolding k3_action
k3_action_lem fds d f rest e good =
    let m = if eqb_ℤ d.cur_mode (pos 0) then pos 1 else pos 0 in
    let (ms, shown) = lcd_write_mode_total m in
    let d' = record d {
      ts = record d.ts { value_nsec = 0; value_sec = 1 };
      cur_mode = m;
      answers = record d.answers { settimes = drop 1 d.answers.settimes; opens = rest };
    } in
    (
      ms,
      d',
      ground (
        arith,
        shown (record d' {
          answers = record d.answers {
            settimes = drop 1 d.answers.settimes;
            opens = drop 1 d.answers.opens;
          };
        }),
        mode_fits m (ground arith) (ground arith),
      ),
      refl,
      refl,
      refl,
      refl,
    )
