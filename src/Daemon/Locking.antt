-- ===== src/Daemon/Locking.antt =====
-- The mutex of the display: `main` and the events thread both write to it, and each takes
-- lcd_mutex_lock first.
pub mod Loops
use csel.Daemon.Lcd.{lcd_write_freq, lcd_write_temp}
use csel.Daemon.Lcd.Bounds.{lcd_write_mode_total, lcd_write_freq_cases, lcd_write_temp_cases}
use csel.Daemon.Fan.{
  set_mode, freq_handler, cpu_temp_handler, set_cur_freq, set_cur_cpu_temp, number_of, set_freq,
}
use csel.Daemon.Buttons.{
  timer_handler, k1_handler, k2_handler, k3_handler, apply_mode, set_timer, toggle_mode, k3_action,
}
use csel.Prelude.{
  ℕ, ◌≡◌, refl, ◌∙◌, ◌↔◌, ◌⊎◌, inl, inr, Bool, true, false, Option, none, some, List, [], ◌∷◌, ◌++◌,
  map, arith, ℤ, pos, negsuc, ltb_ℤ, eqb_ℤ, Bool-cases, if◌then◌else◌, drop, Option-cases, take,
}
use csel.Cstd.{Bytes, Outcome, ok, fault, and_then, atoi, buffer_overflow}
use csel.Daemon.World.{
  M, ◌>>=◌, ◌>>◌, pure, call, get, lift, Daemon, FileDesc, Trace, Syscall, lock, unlock, i2c,
  Handler, opened, wrote, pread_at_0, pwrote_at_0, closed, set_timer_fd, sent, created_timer,
  created_epoll, epoll_added, filled, first_bytes, pread_file,
}

-- Follows a thread that holds the mutex or not: `none` where it shows something on the display
-- without it, sends an answer under it, takes it twice or gives back what it does not hold.
unfoldable pub discipline : Bool → Trace → Option Bool
discipline held [] = some held
discipline held (lock ∷ t) = let rest = discipline true t in if held then none else rest
discipline held (unlock ∷ t) = let rest = discipline false t in if held then rest else none
discipline held (i2c m ∷ t) = let rest = discipline held t in if held then rest else none
discipline held (sent m ∷ t) = let rest = discipline held t in if held then none else rest
discipline held (_ ∷ t) = discipline held t

-- Begun and ended without the mutex, with nothing shown but under it. Undefined behaviour is left out
-- here.
abbrev pub IsGuarded : {A : Type 0} → Outcome (A × Daemon × Trace) → Type 0
IsGuarded (ok (_, _, t)) = discipline false t ≡ some false
IsGuarded (fault e) = Unit

pub discipline-append :
    (h h' : Bool) (t u : Trace) → discipline h t ≡ some h' → discipline h (t ++ u) ≡ discipline h' u
unfolding discipline
discipline-append h h' [] u e = ground arith
discipline-append h h' (lock ∷ t) u e = ground (arith, discipline-append true h' t u)
discipline-append h h' (unlock ∷ t) u e = ground (arith, discipline-append false h' t u)
discipline-append h h' (i2c m ∷ t) u e = ground (arith, discipline-append h h' t u)
discipline-append h h' (sent m ∷ t) u e = ground (arith, discipline-append h h' t u)
discipline-append h h' (opened a b c ∷ t) u e = discipline-append h h' t u e
discipline-append h h' (_ ∷ t) u e = discipline-append h h' t u e

discipline-i2c :
    (ms : List Bytes) (t : Trace) → discipline true (map i2c ms ++ t) ≡ discipline true t
unfolding discipline
discipline-i2c [] t = refl
discipline-i2c (m ∷ ms) t = discipline-i2c ms t

pub timer_handler-IsGuarded : (fds : FileDesc) (d : Daemon) → IsGuarded (timer_handler fds d)
unfolding timer_handler discipline
timer_handler-IsGuarded fds d = ground arith

pub k1_handler-IsGuarded : (fds : FileDesc) (d : Daemon) → IsGuarded (k1_handler fds d)
unfolding k1_handler set_freq discipline
k1_handler-IsGuarded fds d = ground arith

pub k2_handler-IsGuarded : (fds : FileDesc) (d : Daemon) → IsGuarded (k2_handler fds d)
unfolding k2_handler set_freq discipline
k2_handler-IsGuarded fds d = ground arith

pub apply_mode-IsGuarded : (d : Daemon) → IsGuarded (apply_mode d)
unfolding set_mode discipline
apply_mode-IsGuarded d =
    let (ms, shown) = lcd_write_mode_total d.cur_mode in
    ground (
      arith,
      shown (record d { answers = record d.answers { opens = drop 1 d.answers.opens } }),
      discipline-i2c ms (unlock ∷ []),
    )

k3_action-IsGuarded : (fds : FileDesc) (d : Daemon) → IsGuarded (k3_action fds d)
unfolding k3_action discipline
k3_action-IsGuarded fds d =
    let m = if eqb_ℤ d.cur_mode (pos 0) then pos 1 else pos 0 in
    let (ms, shown) = lcd_write_mode_total m in
    ground (
      arith,
      shown (record d {
        ts = record d.ts { value_nsec = 0; value_sec = 1 };
        cur_mode = m;
        answers = record d.answers {
          settimes = drop 1 d.answers.settimes;
          opens = drop 1 d.answers.opens;
        };
      }),
      discipline-i2c ms (unlock ∷ []),
    )

pub k3_handler-IsGuarded : (fds : FileDesc) (d : Daemon) → IsGuarded (k3_handler fds d)
unfolding k3_handler discipline
k3_handler-IsGuarded fds d = ground (
  arith,
  k3_action-IsGuarded fds
      (record d { answers = record d.answers { reads = drop 1 d.answers.reads } }),
)

-- The mutex around one line of the display.
locked-IsGuarded :
    (show : M (Unit {0}))
    → (((d : Daemon) → show d ≡ fault buffer_overflow)
        ⊎ ((ms : List Bytes) × ((d : Daemon) → show d ≡ ok (tt, d, map i2c ms))))
    → (d : Daemon) → IsGuarded ((do call lock; show; call unlock) d)
unfolding discipline
locked-IsGuarded show (inl fails) d = rw (fails d) tt
locked-IsGuarded show (inr (ms, shown)) d = rw (shown d) (discipline-i2c ms (unlock ∷ []))

join-IsGuarded :
    {B : Type 0} (t : Trace) (r : Outcome (B × Daemon × Trace))
    → discipline false t ≡ some false
    → IsGuarded r
    → IsGuarded (and_then r λ (b, d'', u). ok (b, d'', t ++ u))
join-IsGuarded t (ok (b, d, u)) e h = discipline-append false false t u e ∙ h
join-IsGuarded t (fault e) _ _ = tt

after-IsGuarded :
    {A B : Type 0} (r : Outcome (A × Daemon × Trace)) (f : A → M B)
    → IsGuarded r
    → ((a : A) (d : Daemon) → IsGuarded (f a d))
    → IsGuarded (and_then r λ (a, d', t). and_then (f a d') λ (b, d'', u). ok (b, d'', t ++ u))
after-IsGuarded (ok (a, d, t)) f g h = join-IsGuarded t (f a d) g (h a d)
after-IsGuarded (fault e) f g h = tt

-- One computation after another.
pub bind-IsGuarded :
    {A B : Type 0} (m : M A) (f : A → M B)
    → ((d : Daemon) → IsGuarded (m d))
    → ((a : A) (d : Daemon) → IsGuarded (f a d))
    → (d : Daemon) → IsGuarded ((m >>= f) d)
bind-IsGuarded m f g h d = after-IsGuarded (m d) f (g d) h

pub pread_file-IsGuarded : (fd : ℤ) (size : ℕ) (d : Daemon) → IsGuarded (pread_file fd size d)
unfolding discipline
pread_file-IsGuarded fd size d = refl

pub lift-IsGuarded : {A : Type 0} (r : Outcome A) (d : Daemon) → IsGuarded (lift r d)
unfolding discipline
lift-IsGuarded (ok a) d = refl
lift-IsGuarded (fault e) d = tt

pub freq_handler-IsGuarded : (fds : FileDesc) (d : Daemon) → IsGuarded (freq_handler fds d)
unfolding freq_handler
freq_handler-IsGuarded fds =
    bind-IsGuarded (pread_file fds.freq_fd 11) _ (pread_file-IsGuarded fds.freq_fd 11) λ got.
      bind-IsGuarded (lift (number_of (atoi (filled 11 got)))) _
        (lift-IsGuarded (number_of (atoi (filled 11 got))))
        λ v.
          bind-IsGuarded (set_cur_freq v) _ (unfold discipline in λ d. refl)
            λ _. locked-IsGuarded (lcd_write_freq v) (lcd_write_freq_cases v)

pub cpu_temp_handler-IsGuarded : (fds : FileDesc) (d : Daemon) → IsGuarded (cpu_temp_handler fds d)
unfolding cpu_temp_handler
cpu_temp_handler-IsGuarded fds =
    bind-IsGuarded (pread_file fds.cpu_temp_fd 7) _ (pread_file-IsGuarded fds.cpu_temp_fd 7) λ got.
      bind-IsGuarded (lift (number_of (atoi (filled 7 got)))) _
        (lift-IsGuarded (number_of (atoi (filled 7 got))))
        λ v.
          bind-IsGuarded (set_cur_cpu_temp v) _ (unfold discipline in λ d. refl)
            λ _. locked-IsGuarded (lcd_write_temp v) (lcd_write_temp_cases v)
