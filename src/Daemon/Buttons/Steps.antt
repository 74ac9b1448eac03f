-- ===== src/Daemon/Buttons/Steps.antt =====
-- The steps of the frequency by K1 and K2.
use csel.Prelude.{
  ℕ, ◌+◌, ◌-◌, ◌≤◌, ◌<◌, ◌≡◌, refl, ◌↔◌, ◌⊎◌, [], ◌∷◌, arith, pos, ltb, if◌then◌else◌,
}
use csel.Cstd.{ok, format_int}
use csel.Daemon.World.{M, Daemon, pwrote_at_0}
use csel.Daemon.Fan.Numbers.{set_freq_lem}
use csel.Daemon.Buttons.{increment_freq, decrement_freq}

-- `m`, run on `d`, only writes `g` to the frequency's attribute.
abbrev pub Writes : M (Unit {0}) → Daemon → ℕ → Type 0
Writes m d g = m d ≡ ok (tt, d, pwrote_at_0 d.file_descriptors.freq_fd (format_int (pos g)) ∷ [])

-- The frequencies from which a step up and a step down lead back.
abbrev pub OnGrid : ℕ → Type 0
OnGrid n = (n ≤ 25) ⊎ ((30 ≤ n) × (n ≤ 90)) ⊎ ((100 ≤ n) × (n ≤ 2000000000))

unfoldable pub step_up : ℕ → ℕ
step_up n =
    if ltb n 10 then n + 1 else if ltb n 30 then n + 5 else if ltb n 100 then n + 10 else n + 50

unfoldable pub step_down : ℕ → ℕ
step_down n =
    if ltb 100 n then n - 50 else if ltb 30 n then n - 10 else if ltb 10 n then n - 5 else n - 1

step_down-step_up : (n : ℕ) → OnGrid n → step_down (step_up n) ≡ n
unfolding step_down step_up
step_down-step_up n grid = ground arith

pub increment-Writes :
    (d : Daemon) (n : ℕ)
    → d.cur_mode ≡ pos 1
    → d.cur_freq ≡ pos n
    → n ≤ 2147483597
    → Writes increment_freq d (step_up n)
unfolding increment_freq step_up
increment-Writes d n manual freq high = ground (
  arith,
  set_freq_lem (pos (n + 1)) d,
  set_freq_lem (pos (n + 5)) d,
  set_freq_lem (pos (n + 10)) d,
  set_freq_lem (pos (n + 50)) d,
)

pub decrement-Writes :
    (d : Daemon) (n : ℕ)
    → d.cur_mode ≡ pos 1
    → d.cur_freq ≡ pos n
    → 1 ≤ n
    → n ≤ 2147483647
    → Writes decrement_freq d (step_down n)
unfolding decrement_freq step_down
decrement-Writes d n manual freq low high = ground (
  arith,
  set_freq_lem (pos (n - 1)) d,
  set_freq_lem (pos (n - 5)) d,
  set_freq_lem (pos (n - 10)) d,
  set_freq_lem (pos (n - 50)) d,
)

-- In manual mode at n Hz, where n is at most 25, from 30 to 90 or from 100 to 2000000000, K1
-- writes a higher frequency g to the module's attribute, and in the same mode at g Hz K2 writes n
-- again; neither changes the daemon's state.
pub decrement-increment :
    (d : Daemon) (n : ℕ)
    → d.cur_mode ≡ pos 1
    → d.cur_freq ≡ pos n
    → OnGrid n
    → (g : ℕ) × (n < g)
      × Writes increment_freq d g
      × Writes decrement_freq (record d { cur_freq = pos g }) n
decrement-increment d n manual freq grid =
    let g = step_up n in
    (
      g,
      unfold step_up in ground arith,
      increment-Writes d n manual freq (ground arith),
      ground (
        arith,
        step_down-step_up n grid,
        decrement-Writes (record d { cur_freq = pos g }) g manual refl
            (unfold step_up in ground arith) (unfold step_up in ground arith),
      ),
    )

-- In manual mode at n Hz, where n is a positive int, K2 writes a lower frequency that is not
-- negative to the module's attribute. It is 0 exactly if n is 1.
pub decrement_bounds :
    (d : Daemon) (n : ℕ)
    → d.cur_mode ≡ pos 1
    → d.cur_freq ≡ pos n
    → 1 ≤ n
    → n ≤ 2147483647
    → (g : ℕ) × (g < n) × ((g ≡ 0) ↔ (n ≡ 1)) × Writes decrement_freq d g
decrement_bounds d n manual freq low high = (
  step_down n,
  unfold step_down in ground arith,
  unfold step_down in ground arith,
  decrement-Writes d n manual freq low high,
)
