-- ===== src/WaitQueue/Notices.antt =====
-- The waiter goes on only for a notification.
use csel.Prelude.{ℕ, ◌+◌, ◌≤◌, ◌≡◌, List, [], ◌∷◌, ◌==◌, arith, turns, if◌then◌else◌}
use csel.WaitQueue.{
  Waiter, resets_flag, Notifier, sets_flag, State, Thread, waiting, notifying, unloading, turn, run,
  thread_fn_wait, thread_fn_notif, skeleton_exit, running,
}

abbrev one_at_reset : Waiter → ℕ
one_at_reset resets_flag = 1
one_at_reset w = 0

abbrev one_at_set : Notifier → ℕ
one_at_set sets_flag = 1
one_at_set n = 0

-- The times that a run of turns resets the flag, and sets it.
unfoldable pub resets : List Thread → State → ℕ
unfolding turn
resets [] s = 0
resets (waiting ∷ ts) s = one_at_reset s.waiter + resets ts (turn waiting s)
resets (t ∷ ts) s = resets ts (turn t s)

unfoldable pub sets : List Thread → State → ℕ
unfolding turn
sets [] s = 0
sets (notifying ∷ ts) s = one_at_set s.notifier + sets ts (turn notifying s)
sets (t ∷ ts) s = sets ts (turn t s)

-- A notification that waits.
abbrev pending : State → ℕ
pending s = if s.flag == 1 then 1 else 0

abbrev ResetsPending : State → Type 0
ResetsPending s = s.waiter ≡ resets_flag → s.flag ≡ 1

wait-ResetsPending :
    (s : State)
    → ResetsPending s
    → ResetsPending (turn waiting s)
      × (one_at_reset s.waiter + pending (turn waiting s) ≤ pending s)
unfolding turn thread_fn_wait
wait-ResetsPending s inv = ground arith

notify-ResetsPending :
    (s : State)
    → ResetsPending s
    → ResetsPending (turn notifying s)
      × (pending (turn notifying s) ≤ one_at_set s.notifier + pending s)
unfolding turn thread_fn_notif
notify-ResetsPending s inv = ground arith

unload-ResetsPending :
    (s : State)
    → ResetsPending s
    → ResetsPending (turn unloading s) × (pending (turn unloading s) ≤ pending s)
unfolding turn skeleton_exit
unload-ResetsPending s inv = ground arith

resets-le :
    (ts : List Thread) (s : State)
    → ResetsPending s
    → resets ts s + pending (run ts s) ≤ sets ts s + pending s
unfolding resets sets turns
resets-le [] s inv = omega arith
resets-le (waiting ∷ ts) s inv =
    let (inv', less) = wait-ResetsPending s inv in omega (arith, resets-le ts (turn waiting s) inv')
resets-le (notifying ∷ ts) s inv =
    let (inv', less) = notify-ResetsPending s inv in
    omega (arith, resets-le ts (turn notifying s) inv')
resets-le (unloading ∷ ts) s inv =
    let (inv', less) = unload-ResetsPending s inv in
    omega (arith, resets-le ts (turn unloading s) inv')

-- From a load on, in whatever order the threads take their turns, the waiter has reset the flag at
-- most as often as the notifier has set it; and if the flag is set at the end, less often.
pub waits_for_notices :
    (ts : List Thread)
    → resets ts running + (if (run ts running).flag == 1 then 1 else 0) ≤ sets ts running
waits_for_notices ts = omega (arith, resets-le ts running (λ e. cc))
