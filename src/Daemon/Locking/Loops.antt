-- ===== src/Daemon/Locking/Loops.antt =====
-- The two loops under the mutex's rules: the messages of `main`, the events of the other thread.
use csel.Prelude.{
  refl, Bool, true, false, Option, none, some, List, [], ◌∷◌, ◌++◌, ℤ, pos, eqb_ℤ, if◌then◌else◌,
  arith,
}
use csel.Cstd.{Bytes, codes, str_eq, c_str, format_int}
use csel.Daemon.World.{
  M, pure, get, lift, Daemon, FileDesc, Handler, freq_handler_ptr, cpu_temp_handler_ptr,
  timer_handler_ptr, k1_handler_ptr, k2_handler_ptr, k3_handler_ptr,
}
use csel.Daemon.Fan.{set_freq, get_freq, get_mode, get_cpu_temp}
use csel.Daemon.Messages.{
  Locals, scan_command, text_of, reply, set_cur_mode, handle_setfreq, dispatch, handle_message,
  receive, serve,
}
use csel.Daemon.Events.{run_handler, handle_events, events_loop}
use csel.Daemon.Locking.{
  discipline, IsGuarded, bind-IsGuarded, lift-IsGuarded, apply_mode-IsGuarded,
  timer_handler-IsGuarded, k1_handler-IsGuarded, k2_handler-IsGuarded, k3_handler-IsGuarded,
  freq_handler-IsGuarded, cpu_temp_handler-IsGuarded,
}

if-IsGuarded :
    {A : Type 0} (b : Bool) (m n : M A)
    → ((d : Daemon) → IsGuarded (m d))
    → ((d : Daemon) → IsGuarded (n d))
    → (d : Daemon) → IsGuarded ((if b then m else n) d)
if-IsGuarded true m n h k = h
if-IsGuarded false m n h k = k

pure-IsGuarded : {A : Type 0} (a : A) (d : Daemon) → IsGuarded (pure a d)
unfolding discipline
pure-IsGuarded a d = refl

get-IsGuarded : (d : Daemon) → IsGuarded (get d)
unfolding discipline
get-IsGuarded d = refl

reply-IsGuarded : (text : Bytes) (d : Daemon) → IsGuarded (reply text d)
unfolding reply discipline
reply-IsGuarded text d = ground arith

set_freq-IsGuarded : (freq : ℤ) (d : Daemon) → IsGuarded (set_freq freq d)
unfolding set_freq discipline
set_freq-IsGuarded freq d = ground arith

get_mode-IsGuarded : (d : Daemon) → IsGuarded (get_mode d)
unfolding get_mode discipline
get_mode-IsGuarded d = ground arith

setfreq-IsGuarded : (value : ℤ) (d : Daemon) → IsGuarded (handle_setfreq value d)
setfreq-IsGuarded value = bind-IsGuarded get _ get-IsGuarded λ d.
    if-IsGuarded (eqb_ℤ d.cur_mode (pos 1)) _ _
      (bind-IsGuarded (set_freq value) _ (set_freq-IsGuarded value)
        (λ _. reply-IsGuarded (codes "OK")))
      (reply-IsGuarded (codes "AUTO"))

dispatch-IsGuarded : (l : Locals) (d : Daemon) → IsGuarded (dispatch l d)
unfolding dispatch get_freq get_cpu_temp discipline
dispatch-IsGuarded l =
    if-IsGuarded (str_eq l.command (codes "stop")) _ _ (λ d. refl)
      (if-IsGuarded (str_eq l.command (codes "setfreq")) _ _ (setfreq-IsGuarded l.value) (
        if-IsGuarded (str_eq l.command (codes "getfreq")) _ _
          (bind-IsGuarded get_freq _ (λ d. refl) (λ freq. reply-IsGuarded (format_int freq)))
          (if-IsGuarded (str_eq l.command (codes "setmode")) _ _
            (bind-IsGuarded (set_cur_mode l.value) _ (λ d. refl) (λ _. apply_mode-IsGuarded))
            (if-IsGuarded (str_eq l.command (codes "getmode")) _ _
              (bind-IsGuarded get_mode _ get_mode-IsGuarded
                (λ mode. reply-IsGuarded (format_int mode)))
              (if-IsGuarded (str_eq l.command (codes "gettemp")) _ _
                (bind-IsGuarded get_cpu_temp _ (λ d. refl)
                  (λ temp. reply-IsGuarded (format_int temp)))
                (pure-IsGuarded tt))))))

pub receive-IsGuarded : (r : Option (Bytes × Locals)) (d : Daemon) → IsGuarded (receive r d)
unfolding handle_message
receive-IsGuarded none = pure-IsGuarded tt
receive-IsGuarded (some (message, stale)) =
    bind-IsGuarded (lift (scan_command (text_of (c_str (message ++ 0 ∷ []))) stale)) _
      (lift-IsGuarded _) (λ l. dispatch-IsGuarded l)

-- Whatever messages come, the loop of `main`, unless it runs into undefined behaviour, shows
-- nothing on the display without the mutex, never takes the mutex twice nor gives back what it
-- does not hold, and does not hold it at the end.
pub serve-IsGuarded : (rs : List (Option (Bytes × Locals))) (d : Daemon) → IsGuarded (serve rs d)
unfolding serve
serve-IsGuarded [] = pure-IsGuarded tt
serve-IsGuarded (r ∷ rs) = bind-IsGuarded (receive r) _ (receive-IsGuarded r) λ _.
    bind-IsGuarded get _ get-IsGuarded
      λ d. if-IsGuarded d.stop_request _ _ (pure-IsGuarded tt) (serve-IsGuarded rs)

pub run_handler-IsGuarded :
    (h : Handler) (fds : FileDesc) (d : Daemon) → IsGuarded (run_handler h fds d)
unfolding run_handler
run_handler-IsGuarded freq_handler_ptr = freq_handler-IsGuarded
run_handler-IsGuarded cpu_temp_handler_ptr = cpu_temp_handler-IsGuarded
run_handler-IsGuarded timer_handler_ptr = timer_handler-IsGuarded
run_handler-IsGuarded k1_handler_ptr = k1_handler-IsGuarded
run_handler-IsGuarded k2_handler_ptr = k2_handler-IsGuarded
run_handler-IsGuarded k3_handler_ptr = k3_handler-IsGuarded

handle_events-IsGuarded : (hs : List Handler) (d : Daemon) → IsGuarded (handle_events hs d)
unfolding handle_events
handle_events-IsGuarded [] = pure-IsGuarded tt
handle_events-IsGuarded (h ∷ hs) = bind-IsGuarded get _ get-IsGuarded λ d.
    bind-IsGuarded (run_handler h d.file_descriptors) _ (run_handler-IsGuarded h d.file_descriptors)
      (λ _. handle_events-IsGuarded hs)

-- Whatever events come, the loop of the events thread, unless it runs into undefined behaviour,
-- shows nothing on the display without the mutex, never takes the mutex twice nor gives back what
-- it does not hold, and does not hold it at the end.
pub events_loop-IsGuarded :
    (rounds : List (List Handler)) (d : Daemon) → IsGuarded (events_loop rounds d)
unfolding events_loop
events_loop-IsGuarded [] = pure-IsGuarded tt
events_loop-IsGuarded (hs ∷ rounds) = bind-IsGuarded get _ get-IsGuarded λ d.
    if-IsGuarded d.stop_request _ _ (pure-IsGuarded tt) (
      bind-IsGuarded (handle_events hs) _ (handle_events-IsGuarded hs)
        (λ _. events_loop-IsGuarded rounds))
