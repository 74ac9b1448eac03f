-- ===== src/Daemon/Events.antt =====
-- events_thread: the descriptors, their registration with epoll, and the loop over the events.
pub mod Setup
use csel.Prelude.{List, [], ◌∷◌, if◌then◌else◌}
use csel.Cstd.{ok}
use csel.Daemon.World.{
  M, ◌>>=◌, ◌>>◌, pure, call, create, get, open_file, rdonly, rdwr, FileDesc, Handler,
  freq_handler_ptr, cpu_temp_handler_ptr, timer_handler_ptr, k1_handler_ptr, k2_handler_ptr,
  k3_handler_ptr, created_timer, created_epoll, epoll_added, epollin, epollpri,
}
use csel.Daemon.Fan.{fan_cputemp_file, fan_freq_file, freq_handler, cpu_temp_handler}
use csel.Daemon.Gpio.{open_pwr_led, open_k1, open_k2, open_k3}
use csel.Daemon.Buttons.{timer_handler, k1_handler, k2_handler, k3_handler}

-- The call through `events[i].data.ptr`.
unfoldable pub run_handler : Handler → FileDesc → M (Unit {0})
run_handler freq_handler_ptr = freq_handler
run_handler cpu_temp_handler_ptr = cpu_temp_handler
run_handler timer_handler_ptr = timer_handler
run_handler k1_handler_ptr = k1_handler
run_handler k2_handler_ptr = k2_handler
run_handler k3_handler_ptr = k3_handler

abbrev pub set_ts_start : M (Unit {0})
set_ts_start d = ok (
  tt,
  record d { ts = record { value_nsec = 0; value_sec = 1; interval_nsec = 0; interval_sec = 0 } },
  [],
)

abbrev pub set_file_descriptors : FileDesc → M (Unit {0})
set_file_descriptors fds d = ok (tt, record d { file_descriptors = fds }, [])

-- Up to the loop. The results of epoll_ctl are only printed.
unfoldable pub events_setup : M (Unit {0})
unfolding open_pwr_led open_k1 open_k2 open_k3
events_setup = do
  led ← open_pwr_led
  k1 ← open_k1
  k2 ← open_k2
  k3 ← open_k3
  cpu_temp_fd ← open_file fan_cputemp_file rdonly
  freq_fd ← open_file fan_freq_file rdwr
  timerfd ← create created_timer
  set_ts_start
  epfd ← create created_epoll
  call (epoll_added epfd freq_fd epollin freq_handler_ptr)
  call (epoll_added epfd cpu_temp_fd epollin cpu_temp_handler_ptr)
  call (epoll_added epfd timerfd epollin timer_handler_ptr)
  call (epoll_added epfd k1 epollpri k1_handler_ptr)
  call (epoll_added epfd k2 epollpri k2_handler_ptr)
  call (epoll_added epfd k3 epollpri k3_handler_ptr)
  set_file_descriptors (record {
    cpu_temp_fd = cpu_temp_fd;
    freq_fd = freq_fd;
    timer_fd = timerfd;
    led_pwr_fd = led;
    k1_fd = k1;
    k2_fd = k2;
    k3_fd = k3;
  })

-- `for (i = 0; i < nr; i++)`, over what one epoll_wait delivers: nothing where it fails. Each call gets
-- the global `file_descriptors` by value.
unfoldable pub handle_events : List Handler → M (Unit {0})
handle_events [] = pure tt
handle_events (h ∷ hs) =
    let more = handle_events hs in do d ← get; run_handler h d.file_descriptors; more

-- `while (!stop_request)`, over the results of epoll_wait in turn.
unfoldable pub events_loop : List (List Handler) → M (Unit {0})
events_loop [] = pure tt
events_loop (hs ∷ rounds) =
    let more = events_loop rounds in
    do d ← get; if d.stop_request then pure tt else (do handle_events hs; more)
