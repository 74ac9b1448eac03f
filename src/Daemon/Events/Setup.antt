-- ===== src/Daemon/Events/Setup.antt =====
-- What the set-up of the events thread registers, and which of its files stay open.
use csel.Prelude.{◌≡◌, refl, List, [], ◌∷◌, ℤ}
use csel.Cstd.{ok}
use csel.Daemon.World.{
  Daemon, Trace, Handler, freq_handler_ptr, cpu_temp_handler_ptr, timer_handler_ptr, k1_handler_ptr,
  k2_handler_ptr, k3_handler_ptr, epoll_added,
}
use csel.Daemon.Gpio.{open_pwr_led, open_k1, open_k2, open_k3}
use csel.Daemon.Events.{events_setup}

-- The handlers that epoll has, with their descriptors.
unfoldable pub registered : Trace → List (ℤ × Handler)
registered [] = []
registered (epoll_added e fd interest h ∷ t) = (fd, h) ∷ registered t
registered (_ ∷ t) = registered t

-- The set-up of the events thread runs to its end, whatever the system calls answer, and
-- registers six handlers with epoll, in this order and each with the descriptor that the daemon
-- keeps for it afterwards: the frequency's, the temperature's, the timer's, and those of K1, K2
-- and K3.
pub events_setup_registers :
    (d : Daemon)
    → (d' : Daemon) × (t : Trace) × (events_setup d ≡ ok (tt, d', t))
      × (registered t
          ≡ (d'.file_descriptors.freq_fd, freq_handler_ptr)
            ∷ (d'.file_descriptors.cpu_temp_fd, cpu_temp_handler_ptr)
            ∷ (d'.file_descriptors.timer_fd, timer_handler_ptr)
            ∷ (d'.file_descriptors.k1_fd, k1_handler_ptr)
            ∷ (d'.file_descriptors.k2_fd, k2_handler_ptr)
            ∷ (d'.file_descriptors.k3_fd, k3_handler_ptr)
            ∷ [])
unfolding registered events_setup open_pwr_led open_k1 open_k2 open_k3
events_setup_registers d = (_, _, refl, refl)
