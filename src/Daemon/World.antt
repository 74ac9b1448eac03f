-- ===== src/Daemon/World.antt =====
-- The globals of the daemon, and a monad for its functions: they change the globals, make system calls
-- in order, take the system's answers from lists, and may run into undefined behaviour. What is printed
-- or logged is left out: nothing reads it.
use csel.Prelude.{ℕ, ◌-◌, Bool, List, [], ◌∷◌, ◌++◌, map, ℤ, negsuc, length, take, replicate, drop}
use csel.Cstd.{Bytes, Outcome, ok, and_then}

pub data Flags : Type 0 where
  rdonly wronly rdwr : Flags

-- The kinds of readiness that epoll is asked for.
pub data Interest : Type 0 where
  epollin epollpri : Interest

-- The handlers whose addresses lie in `data.ptr` of the epoll events. (`data` is a union: the
-- descriptor that is stored there first is overwritten.)
pub data Handler : Type 0 where
  freq_handler_ptr cpu_temp_handler_ptr timer_handler_ptr : Handler
  k1_handler_ptr k2_handler_ptr k3_handler_ptr : Handler

-- struct itimerspec
pub record Itimerspec : Type 0 where
  pub value_sec : ℕ
  pub value_nsec : ℕ
  pub interval_sec : ℕ
  pub interval_nsec : ℕ

-- struct file_desc, without `mode_fd`, which nothing sets or reads
pub record FileDesc : Type 0 where
  pub cpu_temp_fd : ℤ
  pub freq_fd : ℤ
  pub timer_fd : ℤ
  pub led_pwr_fd : ℤ
  pub k1_fd : ℤ
  pub k2_fd : ℤ
  pub k3_fd : ℤ

-- A system call with its arguments; `opened` has the descriptor that it gave. `lock` and `unlock` are
-- those of lcd_mutex_lock, `i2c` is a message to the display, and `sent` a message to the outcome queue.
pub data Syscall : Type 0 where
  opened : Bytes → Flags → ℤ → Syscall
  wrote : ℤ → Bytes → Syscall
  pread_at_0 : ℤ → ℕ → Syscall
  pwrote_at_0 : ℤ → Bytes → Syscall
  closed : ℤ → Syscall
  set_timer_fd : ℤ → Itimerspec → Syscall
  i2c : Bytes → Syscall
  lock unlock : Syscall
  sent : Bytes → Syscall
  created_timer : ℤ → Syscall
  created_epoll : ℤ → Syscall
  epoll_added : ℤ → ℤ → Interest → Handler → Syscall

-- The answers of the system that are still to come: the descriptors that open, timerfd_create and
-- epoll_create1 give, the bytes that pread finds, the results of timerfd_settime. Behind the end of a list a call fails.
pub record Answers : Type 0 where
  pub opens : List ℤ
  pub reads : List Bytes
  pub settimes : List ℤ

pub record Daemon : Type 0 where
  pub cur_freq : ℤ
  pub cur_mode : ℤ
  pub cur_cpu_temp : ℤ
  pub stop_request : Bool
  pub file_descriptors : FileDesc
  pub ts : Itimerspec
  -- outcome_mq_buffer, of MAX_MQ_SIZE + 1 bytes
  pub outcome_mq_buffer : Bytes
  pub answers : Answers

abbrev pub Trace : Type 0
Trace = List Syscall

-- The result, the globals afterwards, and the calls that were made.
abbrev pub M : Type 0 → Type 0
M A = Daemon → Outcome (A × Daemon × Trace)

abbrev pub pure : {A : Type 0} → A → M A
pure a d = ok (a, d, [])

infixl 5 ◌>>=◌ ◌>>◌
abbrev pub ◌>>=◌ : {A B : Type 0} → M A → (A → M B) → M B
◌>>=◌ m f d = and_then (m d) λ (a, d', t). and_then (f a d') λ (b, d'', u). ok (b, d'', t ++ u)

abbrev pub ◌>>◌ : {A B : Type 0} → M A → M B → M B
m >> k = m >>= λ _. k

abbrev pub call : Syscall → M (Unit {0})
call c d = ok (tt, d, c ∷ [])

abbrev pub get : M Daemon
get d = ok (d, d, [])

abbrev pub put : Daemon → M (Unit {0})
put d _ = ok (tt, d, [])

-- A computation without system calls.
abbrev pub lift : {A : Type 0} → Outcome A → M A
lift r d = and_then r λ a. ok (a, d, [])

-- Messages to the display.
abbrev pub display : Outcome (List Bytes) → M (Unit {0})
display r d = and_then r λ ms. ok (tt, d, map i2c ms)

abbrev pub first_fd : List ℤ → ℤ
first_fd [] = negsuc 0
first_fd (fd ∷ fds) = fd

abbrev pub first_bytes : List Bytes → Bytes
first_bytes [] = []
first_bytes (b ∷ bs) = b

abbrev pub open_file : Bytes → Flags → M ℤ
open_file path flags d =
    let fd = first_fd d.answers.opens in
    ok (
      fd,
      record d { answers = record d.answers { opens = drop 1 d.answers.opens } },
      opened path flags fd ∷ [],
    )

abbrev pub create : (ℤ → Syscall) → M ℤ
create made d =
    let fd = first_fd d.answers.opens in
    ok
      (fd, record d { answers = record d.answers { opens = drop 1 d.answers.opens } }, made fd ∷ [])

-- What pread finds at the start of the file, `size` bytes at most; nothing where it fails.
abbrev pub pread_file : ℤ → ℕ → M Bytes
pread_file fd size d = ok (
  take size (first_bytes d.answers.reads),
  record d { answers = record d.answers { reads = drop 1 d.answers.reads } },
  pread_at_0 fd size ∷ [],
)

-- An array of `size` zeroes after a read into its start.
abbrev pub filled : ℕ → Bytes → Bytes
filled size got = got ++ replicate (size - length got) 0
