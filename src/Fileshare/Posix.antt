-- ===== src/Fileshare/Posix.antt =====
-- What the file server and the client call of the operating system, as an interface.
use networking_howto.Prelude.{ℕ, Bool, Option, List}

-- A C `int` that names a descriptor: `none` is -1.
abbrev pub Fd : Type 0
Fd = Option ℕ

-- The options that are set on sockets, each with its argument.
pub data SockOpt : Type 0 where
  so_reuseaddr : (yes_flag : ℕ) → SockOpt
  so_linger : (l_onoff l_linger : ℕ) → SockOpt
  tcp_nodelay : (arg : ℕ) → SockOpt
  tcp_cork : (arg : ℕ) → SockOpt

-- `poll` and `epoll` report readiness by these bits.
pub record Events : Type 0 where
  pub pollin : Bool
  pub pollout : Bool
  pub pollhup : Bool

pub record PollFd : Type 0 where
  pub fd : Fd
  pub events : Events
  pub revents : Events

-- An event of `epoll`, with the number under which the descriptor was added.
pub record EpollEvent : Type 0 where
  pub events : Events
  pub data_u32 : ℕ

-- The system calls. A `none` and a `false` are the result -1. `received_sigint` is the flag that the
-- signal handler of the program may set at any time. `write_beyond` is a `write` of more bytes than
-- its buffer has. Output to the console is left out.
pub record Posix : Type 1 where
  pub World : Type 0
  pub errno : World → ℕ
  pub received_sigint : World → Bool
  pub write : Fd → List ℕ → World → Option ℕ × World
  pub write_beyond : Fd → (count : ℕ) → World → Option ℕ × World
  pub read : Fd → (count : ℕ) → World → Option (List ℕ) × World
  pub pread : Fd → (count offset : ℕ) → World → Option (List ℕ) × World
  pub recv : Fd → (count : ℕ) → (waitall : Bool) → World → Option (List ℕ) × World
  pub pwrite : Fd → (buf : Option (List ℕ)) → (offset : ℕ) → World → Option ℕ × World
  pub open_read : (filename : List ℕ) → World → Fd × World
  pub open_trunc : (filename : List ℕ) → World → Fd × World
  pub fstat : Fd → World → Option ℕ × World
  pub fallocate : Fd → (size : ℕ) → World → Bool × World
  pub ftruncate : Fd → (size : ℕ) → World → Bool × World
  pub fsync : Fd → World → Bool × World
  pub close : Fd → World → Bool × World
  pub sigfillset : World → Bool × World
  pub sigaction : World → Bool × World
  pub socket : (nonblock : Bool) → World → Fd × World
  pub setsockopt : Fd → SockOpt → World → Bool × World
  pub bind : Fd → (port : ℕ) → World → Bool × World
  pub listen : Fd → (backlog : ℕ) → World → Bool × World
  pub accept : Fd → World → Fd × World
  pub poll : (pollfds : ℕ → PollFd) → (nfds : ℕ) → World → Option (ℕ → PollFd) × World
  pub epoll_create1 : World → Fd × World
  pub epoll_ctl_add : (epollfd : Fd) → Fd → EpollEvent → World → Bool × World
  pub epoll_ctl_del : (epollfd : Fd) → Fd → World → Bool × World
  pub epoll_wait : (epollfd : Fd) → (max_events : ℕ) → World → Option (List EpollEvent) × World

-- Linux's EAGAIN.
abbrev pub eagain : ℕ
eagain = 11
