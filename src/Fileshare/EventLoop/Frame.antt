-- ===== src/Fileshare/EventLoop/Frame.antt =====
-- A relation between the worlds before and after that every call of the two loops respects, except
-- those of `poll` and of `epoll`.
use networking_howto.Prelude.{ℕ, List}
use networking_howto.Prelude.Program.{M, ◌>>=◌}
use networking_howto.Prelude.Ends.{Ends, bind-Ends, weaken-Ends}
use networking_howto.Fileshare.Posix.{Posix, Fd, SockOpt}

pub record Frame (os : Posix) : Type 1 where
  pub Before : os.World → os.World → Type 0
  pub same : (w : os.World) → Before w w
  pub after : (u v w : os.World) → Before u v → Before v w → Before u w
  pub write : (fd : Fd) (buf : List ℕ) (w : os.World) → Before w (os.write fd buf w).1
  pub pread : (fd : Fd) (count offset : ℕ) (w : os.World) → Before w (os.pread fd count offset w).1
  pub accept : (fd : Fd) (w : os.World) → Before w (os.accept fd w).1
  pub setsockopt : (fd : Fd) (opt : SockOpt) (w : os.World) → Before w (os.setsockopt fd opt w).1
  pub close : (fd : Fd) (w : os.World) → Before w (os.close fd w).1

-- The relation that says nothing.
abbrev pub no_frame : (os : Posix) → Frame os
no_frame os = record {
  Before = λ u v. Unit;
  same = λ w. tt;
  after = λ u v w p q. tt;
  write = λ fd buf w. tt;
  pread = λ fd count offset w. tt;
  accept = λ fd w. tt;
  setsockopt = λ fd opt w. tt;
  close = λ fd w. tt;
}

module _ (os : Posix) (frame : Frame os) where
  abbrev pub From : os.World → {A : Type 0} → A → os.World → Type 0
  From w a v = frame.Before w v

  pub bind-From :
      {A B : Type 0} (E : Type 0) (m : M os.World A) (f : A → M os.World B) (w : os.World)
      → Ends E (From w) (m w)
      → ((a : A) (v : os.World) → Ends E (From v) (f a v))
      → Ends E (From w) ((m >>= f) w)
  bind-From E m f w first next = bind-Ends E (From w) (From w) m f w first (λ a v p.
      weaken-Ends E (From v) (From w) (f a v) (next a v) (λ b v' q. frame.after w v v' p q))
