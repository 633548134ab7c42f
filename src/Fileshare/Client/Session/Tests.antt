-- ===== src/Fileshare/Client/Session/Tests.antt =====
-- A connection that brings a file, on a system that counts the open descriptors.
use networking_howto.Prelude.{
  ℕ, zero, suc, ◌≡◌, Bool, true, false, none, some, List, [], ◌∷◌, length, take, drop, refl,
}
use mathlib.Core.Option
use networking_howto.Prelude.Ends.{Ends}
use networking_howto.Fileshare.Posix.{Posix}
use networking_howto.Fileshare.Client.{FileshareClient}
use networking_howto.Fileshare.Client.Session.{session}
use networking_howto.Fileshare.Client.Session.Descriptors.{
  DescriptorLaws, Leaves, session_descriptors,
}

-- What is still to come, and how many descriptors are open.
record Host : Type 0 where
  incoming : List ℕ
  descriptors : ℕ

abbrev closed : ℕ → Host → Bool × Host
closed zero h = (false, h)
closed (suc n) h = (true, record h { descriptors = n })

abbrev host_os : Posix
host_os = record {
  World = Host;
  errno = λ w. 0;
  received_sigint = λ w. false;
  write = λ fd buf w. (none, w);
  write_beyond = λ fd count w. (none, w);
  read = λ fd count w. (none, w);
  pread = λ fd count offset w. (none, w);
  recv = λ fd count waitall w.
      (some (take count w.incoming), record w { incoming = drop count w.incoming });
  pwrite = λ fd buf offset w. (Option.map length buf, w);
  open_read = λ filename w. (none, w);
  open_trunc = λ filename w. (some 3, record w { descriptors = suc w.descriptors });
  fstat = λ fd w. (none, w);
  fallocate = λ fd size w. (true, w);
  ftruncate = λ fd size w. (true, w);
  fsync = λ fd w. (true, w);
  close = λ fd w. closed w.descriptors w;
  sigfillset = λ w. (true, w);
  sigaction = λ w. (true, w);
  socket = λ nonblock w. (some 4, record w { descriptors = suc w.descriptors });
  setsockopt = λ fd opt w. (true, w);
  bind = λ fd port w. (true, w);
  listen = λ fd backlog w. (true, w);
  accept = λ fd w. (none, w);
  poll = λ pollfds nfds w. (none, w);
  epoll_create1 = λ w. (none, w);
  epoll_ctl_add = λ epollfd fd event w. (false, w);
  epoll_ctl_del = λ epollfd fd w. (false, w);
  epoll_wait = λ epollfd max_events w. (none, w);
}

closed-frees : (n : ℕ) (h : Host) → (closed n h).0 ≡ true → n ≡ suc (closed n h).1.descriptors
closed-frees zero h e = absurd (cc)
closed-frees (suc n) h e = refl

abbrev host_laws : DescriptorLaws host_os
host_laws = record {
  open_count = λ w. w.descriptors;
  recv_keeps = λ fd n waitall w. refl;
  pwrite_keeps = λ fd buf n w. refl;
  fallocate_keeps = λ fd n w. refl;
  ftruncate_keeps = λ fd n w. refl;
  fsync_keeps = λ fd w. refl;
  open_adds = λ name w n e. refl;
  close_frees = λ fd w e. closed-frees w.descriptors w e;
}

-- Two bytes are announced, and only one comes.
abbrev host : Host
host = record { incoming = 0 ∷ 0 ∷ 0 ∷ 0 ∷ 0 ∷ 0 ∷ 0 ∷ 2 ∷ 104 ∷ []; descriptors = 1 }

abbrev fresh_client : FileshareClient
fresh_client = record {
  server_conn_fd = some 4;
  dst_file_fd = none;
  dst_file_size = 0;
  dst_file_offset = 0;
}

session_descriptors_example :
    Ends Unit (Leaves host_os host_laws 1) (session host_os 5 [] fresh_client host)
session_descriptors_example = session_descriptors host_os host_laws 5 [] fresh_client host
