-- ===== src/Fileshare/Client/Tests.antt =====
-- A connection that brings one message and a disk with one file, and the theorems about the client
-- there.
use networking_howto.Prelude.{
  ℕ, ◌+◌, true, false, Option, none, some, List, [], ◌∷◌, ◌++◌, length, take, drop, take-all,
  take-length-take, length-take, length-append, arith, refl,
}
use networking_howto.Fileshare.Posix.{Posix}
use networking_howto.Fileshare.Multiplexing.{FileshareServer}
use networking_howto.Fileshare.Multiplexing.Message.{header}
use networking_howto.Fileshare.Client.{FileshareClient}
use networking_howto.Fileshare.Client.Quiet.{Quiet}
use networking_howto.Fileshare.Client.Receive.{Whole}
use networking_howto.Fileshare.Client.Delivered.{
  SizeReceived, client_recv_file_size-server, client_receives_file,
}

-- The bytes still to come, and those in the file.
abbrev Disk : Type 0
Disk = List ℕ × List ℕ

abbrev count_of : Option (List ℕ) → List ℕ
count_of none = []
count_of (some buf) = buf

abbrev quiet_os : Posix
quiet_os = record {
  World = Disk;
  errno = λ w. 0;
  received_sigint = λ w. false;
  write = λ fd buf w. (none, w);
  write_beyond = λ fd count w. (none, w);
  read = λ fd count w. (none, w);
  pread = λ fd count offset w. (none, w);
  recv = λ fd count waitall w. (some (take count w.0), (drop (length (take count w.0)) w.0, w.1));
  pwrite =
      λ fd buf offset w. (some (length (count_of buf)), (w.0, take offset w.1 ++ count_of buf));
  open_read = λ filename w. (none, w);
  open_trunc = λ filename w. (some 3, w);
  fstat = λ fd w. (none, w);
  fallocate = λ fd size w. (true, w);
  ftruncate = λ fd size w. (true, w);
  fsync = λ fd w. (true, w);
  close = λ fd w. (true, w);
  sigfillset = λ w. (true, w);
  sigaction = λ w. (true, w);
  socket = λ nonblock w. (some 4, w);
  setsockopt = λ fd opt w. (true, w);
  bind = λ fd port w. (true, w);
  listen = λ fd backlog w. (true, w);
  accept = λ fd w. (none, w);
  poll = λ pollfds nfds w. (none, w);
  epoll_create1 = λ w. (none, w);
  epoll_ctl_add = λ epollfd fd event w. (false, w);
  epoll_ctl_del = λ epollfd fd w. (false, w);
  epoll_wait = λ epollfd max_events w. (none, w);
}

abbrev quiet : Quiet quiet_os
quiet = record {
  incoming = λ w fd. w.0;
  written = λ w fd. w.1;
  recv_works = λ fd count waitall w asked more.
      let len = length-take count w.0 in
      record {
        got = take count w.0;
        result = refl;
        some_got = omega (arith, len, asked, more);
        not_more = omega (arith, len);
        all_got = λ all enough. omega (arith, len, enough);
        front = take-length-take count w.0;
        rest = refl;
        keeps = λ file. refl;
      };
  pwrite_works = λ fd buf offset w inside_file.
      let before = length-take offset w.1 in
      let both = length-append (take offset w.1) buf in
      record {
        result = refl;
        reaches = omega (arith, before, both, inside_file);
        content =
            take-all (offset + length buf) (take offset w.1 ++ buf)
              (omega (arith, before, both, inside_file));
        keeps = λ socket. refl;
      };
}

abbrev file_bytes : List ℕ
file_bytes = 104 ∷ 105 ∷ 10 ∷ []

abbrev server : FileshareServer
server = record { src_file_fd = some 3; src_file_size = 3; listen_sock_fd = some 4 }

abbrev connected : FileshareClient
connected = record {
  server_conn_fd = some 5;
  dst_file_fd = none;
  dst_file_size = 0;
  dst_file_offset = 0;
}

abbrev told : FileshareClient
told = record {
  server_conn_fd = some 5;
  dst_file_fd = some 3;
  dst_file_size = 3;
  dst_file_offset = 0;
}

client_recv_file_size-server_example :
    SizeReceived quiet_os quiet file_bytes connected (header server ++ file_bytes, [])
client_recv_file_size-server_example =
    client_recv_file_size-server quiet_os quiet server file_bytes connected
      (header server ++ file_bytes, []) refl (omega arith) refl

client_receives_file_example :
    Whole quiet_os quiet file_bytes (omega arith) told (file_bytes, []) (length file_bytes + 1)
client_receives_file_example =
    client_receives_file quiet_os quiet file_bytes (omega arith) told (file_bytes, []) refl refl
      refl
