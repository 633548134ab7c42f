-- ===== src/Fileshare/Tests.antt =====
-- A small operating system with one socket and one file, and the theorems about the file server
-- there.
mod ShortWrite
use networking_howto.Prelude.{
  ℕ, ◌-◌, ◌≤◌, ◌<◌, ◌≡◌, true, false, none, some, List, [], ◌∷◌, ◌++◌, length, take, drop, min,
  take-all, take-length-take, length-take, length-drop, arith, refl, sym, ap, ◌∙◌,
}
use mathlib.Core.Option.{some-injective}
use networking_howto.Fileshare.Posix.{Posix}
use networking_howto.Fileshare.Laws.{Laws}
use networking_howto.Fileshare.Bytes.{bytes_of_u64, htobe64, le_value, htobe64-of_bytes}
use networking_howto.Fileshare.Multiplexing.{
  FileshareServer, FileshareConnection, send_file_size, send_data_block, send_next, send_at,
  server_send_file_size,
}
use networking_howto.Fileshare.Multiplexing.History.{History, accepted, turn}

-- The bytes of the only file.
abbrev pub file_bytes : List ℕ
file_bytes = 104 ∷ 105 ∷ 10 ∷ []

-- The world is what the only socket has taken. A write takes all, a read gives all that it may.
abbrev pub small_os : Posix
small_os = record {
  World = List ℕ;
  errno = λ w. 0;
  received_sigint = λ w. false;
  write = λ fd buf w. (some (length buf), w ++ buf);
  write_beyond = λ fd count w. (none, w);
  read = λ fd count w. (none, w);
  pread = λ fd count offset w. (some (take count (drop offset file_bytes)), w);
  recv = λ fd count waitall w. (some [], w);
  pwrite = λ fd buf offset w. (none, w);
  open_read = λ filename w. (some 3, w);
  open_trunc = λ filename w. (none, w);
  fstat = λ fd w. (some 3, w);
  fallocate = λ fd size w. (false, w);
  ftruncate = λ fd size w. (false, w);
  fsync = λ fd w. (false, w);
  close = λ fd w. (true, w);
  sigfillset = λ w. (true, w);
  sigaction = λ w. (true, w);
  socket = λ nonblock w. (some 4, w);
  setsockopt = λ fd opt w. (true, w);
  bind = λ fd port w. (true, w);
  listen = λ fd backlog w. (true, w);
  accept = λ fd w. (some 5, w);
  poll = λ pollfds nfds w. (none, w);
  epoll_create1 = λ w. (none, w);
  epoll_ctl_add = λ epollfd fd event w. (false, w);
  epoll_ctl_del = λ epollfd fd w. (false, w);
  epoll_wait = λ epollfd max_events w. (none, w);
}

pub read_all :
    (count offset : ℕ) (got : List ℕ)
    → some (take count (drop offset file_bytes)) ≡ some got
    → (length got ≤ count)
      × (got ≡ take (length got) (drop offset file_bytes))
      × (0 < count → length got ≡ 0 → length file_bytes ≤ offset)
read_all count offset got e =
    let same : take count (drop offset file_bytes) ≡ got = some-injective _ _ e in
    let rest : List ℕ = drop offset file_bytes in
    let len : length got ≡ min count (length rest) =
      ap length (sym same) ∙ length-take count rest in
    let left : length rest ≡ length file_bytes - offset = length-drop offset file_bytes in
    (
      omega (arith, len),
      sym same ∙ take-length-take count rest ∙ ap (λ n. take n rest) (ap length same),
      λ some_asked none_got. omega (arith, len, left, some_asked, none_got),
    )

pub write_all :
    (buf w : List ℕ) (n : ℕ)
    → some (length buf) ≡ some n
    → (n ≤ length buf) × (w ++ buf ≡ w ++ take n buf)
write_all buf w n e =
    let all : length buf ≡ n = some-injective _ _ e in
    (omega (arith, all), ap (λ t. w ++ t) (sym (take-all n buf (omega (arith, all)))))

abbrev pub small_os-Laws : Laws small_os
small_os-Laws = record {
  sent = λ w fd. w;
  content = λ w fd. file_bytes;
  write_some = λ fd buf w n e. write_all buf w n e;
  write_none = λ fd buf w e. let impossible : some (length buf) ≡ none = e in cc;
  write_keeps = λ fd buf w file. refl;
  pread_some = λ fd count offset w got e. read_all count offset got e;
  pread_keeps = λ fd count offset w other. (refl, refl);
}

abbrev pub server : FileshareServer
server = record { src_file_fd = some 3; src_file_size = 3; listen_sock_fd = some 4 }

abbrev pub sending : FileshareConnection
sending = record { client_sock_fd = some 5; src_file_offset = 0; state = send_file_size }

abbrev pub sending_block : FileshareConnection
sending_block = record { client_sock_fd = some 5; src_file_offset = 0; state = send_data_block }

abbrev pub size_bytes : List ℕ
size_bytes = 0 ∷ 0 ∷ 0 ∷ 0 ∷ 0 ∷ 0 ∷ 0 ∷ 3 ∷ []

send_size_runs : send_next small_os server sending [] ≡ some ((true, sending_block), size_bytes)
unfolding send_at server_send_file_size htobe64 bytes_of_u64
send_size_runs = refl

-- The switch of the connection has run once.
abbrev first_turn : History small_os small_os-Laws server sending [] sending_block size_bytes
first_turn = turn true accepted send_size_runs

swapped_258 : htobe64 (le_value (bytes_of_u64 (htobe64 258))) ≡ 258
swapped_258 = htobe64-of_bytes 258 (omega arith)
