-- ===== src/Fileshare/Poll/Tests.antt =====
-- A small operating system in which `poll` reports each descriptor as ready, and the loop of
-- server-poll.c there.
use networking_howto.Prelude.{
  ℕ, ◌^◌, ◌<◌, ◌≡◌, Bool, true, false, Option, none, some, List, [], ◌∷◌, ◌++◌, length, take, drop,
  arith, refl, sym, ap, ◌∙◌, ltb, if◌then◌else◌, Bool-cases, ltb→lt, lt→ltb, inl, inr,
}
use mathlib.Core.Option.{some-injective}
use networking_howto.Prelude.Program.{Outcome, done, exit_failure}
use networking_howto.Prelude.Ends.{Ends}
use networking_howto.Fileshare.Posix.{Posix, PollFd, Fd, Events}
use networking_howto.Fileshare.Multiplexing.{
  FileshareServer, server_send_file_size, server_send_file_block, send_block, send_at,
}
use networking_howto.Fileshare.Multiplexing.Setup.{
  server_accept_connection_request, server_close_conn_socket, accepted, set_connection_options,
}
use networking_howto.Fileshare.Bytes.{bytes_of_u64, htobe64}
use networking_howto.Fileshare.EventLoop.{Clients, no_clients, accept_client, write_conn}
use networking_howto.Fileshare.EventLoop.Steps.{Failures}
use networking_howto.Fileshare.Poll.{
  no_events, zeroed, poll_loop, poll_server_wait_for_client, poll_server_do_not_wait_for_client,
  poll_conn_wait_on_socket, poll_conn_do_not_wait_on_socket, poll_conn, poll_conns, hung_up,
  check_success, serve_conn, serve_conns, new_client, serve_clients, poll_listen, poll_clients,
}
use networking_howto.Fileshare.Poll.Watch.{PollWorks}
use networking_howto.Fileshare.Poll.Round.{poll_loop_serves}
use networking_howto.Fileshare.EventLoop.Stop.{LoopResult}

abbrev file_bytes : List ℕ
file_bytes = 104 ∷ 105 ∷ 10 ∷ []

abbrev reported : Fd → Events → Events
reported none events = no_events
reported (some fd) events = record events { pollhup = false }

abbrev report : PollFd → PollFd
report entry = record entry { revents = reported entry.fd entry.events }

abbrev ready : (ℕ → PollFd) → (nfds i : ℕ) → PollFd
ready fds nfds i = if ltb i nfds then report (fds i) else fds i

-- The world is what the clients have been sent.
abbrev ready_os : Posix
ready_os = record {
  World = List ℕ;
  errno = λ w. 0;
  received_sigint = λ w. false;
  write = λ fd buf w. (some (length buf), w ++ buf);
  write_beyond = λ fd count w. (none, w);
  read = λ fd count w. (none, w);
  pread = λ fd count offset w. (some (take count (drop offset file_bytes)), w);
  recv = λ fd count waitall w. (none, w);
  pwrite = λ fd buf offset w. (none, w);
  open_read = λ filename w. (some 3, w);
  open_trunc = λ filename w. (none, w);
  fstat = λ fd w. (some 3, w);
  fallocate = λ fd size w. (false, w);
  ftruncate = λ fd size w. (false, w);
  fsync = λ fd w. (false, w);
  close = λ fd w. (true, w);
  sigfillset = λ w. (true, w);
  sigaction = λ w. (true, w);
  socket = λ nonblock w. (some 4, w);
  setsockopt = λ fd opt w. (true, w);
  bind = λ fd port w. (true, w);
  listen = λ fd backlog w. (true, w);
  accept = λ fd w. (some 5, w);
  poll = λ fds nfds w. (some (ready fds nfds), w);
  epoll_create1 = λ w. (none, w);
  epoll_ctl_add = λ epollfd fd event w. (false, w);
  epoll_ctl_del = λ epollfd fd w. (false, w);
  epoll_wait = λ epollfd max_events w. (none, w);
}

abbrev server : FileshareServer
server = record { src_file_fd = some 3; src_file_size = 3; listen_sock_fd = some 4 }

some≢none : {A : Type 0} (a : A) → ¬ (some a ≡ none)
some≢none a e = cc

ready_os-Failures : Failures ready_os (true ≡ false)
ready_os-Failures = record {
  close_fails = λ fd w e. e;
  setsockopt_fails = λ fd opt w e. e;
  accept_fails = λ fd w e. absurd (some≢none 5 e);
}

ready_os-PollWorks : PollWorks ready_os
ready_os-PollWorks = record {
  beyond = λ fds polled nfds w e i from. elim (Bool-cases (ltb i nfds)) [
    | inl l ↦ let l' = ltb→lt i nfds l in absurd (omega (arith, l', from))
    | inr ge ↦
        ap (λ (f : ℕ → PollFd). f i) (sym (some-injective _ _ e))
        ∙ ap (λ b. if b then report (fds i) else fds i) ge
  ];
  silent = λ fds polled nfds w e i l quiet.
      ap (λ (f : ℕ → PollFd). (f i).revents) (sym (some-injective _ _ e))
      ∙ ap (λ b. (if b then report (fds i) else fds i).revents) (lt→ltb i nfds l)
      ∙ ap (λ fd. reported fd (fds i).events) quiet;
}

poll_never_fails :
    (fds : ℕ → PollFd) (nfds : ℕ) (w : List ℕ) → (ready_os.poll fds nfds w).0 ≡ none → true ≡ false
poll_never_fails fds nfds w e = absurd (some≢none _ e)

one_client : 1 < 2 ^ 64
one_client = omega arith

poll_loop_serves_example :
    Ends (true ≡ false) (LoopResult ready_os 1) (poll_loop ready_os 5 1 server no_clients zeroed [])
poll_loop_serves_example =
    poll_loop_serves ready_os (true ≡ false) ready_os-Failures ready_os-PollWorks poll_never_fails 1
      one_client server 5 []

-- Whether a loop has ended, its active and connected clients, and the world.
abbrev ended : Outcome (List ℕ) (Bool × Clients) → Option (Bool × ℕ × ℕ × List ℕ)
ended (done r w) = some (r.0, r.1.num_active, r.1.num_connected, w)
ended (exit_failure w) = none

-- One client: the loop ends in its fourth round, and the client has the size and the file.
serves_one_client :
    ended (poll_loop ready_os 5 1 server no_clients zeroed [])
    ≡ some (true, 0, 1, 0 ∷ 0 ∷ 0 ∷ 0 ∷ 0 ∷ 0 ∷ 0 ∷ 3 ∷ file_bytes)
unfolding poll_loop poll_clients poll_listen serve_clients new_client serve_conns serve_conn
    check_success hung_up poll_conns poll_conn poll_conn_do_not_wait_on_socket
    poll_conn_wait_on_socket poll_server_do_not_wait_for_client poll_server_wait_for_client
    accept_client write_conn server_send_file_size server_send_file_block send_block send_at
    server_accept_connection_request server_close_conn_socket accepted set_connection_options
    bytes_of_u64 htobe64
serves_one_client = refl
