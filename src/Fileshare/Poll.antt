-- ===== src/Fileshare/Poll.antt =====
-- 05_stream_mutliplexing/server/server-poll.c: the server that waits by `poll`.
pub mod Watch
pub mod Serve
pub mod Round
mod Tests
use networking_howto.Prelude.{
  ℕ, zero, suc, ◌+◌, Bool, true, false, not, ◌&&◌, Option, none, some, ◌==◌, if◌then◌else◌, update,
  List,
}
use networking_howto.Prelude.Program.{
  Outcome, done, exit_failure, M, ◌>>=◌, ◌>>◌, pure, value_or_exit,
}
use networking_howto.Fileshare.Posix.{Posix, Fd, Events, PollFd}
use networking_howto.Fileshare.Multiplexing.{
  FileshareServer, FileshareConnection, TransferState, connection_empty, send_file_size,
  send_data_block, transfer_finished, set_state,
}
use networking_howto.Fileshare.Multiplexing.Setup.{
  server_close_conn_socket, server_open_src_file, init_shutdown_control, server_init_listen_socket,
  server_close_listen_socket, server_close_src_file,
}
use networking_howto.Fileshare.EventLoop.{
  Clients, no_clients, set_conn, one_less, accepts_new, accept_client, write_conn,
}

abbrev pub no_events : Events
no_events = record { pollin = false; pollout = false; pollhup = false }

abbrev pub ignored : PollFd
ignored = record { fd = none; events = no_events; revents = no_events }

-- `pollfds` as `calloc` gives it.
abbrev pub zeroed : ℕ → PollFd
zeroed i = record ignored { fd = some 0 }

unfoldable pub poll_server_wait_for_client : (ℕ → PollFd) → FileshareServer → ℕ → PollFd
poll_server_wait_for_client pollfds server = update pollfds 0 (record {
  fd = server.listen_sock_fd;
  events = record no_events { pollin = true };
  revents = no_events;
})

unfoldable pub poll_server_do_not_wait_for_client : (ℕ → PollFd) → ℕ → PollFd
poll_server_do_not_wait_for_client pollfds = update pollfds 0 ignored

unfoldable pub poll_conn_wait_on_socket :
    (ℕ → PollFd) → (conn_i : ℕ) → FileshareConnection → ℕ → PollFd
poll_conn_wait_on_socket pollfds conn_i conn = update pollfds (1 + conn_i) (record {
  fd = conn.client_sock_fd;
  events = record no_events { pollout = true; pollhup = true };
  revents = no_events;
})

unfoldable pub poll_conn_do_not_wait_on_socket : (ℕ → PollFd) → (conn_i : ℕ) → ℕ → PollFd
poll_conn_do_not_wait_on_socket pollfds conn_i = update pollfds (1 + conn_i) ignored

-- The switch that sets up the entry of a connection; `none` is the exit for one never accepted.
unfoldable pub poll_conn :
    TransferState → (ℕ → PollFd) → (conn_i : ℕ) → FileshareConnection → Option (ℕ → PollFd)
poll_conn connection_empty pollfds conn_i conn = none
poll_conn send_file_size pollfds conn_i conn = some (poll_conn_wait_on_socket pollfds conn_i conn)
poll_conn send_data_block pollfds conn_i conn = some (poll_conn_wait_on_socket pollfds conn_i conn)
poll_conn transfer_finished pollfds conn_i conn =
    some (poll_conn_do_not_wait_on_socket pollfds conn_i)

module _ (os : Posix) where
  open os use {World}

  abbrev pub or_unexpected : {A : Type 0} → Option A → M World A
  or_unexpected none w = exit_failure w
  or_unexpected (some a) w = done a w

  -- The loop over the connections before the call of `poll`.
  unfoldable pub poll_conns : (left conn_i : ℕ) → Clients → (ℕ → PollFd) → M World (ℕ → PollFd)
  poll_conns zero conn_i c pollfds = pure pollfds
  poll_conns (suc left) conn_i c pollfds =
      or_unexpected (poll_conn (c.conns conn_i).state pollfds conn_i (c.conns conn_i))
      >>= λ pollfds'. poll_conns left (conn_i + 1) c pollfds'

  -- A connection that the client has left.
  unfoldable pub hung_up : Clients → (conn_i : ℕ) → M World Clients
  hung_up c conn_i =
      server_close_conn_socket os (c.conns conn_i)
      >> pure (one_less (set_conn c conn_i (set_state (c.conns conn_i) transfer_finished)))

  -- What follows the switch: a connection that had no success is closed.
  unfoldable pub check_success : (conn_i : ℕ) → Bool × Clients → M World Clients
  check_success conn_i r =
      if r.0
      then pure r.1
      else (server_close_conn_socket os (r.1.conns conn_i) >> pure (one_less r.1))

  -- The body of the loop over the connections after the call of `poll`.
  unfoldable pub serve_conn :
      FileshareServer → (conn_i : ℕ) → (revents : Events) → Clients → M World Clients
  serve_conn server conn_i revents c =
      if revents.pollhup
      then hung_up c conn_i
      else if revents.pollout
      then (write_conn os server c conn_i >>= check_success conn_i)
      else pure c

  unfoldable pub serve_conns :
      FileshareServer → (left conn_i : ℕ) → (ℕ → PollFd) → Clients → M World Clients
  serve_conns server zero conn_i pollfds c = pure c
  serve_conns server (suc left) conn_i pollfds c =
      serve_conn server conn_i (pollfds (1 + conn_i)).revents c >>= λ c'.
      serve_conns server left (conn_i + 1) pollfds c'

  -- A request of a new client, if there is one.
  unfoldable pub new_client : FileshareServer → (ℕ → PollFd) → Clients → M World Clients
  new_client server pollfds c =
      if (pollfds 0).revents.pollin then accept_client os server c else pure c

  -- What follows `poll`, as long as it does not fail.
  unfoldable pub serve_clients :
      FileshareServer → Clients → (ℕ → PollFd) → M World (Clients × (ℕ → PollFd))
  serve_clients server c pollfds = new_client server pollfds c >>= λ c'.
      serve_conns server c'.num_connected 0 pollfds c' >>= λ served. pure (served, pollfds)

  -- `pollfds[0]`, before the call of `poll`.
  unfoldable pub poll_listen : FileshareServer → (accepting : Bool) → (ℕ → PollFd) → ℕ → PollFd
  poll_listen server accepting pollfds =
      if accepting
      then poll_server_wait_for_client pollfds server
      else poll_server_do_not_wait_for_client pollfds

  -- One round of the loop that is not the last.
  unfoldable pub poll_clients :
      FileshareServer
      → (accepting : Bool) → Clients
      → (ℕ → PollFd)
      → M World (Clients × (ℕ → PollFd))
  poll_clients server accepting c pollfds =
      poll_conns c.num_connected 0 c (poll_listen server accepting pollfds) >>= λ watched.
      value_or_exit (os.poll watched (1 + c.num_connected)) >>= λ polled.
      serve_clients server c polled

  -- The loop of `main`, in `rounds` rounds at most: whether it has ended, and the clients then.
  unfoldable pub poll_loop :
      (rounds max_conns : ℕ) → FileshareServer → Clients → (ℕ → PollFd) → M World (Bool × Clients)
  poll_loop zero max_conns server c pollfds w = done (false, c) w
  poll_loop (suc rounds) max_conns server c pollfds w =
      let accepting = accepts_new os max_conns c w in
      if c.num_active == 0 && not accepting
      then done (true, c) w
      else (poll_clients server accepting c pollfds >>= λ r.
            poll_loop rounds max_conns server r.0 r.1)
          w

  -- `main`, past its arguments and the two arrays, which `calloc` gives zeroed.
  unfoldable pub poll_main :
      (rounds max_conns : ℕ) → (filename : List ℕ) → FileshareServer → M World (Bool × Clients)
  poll_main rounds max_conns filename server = server_open_src_file os filename server >>= λ opened.
      init_shutdown_control os
      >> (server_init_listen_socket os opened >>= λ listening.
          poll_loop rounds max_conns listening no_clients zeroed >>= λ r.
          server_close_listen_socket os listening >> (server_close_src_file os listening >> pure r))
