-- ===== src/Fileshare/Epoll.antt =====
-- 05_stream_mutliplexing/server/server-epoll.c: the server that waits by `epoll`.
pub mod Interest
pub mod Connection
pub mod Serve
pub mod Round
mod Tests
use networking_howto.Prelude.{
  ℕ, zero, suc, ◌+◌, ◌-◌, Bool, true, false, not, ◌&&◌, some, ◌==◌, if◌then◌else◌, List, [], ◌∷◌,
  u32,
}
use networking_howto.Prelude.Program.{done, M, ◌>>=◌, ◌>>◌, pure, call, or_exit, value_or_exit}
use networking_howto.Fileshare.Posix.{Posix, Fd, Events, EpollEvent}
use networking_howto.Fileshare.Multiplexing.{
  FileshareServer, FileshareConnection, transfer_finished, set_state,
}
use networking_howto.Fileshare.Multiplexing.Setup.{
  server_close_conn_socket, server_open_src_file, init_shutdown_control, server_init_listen_socket,
  server_close_listen_socket, server_close_src_file,
}
use networking_howto.Fileshare.EventLoop.{
  Clients, no_clients, set_conn, one_less, accepts_new, accept_client, write_conn,
}

abbrev pub pollin_event : Events
pollin_event = record { pollin = true; pollout = false; pollhup = false }

abbrev pub pollout_event : Events
pollout_event = record { pollin = false; pollout = true; pollhup = true }

module _ (os : Posix) (epollfd : Fd) where
  open os use {World}

  unfoldable pub epoll_server_wait_for_client : FileshareServer → M World (Unit {0})
  epoll_server_wait_for_client server = or_exit (
      os.epoll_ctl_add epollfd server.listen_sock_fd
        (record { events = pollin_event; data_u32 = 0 }))

  unfoldable pub epoll_server_stop_waiting_for_client : FileshareServer → M World (Unit {0})
  epoll_server_stop_waiting_for_client server =
      or_exit (os.epoll_ctl_del epollfd server.listen_sock_fd)

  unfoldable pub epoll_conn_wait_on_socket : (conn_i : ℕ) → FileshareConnection → M World (Unit {0})
  epoll_conn_wait_on_socket conn_i conn = or_exit (
      os.epoll_ctl_add epollfd conn.client_sock_fd
        (record { events = pollout_event; data_u32 = u32 (1 + conn_i) }))

  unfoldable pub epoll_conn_stop_waiting_on_socket : FileshareConnection → M World (Unit {0})
  epoll_conn_stop_waiting_on_socket conn = or_exit (os.epoll_ctl_del epollfd conn.client_sock_fd)

  -- A request of a new client. The counters, which are locals, change one call earlier here.
  unfoldable pub epoll_new_client : FileshareServer → Clients → M World Clients
  epoll_new_client server c = accept_client os server c >>= λ c'.
      epoll_conn_wait_on_socket c.num_connected (c'.conns c.num_connected) >> pure c'

  -- A connection that the client has left, or whose transfer is over.
  unfoldable pub end_conn : (conn_i : ℕ) → Clients → M World Clients
  end_conn conn_i c =
      epoll_conn_stop_waiting_on_socket (c.conns conn_i)
      >> (server_close_conn_socket os (c.conns conn_i)
          >> pure (one_less (set_conn c conn_i (set_state (c.conns conn_i) transfer_finished))))

  -- What follows the switch.
  unfoldable pub end_unless_success : (conn_i : ℕ) → Bool × Clients → M World Clients
  end_unless_success conn_i r = if r.0 then pure r.1 else end_conn conn_i r.1

  unfoldable pub serve_conn_event :
      FileshareServer → (conn_i : ℕ) → Events → Clients → M World Clients
  serve_conn_event server conn_i events c =
      if events.pollhup
      then end_conn conn_i c
      else if events.pollout
      then (write_conn os server c conn_i >>= end_unless_success conn_i)
      else pure c

  -- The body of the loop over the events.
  unfoldable pub serve_event : FileshareServer → EpollEvent → Clients → M World Clients
  serve_event server ev c =
      if ev.data_u32 == 0
      then epoll_new_client server c
      else serve_conn_event server (ev.data_u32 - 1) ev.events c

  unfoldable pub serve_events : FileshareServer → List EpollEvent → Clients → M World Clients
  serve_events server [] c = pure c
  serve_events server (ev ∷ events) c =
      serve_event server ev c >>= λ c'. serve_events server events c'

  -- Before the call of `epoll_wait`; `prev` is `accept_new_connections_prev`.
  unfoldable pub epoll_listen : FileshareServer → (prev accepting : Bool) → M World Bool
  epoll_listen server prev accepting =
      if prev && not accepting
      then (epoll_server_stop_waiting_for_client server >> pure false)
      else pure prev

  -- One round of the loop that is not the last, with the new `prev`.
  unfoldable pub epoll_clients :
      (max_conns : ℕ)
      → FileshareServer
      → (prev accepting : Bool) → Clients
      → M World (Bool × Clients)
  epoll_clients max_conns server prev accepting c = epoll_listen server prev accepting >>= λ prev'.
      value_or_exit (os.epoll_wait epollfd (max_conns + 1)) >>= λ events.
      serve_events server events c >>= λ c'. pure (prev', c')

  -- The loop of `main`, in `rounds` rounds at most: whether it has ended, and the clients then.
  unfoldable pub epoll_loop :
      (rounds max_conns : ℕ) → FileshareServer → (prev : Bool) → Clients → M World (Bool × Clients)
  epoll_loop zero max_conns server prev c w = done (false, c) w
  epoll_loop (suc rounds) max_conns server prev c w =
      let accepting = accepts_new os max_conns c w in
      if c.num_active == 0 && not accepting
      then done (true, c) w
      else (epoll_clients max_conns server prev accepting c >>= λ r.
            epoll_loop rounds max_conns server r.0 r.1)
          w

  -- The sockets: from the first wait for a client on.
  unfoldable pub epoll_serve : (rounds max_conns : ℕ) → FileshareServer → M World (Bool × Clients)
  epoll_serve rounds max_conns server =
      epoll_server_wait_for_client server >> epoll_loop rounds max_conns server true no_clients

module _ (os : Posix) where
  -- `main`, past its arguments and the two arrays, which `calloc` gives zeroed.
  unfoldable pub epoll_main :
      (rounds max_conns : ℕ) → (filename : List ℕ) → FileshareServer → M os.World (Bool × Clients)
  epoll_main rounds max_conns filename server = value_or_exit os.epoll_create1 >>= λ fd.
      server_open_src_file os filename server >>= λ opened.
      init_shutdown_control os
      >> (server_init_listen_socket os opened >>= λ listening.
          epoll_serve os (some fd) rounds max_conns listening >>= λ r.
          server_close_listen_socket os listening
          >> (server_close_src_file os listening
              >> (call (os.close (some fd)) >>= λ closed. pure r)))
