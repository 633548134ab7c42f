-- ===== src/Fileshare/Multiplexing/Setup.antt =====
-- 05_stream_mutliplexing/server/server-common-multiplexing.h: the file, the signal handler and the
-- sockets. Each failing call ends the program.
use networking_howto.Prelude.{ℕ, Bool, true, false, none, some, List, if◌then◌else◌}
use networking_howto.Prelude.Program.{M, ◌>>=◌, ◌>>◌, pure, exit, call, or_exit, value_or_exit}
use networking_howto.Fileshare.Posix.{Posix, Fd, so_reuseaddr, so_linger, tcp_nodelay, tcp_cork}
use networking_howto.Fileshare.Multiplexing.{FileshareServer, FileshareConnection}

-- The port of the file server, and the length of its queue of requests.
abbrev pub server_port : ℕ
server_port = 1337

abbrev pub listen_backlog : ℕ
listen_backlog = 10

module _ (os : Posix) where
  open os use {World, received_sigint}

  unfoldable pub server_open_src_file : List ℕ → FileshareServer → M World FileshareServer
  server_open_src_file filename server = do
    fd ← value_or_exit (os.open_read filename)
    st_size ← value_or_exit (os.fstat (some fd))
    pure (record server { src_file_fd = some fd; src_file_size = st_size })

  unfoldable pub server_close_src_file : FileshareServer → M World (Unit {0})
  server_close_src_file server = or_exit (os.close server.src_file_fd)

  abbrev pub program_in_shutdown : World → Bool
  program_in_shutdown w = received_sigint w

  unfoldable pub init_shutdown_control : M World (Unit {0})
  init_shutdown_control = do or_exit os.sigfillset; or_exit os.sigaction

  unfoldable pub server_init_listen_socket : FileshareServer → M World FileshareServer
  server_init_listen_socket server = do
    fd ← value_or_exit (os.socket true)
    or_exit (os.setsockopt (some fd) (so_reuseaddr 1))
    or_exit (os.bind (some fd) server_port)
    or_exit (os.listen (some fd) listen_backlog)
    pure (record server { listen_sock_fd = some fd })

  unfoldable pub server_close_listen_socket : FileshareServer → M World (Unit {0})
  server_close_listen_socket server = or_exit (os.close server.listen_sock_fd)

  -- The three options of a new connection; SO_LINGER goes to the listening socket.
  unfoldable pub set_connection_options : FileshareServer → Fd → M World (Unit {0})
  set_connection_options server fd = do
    or_exit (os.setsockopt server.listen_sock_fd (so_linger 1 1))
    or_exit (os.setsockopt fd (tcp_nodelay 1))
    or_exit (os.setsockopt fd (tcp_cork 0))

  -- What follows `accept`.
  unfoldable pub accepted :
      FileshareServer → FileshareConnection → Fd → M World (Bool × FileshareConnection)
  unfolding set_connection_options
  accepted server conn none w =
      if program_in_shutdown w
      then pure (false, record conn { client_sock_fd = none }) w
      else exit w
  accepted server conn (some fd) w =
      (set_connection_options server (some fd)
          >> pure (true, record conn { client_sock_fd = some fd }))
        w

  unfoldable pub server_accept_connection_request :
      FileshareServer → FileshareConnection → M World (Bool × FileshareConnection)
  unfolding accepted
  server_accept_connection_request server conn = do
    fd ← call (os.accept server.listen_sock_fd)
    accepted server conn fd

  unfoldable pub server_close_conn_socket : FileshareConnection → M World (Unit {0})
  server_close_conn_socket conn = or_exit (os.close conn.client_sock_fd)
