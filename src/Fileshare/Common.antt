-- ===== src/Fileshare/Common.antt =====
-- 05_stream_mutliplexing/server/server-common.h, and the two servers that use it, server-simple.c and
-- server-thread-pool.c. The functions of the header on the file, on the signal handler and on closing
-- the listening socket are those of server-common-multiplexing.h, word for word, and so are not
-- repeated here.
pub mod Same
pub mod Delivered
mod Tests
use networking_howto.Prelude.{
  ℕ, zero, suc, ◌+◌, ◌^◌, Bool, true, false, not, ◌&&◌, Option, none, some, List, length,
  if◌then◌else◌, ◌==◌, ltb, u64, ◌-◌,
}
use networking_howto.Prelude.Program.{
  done, M, ◌>>=◌, ◌>>◌, pure, exit, call, or_exit, value_or_exit,
}
use networking_howto.Fileshare.Posix.{Posix, Fd, so_reuseaddr}
use networking_howto.Fileshare.Bytes.{bytes_of_u64, htobe64}
use networking_howto.Fileshare.Multiplexing.{
  FileshareServer, transfer_block_size, size_of, length_of,
}
use networking_howto.Fileshare.Multiplexing.Setup.{
  server_port, listen_backlog, program_in_shutdown, set_connection_options, server_open_src_file,
  init_shutdown_control, server_close_listen_socket, server_close_src_file,
}

-- `FILESHARE_CONNECTION`
pub record FileshareConnection : Type 0 where
  pub client_sock_fd : Fd
  pub src_file_offset : ℕ

-- How a loop over the blocks ends: the offset has reached the size, the function has returned from
-- the loop, or the rounds of the model are used up.
pub data LoopEnd : Type 0 where
  sent_all returned out_of_rounds : LoopEnd

module _ (os : Posix) where
  open os use {World}

  unfoldable pub server_send_file_size :
      FileshareServer → FileshareConnection → World → (Bool × FileshareConnection) × World
  server_send_file_size server conn w =
      let (written, w') =
        os.write conn.client_sock_fd (bytes_of_u64 (htobe64 server.src_file_size)) w in
      if not (size_of written == 8)
      then ((false, conn), w')
      else ((true, record conn { src_file_offset = 0 }), w')

  -- The `write` of what a `pread` gave; after a -1, of 2^64 - 1 bytes.
  abbrev pub write_read : Fd → Option (List ℕ) → World → Option ℕ × World
  write_read fd none w = os.write_beyond fd (2 ^ 64 - 1) w
  write_read fd (some file_block) w = os.write fd file_block w

  unfoldable pub server_send_file_block :
      FileshareServer → FileshareConnection → World → (Bool × FileshareConnection) × World
  server_send_file_block server conn w =
      let (got, w') = os.pread server.src_file_fd transfer_block_size conn.src_file_offset w in
      if length_of got == 0 && not (conn.src_file_offset == server.src_file_size)
      then ((false, conn), w')
      else (let (written, w'') = write_read conn.client_sock_fd got w' in
          if not (size_of written == length_of got) then ((false, conn), w'') else (
            (true, record conn { src_file_offset = u64 (conn.src_file_offset + size_of written) }),
            w'',
          ))

  -- A socket that blocks.
  unfoldable pub server_init_listen_socket : FileshareServer → M World FileshareServer
  server_init_listen_socket server = do
    fd ← value_or_exit (os.socket false)
    or_exit (os.setsockopt (some fd) (so_reuseaddr 1))
    or_exit (os.bind (some fd) server_port)
    or_exit (os.listen (some fd) listen_backlog)
    pure (record server { listen_sock_fd = some fd })

  -- What follows `accept`.
  unfoldable pub accepted :
      FileshareServer → FileshareConnection → Fd → M World (Bool × FileshareConnection)
  accepted server conn none w =
      if program_in_shutdown os w
      then pure (false, record conn { client_sock_fd = none }) w
      else exit w
  accepted server conn (some fd) w =
      (set_connection_options os server (some fd)
          >> pure (true, record conn { client_sock_fd = some fd }))
        w

  unfoldable pub server_accept_connection_request :
      FileshareServer → FileshareConnection → M World (Bool × FileshareConnection)
  server_accept_connection_request server conn =
      call (os.accept server.listen_sock_fd) >>= λ fd. accepted server conn fd

  unfoldable pub server_close_conn_socket : FileshareConnection → M World (Unit {0})
  server_close_conn_socket conn = or_exit (os.close conn.client_sock_fd)

  -- What follows a block that was not sent, with the loop that would go on.
  abbrev pub Failed : Type 0
  Failed =
      (FileshareConnection → M World (LoopEnd × FileshareConnection))
      → FileshareConnection
      → M World (LoopEnd × FileshareConnection)

  -- The thread closes the socket and returns.
  abbrev pub thread_failed : Failed
  thread_failed again conn = server_close_conn_socket conn >> pure (returned, conn)

  -- The simple server closes the socket and goes on with the same loop.
  abbrev pub simple_failed : Failed
  simple_failed again conn = server_close_conn_socket conn >> again conn

  -- The loop over the blocks, in `rounds` rounds at most.
  unfoldable pub send_blocks :
      (rounds : ℕ)
      → Failed
      → FileshareServer
      → FileshareConnection
      → M World (LoopEnd × FileshareConnection)
  send_blocks zero failed server conn w = done (out_of_rounds, conn) w
  send_blocks (suc rounds) failed server conn w =
      if ltb conn.src_file_offset server.src_file_size
      then (call (server_send_file_block server conn) >>= λ r.
            if r.0
            then send_blocks rounds failed server r.1
            else failed (send_blocks rounds failed server) r.1)
          w
      else done (sent_all, conn) w

  -- The socket is closed after the loop.
  abbrev pub finish : LoopEnd × FileshareConnection → M World (LoopEnd × FileshareConnection)
  finish (sent_all, conn) = server_close_conn_socket conn >> pure (sent_all, conn)
  finish (returned, conn) = pure (returned, conn)
  finish (out_of_rounds, conn) = pure (out_of_rounds, conn)

  -- One client, from the size of the file on.
  unfoldable pub serve_client :
      (rounds : ℕ)
      → Failed
      → FileshareServer
      → FileshareConnection
      → M World (LoopEnd × FileshareConnection)
  serve_client rounds failed server conn = call (server_send_file_size server conn) >>= λ r.
      if not r.0
      then (server_close_conn_socket r.1 >> pure (returned, r.1))
      else (send_blocks rounds failed server r.1 >>= finish)

  -- The `thread_func` of server-thread-pool.c.
  abbrev pub thread_func :
      (rounds : ℕ) → FileshareServer → FileshareConnection → M World (LoopEnd × FileshareConnection)
  thread_func rounds = serve_client rounds thread_failed

  -- The next client of server-simple.c, unless the rounds of the model are used up.
  abbrev pub next_client : LoopEnd → M World Bool → M World Bool
  next_client sent_all next = next
  next_client returned next = next
  next_client out_of_rounds next = pure false

  -- The loop of server-simple.c over the clients; whether it has ended.
  unfoldable pub simple_clients :
      (rounds left : ℕ) → FileshareServer → FileshareConnection → M World Bool
  simple_clients rounds zero server conn w = done true w
  simple_clients rounds (suc left) server conn w =
      if program_in_shutdown os w
      then done true w
      else (server_accept_connection_request server conn >>= λ r.
            if not r.0
            then pure true
            else (serve_client rounds simple_failed server r.1 >>= λ e.
                next_client e.0 (simple_clients rounds left server e.1)))
          w

  -- `main` of server-simple.c, past its arguments.
  unfoldable pub simple_main :
      (rounds num_clients : ℕ)
      → (filename : List ℕ) → FileshareServer
      → FileshareConnection
      → M World Bool
  simple_main rounds num_clients filename server conn =
      server_open_src_file os filename server >>= λ opened.
      init_shutdown_control os
      >> (server_init_listen_socket opened >>= λ listening.
          simple_clients rounds num_clients listening conn >>= λ ended.
          if ended
          then (server_close_listen_socket os listening
              >> (server_close_src_file os listening >> pure true))
          else pure false)
