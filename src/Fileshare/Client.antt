-- ===== src/Fileshare/Client.antt =====
-- 05_stream_mutliplexing/client/client.c: what the client does once it is connected.
pub mod Quiet
pub mod Receive
pub mod Delivered
pub mod Session
mod Tests
use networking_howto.Prelude.{
  ℕ, zero, suc, ◌+◌, ◌^◌, Bool, true, false, not, ◌&&◌, Option, none, some, List, if◌then◌else◌,
  ◌==◌, u64,
}
use networking_howto.Prelude.Program.{
  Outcome, M, done, exit_failure, ◌>>=◌, ◌>>◌, pure, or_exit, value_or_exit,
}
use networking_howto.Fileshare.Posix.{Posix, Fd}
use networking_howto.Fileshare.Bytes.{le_value, htobe64}
use networking_howto.Fileshare.Multiplexing.{size_of, bytes_of, length_of}

-- `FILESHARE_CLIENT`, without the address of the server.
pub record FileshareClient : Type 0 where
  pub server_conn_fd : Fd
  pub dst_file_fd : Fd
  pub dst_file_size : ℕ
  pub dst_file_offset : ℕ

abbrev pub block_size : ℕ
block_size = 1024

module _ (os : Posix) where
  open os use {World, recv, pwrite}

  unfoldable pub client_close_socket : FileshareClient → M World (Unit {0})
  client_close_socket client = or_exit (os.close client.server_conn_fd)

  unfoldable pub client_open_dst_file : FileshareClient → List ℕ → M World FileshareClient
  client_open_dst_file client filename = do
    fd ← value_or_exit (os.open_trunc filename)
    or_exit (os.fallocate (some fd) client.dst_file_size)
    pure (record client { dst_file_fd = some fd })

  unfoldable pub client_close_dst_file : FileshareClient → M World (Unit {0})
  client_close_dst_file client = do
    or_exit (os.ftruncate client.dst_file_fd client.dst_file_size)
    or_exit (os.fsync client.dst_file_fd)
    or_exit (os.close client.dst_file_fd)

  unfoldable pub client_recv_file_size : FileshareClient → World → (Bool × FileshareClient) × World
  client_recv_file_size client w =
      let (got, w') = recv client.server_conn_fd 8 true w in
      if not (length_of got == 8) then ((false, client), w') else (
        (
          true,
          record client { dst_file_size = htobe64 (le_value (bytes_of got)); dst_file_offset = 0 },
        ),
        w',
      )

  -- What follows the `recv` that returned `got`. `none` is its result -1, which then also is the
  -- number of bytes to write.
  unfoldable pub write_block : FileshareClient → Option (List ℕ) → M World (Bool × FileshareClient)
  write_block client got w =
      let (written, w') = pwrite client.dst_file_fd got client.dst_file_offset w in
      let bytes_written = size_of written in
      if not (bytes_written == length_of got)
      then exit_failure w'
      else done
          (true, record client { dst_file_offset = u64 (client.dst_file_offset + bytes_written) })
          w'

  unfoldable pub client_recv_file_block : FileshareClient → M World (Bool × FileshareClient)
  client_recv_file_block client w =
      let (got, w') = recv client.server_conn_fd block_size false w in
      if length_of got == 0 && not (client.dst_file_offset == client.dst_file_size)
      then done (false, client) w'
      else write_block client got w'

  -- `if (!success)`, after a block: the client gives this connection up, or goes on.
  abbrev pub continue_with :
      Outcome World (Bool × FileshareClient)
      → (FileshareClient → M World (Option (Bool × FileshareClient)))
      → Outcome World (Option (Bool × FileshareClient))
  continue_with (done (true, client) w) go_on = go_on client w
  continue_with (done (false, client) w) go_on = done (some (false, client)) w
  continue_with (exit_failure w) go_on = exit_failure w

  -- The loop of `main` over the blocks, in `rounds` rounds at most: `none` if they are used up, else
  -- the client and whether it has the whole file.
  unfoldable pub recv_file :
      (rounds : ℕ) → FileshareClient → M World (Option (Bool × FileshareClient))
  recv_file zero client w = done none w
  recv_file (suc rounds) client w =
      if client.dst_file_offset == client.dst_file_size
      then done (some (true, client)) w
      else continue_with (client_recv_file_block client w) (recv_file rounds)
