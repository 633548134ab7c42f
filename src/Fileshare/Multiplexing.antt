-- ===== src/Fileshare/Multiplexing.antt =====
-- 05_stream_mutliplexing/server/server-common-multiplexing.h: the state of the server and of a
-- connection, and every function of the header. A function that updates `*conn` or `*server`
-- returns the new record beside its result.
pub mod Setup
pub mod Message
pub mod Transfer
pub mod Header
pub mod History
pub mod Delivery
use networking_howto.Prelude.{
  ℕ, ◌-◌, ◌^◌, Bool, true, false, not, ◌&&◌, ◌||◌, Option, none, some, List, [], length,
  if◌then◌else◌, ◌==◌, u64, ◌+◌,
}
use networking_howto.Fileshare.Posix.{Posix, Fd, eagain}
use networking_howto.Fileshare.Bytes.{bytes_of_u64, htobe64}

-- `FILESHARE_SERVER`
pub record FileshareServer : Type 0 where
  pub src_file_fd : Fd
  pub src_file_size : ℕ
  pub listen_sock_fd : Fd

abbrev pub transfer_block_size : ℕ
transfer_block_size = 1024

-- `TRANSFER_STATE`
pub data TransferState : Type 0 where
  connection_empty send_file_size send_data_block transfer_finished : TransferState

-- `FILESHARE_CONNECTION`
pub record FileshareConnection : Type 0 where
  pub client_sock_fd : Fd
  pub src_file_offset : ℕ
  pub state : TransferState

-- A `ssize_t` result that was assigned to a `size_t`: -1 is the largest value.
abbrev pub size_of : Option ℕ → ℕ
size_of none = 2 ^ 64 - 1
size_of (some n) = n

abbrev pub bytes_of : Option (List ℕ) → List ℕ
bytes_of none = []
bytes_of (some bs) = bs

abbrev pub length_of : Option (List ℕ) → ℕ
length_of none = 2 ^ 64 - 1
length_of (some bs) = length bs

-- `conn->state = state`
abbrev pub set_state : FileshareConnection → TransferState → FileshareConnection
set_state conn st = record conn { state = st }

module _ (os : Posix) where
  open os use {World, errno, write, pread}

  unfoldable pub server_send_file_size :
      FileshareServer → FileshareConnection → World → (Bool × FileshareConnection) × World
  server_send_file_size server conn w =
      let file_size = htobe64 server.src_file_size in
      let (written, w') = write conn.client_sock_fd (bytes_of_u64 file_size) w in
      if not (size_of written == 8)
      then (if errno w' == eagain
          then ((true, conn), w')
          else ((false, set_state conn transfer_finished), w'))
      else ((true, record conn { src_file_offset = 0; state = send_data_block }), w')

  -- What follows the `pread` that gave `bytes_read` bytes.
  unfoldable pub send_block :
      FileshareServer → FileshareConnection → List ℕ → World → (Bool × FileshareConnection) × World
  send_block server conn file_block w =
      let bytes_read = length file_block in
      let (written, w') = write conn.client_sock_fd file_block w in
      let bytes_written = size_of written in
      if bytes_written == 2 ^ 64 - 1 || not (bytes_written == bytes_read)
      then ((false, set_state conn transfer_finished), w')
      else (let offset = u64 (conn.src_file_offset + bytes_written) in
          let conn' : FileshareConnection = record conn { src_file_offset = offset } in
          if offset == server.src_file_size
          then ((false, set_state conn' transfer_finished), w')
          else ((true, conn'), w'))

  unfoldable pub server_send_file_block :
      FileshareServer → FileshareConnection → World → (Bool × FileshareConnection) × World
  unfolding send_block
  server_send_file_block server conn w =
      let (got, w') = pread server.src_file_fd transfer_block_size conn.src_file_offset w in
      let bytes_read = length_of got in
      if bytes_read == 2 ^ 64 - 1
        || (bytes_read == 0 && not (conn.src_file_offset == server.src_file_size))
      then ((false, set_state conn transfer_finished), w')
      else send_block server conn (bytes_of got) w'

  -- The switch of both multiplexing servers on a connection that can be written to. `none` is the
  -- exit for a connection that was never accepted.
  unfoldable pub send_at :
      TransferState
      → FileshareServer
      → FileshareConnection
      → World
      → Option ((Bool × FileshareConnection) × World)
  send_at connection_empty server conn w = none
  send_at send_file_size server conn w = some (server_send_file_size server conn w)
  send_at send_data_block server conn w = some (server_send_file_block server conn w)
  send_at transfer_finished server conn w = some ((false, conn), w)

  abbrev pub send_next :
      FileshareServer → FileshareConnection → World → Option ((Bool × FileshareConnection) × World)
  send_next server conn w = send_at conn.state server conn w
