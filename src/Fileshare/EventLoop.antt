-- ===== src/Fileshare/EventLoop.antt =====
-- 05_stream_mutliplexing/server/server-poll.c and server-epoll.c: what the two loops do with the
-- array of connections and its counters.
pub mod Frame
pub mod Table
pub mod Switch
pub mod Turns
pub mod Steps
pub mod Stop
use networking_howto.Prelude.{
  ℕ, ◌+◌, Bool, true, false, not, ◌&&◌, Option, none, some, ◌==◌, u64, sub64, update,
}
use networking_howto.Prelude.Program.{Outcome, done, exit_failure, M, ◌>>=◌, ◌>>◌, pure}
use networking_howto.Fileshare.Posix.{Posix}
use networking_howto.Fileshare.Multiplexing.{
  FileshareServer, FileshareConnection, connection_empty, send_file_size, set_state, send_next,
}
use networking_howto.Fileshare.Multiplexing.Setup.{
  server_accept_connection_request, program_in_shutdown,
}

-- `conns`, `num_active_clients` and `num_connected_clients`.
pub record Clients : Type 0 where
  pub conns : ℕ → FileshareConnection
  pub num_active : ℕ
  pub num_connected : ℕ

-- The clients when the loop begins: the array comes from `calloc`, and all states are set.
abbrev pub no_clients : Clients
no_clients = record {
  conns = λ i. record { client_sock_fd = some 0; src_file_offset = 0; state = connection_empty };
  num_active = 0;
  num_connected = 0;
}

-- `conns[conn_i]` changed.
abbrev pub set_conn : Clients → ℕ → FileshareConnection → Clients
set_conn c conn_i conn = record c { conns = update c.conns conn_i conn }

-- `num_active_clients -= 1`
abbrev pub one_less : Clients → Clients
one_less c = record c { num_active = sub64 c.num_active 1 }

module _ (os : Posix) where
  open os use {World}

  -- `accept_new_connections`
  abbrev pub accepts_new : (max_conns : ℕ) → Clients → World → Bool
  accepts_new max_conns c w = not (c.num_connected == max_conns) && not (program_in_shutdown os w)

  -- A request of a new client; the result of the call is not looked at.
  unfoldable pub accept_client : FileshareServer → Clients → M World Clients
  accept_client server c =
      server_accept_connection_request os server (c.conns c.num_connected) >>= λ r. pure (record {
        conns = update c.conns c.num_connected (set_state r.1 send_file_size);
        num_active = u64 (c.num_active + 1);
        num_connected = u64 (c.num_connected + 1);
      })

  -- The switch on a connection that can be written to, and the success of its function.
  abbrev pub after_switch :
      Clients
      → (conn_i : ℕ) → Option ((Bool × FileshareConnection) × World)
      → World
      → Outcome World (Bool × Clients)
  after_switch c conn_i none w = exit_failure w
  after_switch c conn_i (some ((success, conn), w')) w = done (success, set_conn c conn_i conn) w'

  unfoldable pub write_conn : FileshareServer → Clients → (conn_i : ℕ) → M World (Bool × Clients)
  write_conn server c conn_i w = after_switch c conn_i (send_next os server (c.conns conn_i) w) w
