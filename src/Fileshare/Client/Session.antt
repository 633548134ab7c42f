-- ===== src/Fileshare/Client/Session.antt =====
-- 05_stream_mutliplexing/client/client.c: connecting to the server, and `main`.
mod Descriptors
mod Tests
use networking_howto.Prelude.{
  ℕ, zero, suc, Bool, true, false, not, Option, none, some, List, if◌then◌else◌, ◌==◌,
}
use networking_howto.Prelude.Program.{
  M, done, exit_failure, ◌>>=◌, ◌>>◌, pure, exit, call, or_exit, value_or_exit,
}
use networking_howto.Fileshare.Posix.{Posix, Fd}
use networking_howto.Fileshare.Client.{
  FileshareClient, client_close_socket, client_open_dst_file, client_close_dst_file,
  client_recv_file_size, recv_file,
}

-- What the client calls besides. `getaddrinfo` gives `none` on an error, else whether there is more
-- than one address; the address itself is left out.
pub record Network (os : Posix) : Type 0 where
  pub getaddrinfo : os.World → Option Bool × os.World
  pub connect : Fd → os.World → Bool × os.World
  pub sleep : (seconds : ℕ) → os.World → os.World

-- Linux's ECONNREFUSED.
abbrev pub econnrefused : ℕ
econnrefused = 111

-- How a connection has ended: with the file, before its size was known, while the file was received,
-- or not within the rounds of the loop over the blocks.
pub data SessionEnd : Type 0 where
  received : FileshareClient → SessionEnd
  size_failed : FileshareClient → SessionEnd
  file_failed : FileshareClient → SessionEnd
  out_of_rounds : SessionEnd

module _ (os : Posix) where
  open os use {World}

  -- Behind the loop over the blocks.
  unfoldable pub after_file : Option (Bool × FileshareClient) → M World SessionEnd
  unfolding client_close_socket client_close_dst_file
  after_file none = pure out_of_rounds
  after_file (some (true, client)) = do
    client_close_socket os client
    client_close_dst_file os client
    pure (received client)
  after_file (some (false, client)) = client_close_socket os client >> pure (file_failed client)

  -- Behind the receipt of the size.
  unfoldable pub after_size :
      (rounds : ℕ) (dst_filename : List ℕ) → Bool × FileshareClient → M World SessionEnd
  unfolding client_close_socket client_open_dst_file recv_file after_file
  after_size rounds dst_filename (false, client) =
      client_close_socket os client >> pure (size_failed client)
  after_size rounds dst_filename (true, client) =
      client_open_dst_file os client dst_filename >>= recv_file os rounds >>= after_file

  -- `main` from the connection to the next jump to `start_connection`, or to the end.
  unfoldable pub session :
      (rounds : ℕ) (dst_filename : List ℕ) → FileshareClient → M World SessionEnd
  unfolding client_recv_file_size after_size
  session rounds dst_filename client =
      call (client_recv_file_size os client) >>= after_size rounds dst_filename

module _ (os : Posix) (net : Network os) where
  open os use {World, socket, errno, close}
  open net use {getaddrinfo, connect, sleep}

  abbrev pub only_address : Bool → M World (Unit {0})
  only_address true = exit
  only_address false = pure tt

  -- `if (connect(...) == -1)`; the result of `close` is not looked at.
  unfoldable pub after_connect : FileshareClient → Bool → M World (Bool × FileshareClient)
  after_connect client true w = done (true, client) w
  after_connect client false w =
      if errno w == econnrefused
      then done (false, client) (close client.server_conn_fd w).1
      else exit_failure w

  unfoldable pub client_connect_to_server : FileshareClient → M World (Bool × FileshareClient)
  unfolding after_connect
  client_connect_to_server client = do
    fd ← value_or_exit (socket false)
    ambiguous ← value_or_exit getaddrinfo
    only_address ambiguous
    connected ← call (connect (some fd))
    after_connect (record client { server_conn_fd = some fd }) connected

  abbrev pub start_again :
      (FileshareClient → M World (Option FileshareClient))
      → SessionEnd
      → M World (Option FileshareClient)
  start_again start (received client) = pure (some client)
  start_again start (size_failed client) = start client
  start_again start (file_failed client) = start client
  start_again start out_of_rounds = pure none

  -- `main`, past the test of `argc`, with a number of attempts to connect: `none` if they, or the
  -- rounds of a loop over the blocks, are used up.
  unfoldable pub client_main :
      (attempts rounds : ℕ) (dst_filename : List ℕ)
      → FileshareClient
      → M World (Option FileshareClient)
  unfolding client_connect_to_server session
  client_main zero rounds dst_filename client = pure none
  client_main (suc attempts) rounds dst_filename client = do
    (connected, client') ← client_connect_to_server client
    if connected
        then (session os rounds dst_filename client'
            >>= start_again (client_main attempts rounds dst_filename))
        else ((λ w. done tt (sleep 1 w)) >> client_main attempts rounds dst_filename client')
