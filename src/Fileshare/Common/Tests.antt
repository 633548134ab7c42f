-- ===== src/Fileshare/Common/Tests.antt =====
-- The functions of server-common.h in the small operating system with one socket and one file.
use networking_howto.Prelude.{
  ℕ, ◌≡◌, Option, none, some, List, [], ◌∷◌, ◌++◌, take, drop, arith, refl,
}
use networking_howto.Prelude.Program.{Outcome, done, exit_failure}
use networking_howto.Prelude.Ends.{Ends}
use networking_howto.Fileshare.Bytes.{bytes_of_u64, htobe64}
use networking_howto.Fileshare.Multiplexing as Multiplexing
use networking_howto.Fileshare.Multiplexing.Message.{header}
use networking_howto.Fileshare.Multiplexing.Setup.{
  set_connection_options, server_open_src_file, init_shutdown_control, server_close_listen_socket,
  server_close_src_file,
}
use networking_howto.Fileshare.Tests.{file_bytes, small_os, small_os-Laws, server}
use networking_howto.Fileshare.Common.{
  FileshareConnection, sent_all, thread_failed, server_send_file_size, server_send_file_block,
  server_close_conn_socket, server_accept_connection_request, accepted, server_init_listen_socket,
  send_blocks, serve_client, simple_clients, simple_main,
}
use networking_howto.Fileshare.Common.Same.{Agree, in_transfer, send_file_block_agrees}
use networking_howto.Fileshare.Common.Delivered.{NoErrors, client_is_served}

abbrev connected : FileshareConnection
connected = record { client_sock_fd = some 5; src_file_offset = 7 }

small_os-NoErrors : NoErrors small_os small_os-Laws
small_os-NoErrors = record {
  write_all = λ fd buf w. refl;
  pread_works = λ fd count offset w. (take count (drop offset file_bytes), refl);
  close_works = λ fd w. refl;
  close_keeps = λ fd other w. refl;
}

client_is_served_example :
    Ends ⊥
      (λ e v. (e.0 ≡ sent_all) × (v ≡ [] ++ (header server ++ file_bytes)))
      (serve_client small_os 4 (thread_failed small_os) server connected [])
client_is_served_example =
    client_is_served small_os small_os-Laws small_os-NoErrors (thread_failed small_os) 4 server
      connected [] refl (omega arith) (omega arith)

abbrev at_start : FileshareConnection
at_start = record { client_sock_fd = some 5; src_file_offset = 0 }

send_file_block_agrees_example :
    Agree server
      (server_send_file_block small_os server at_start [])
      (Multiplexing.server_send_file_block small_os server (in_transfer at_start) [])
send_file_block_agrees_example =
    send_file_block_agrees small_os server at_start [] file_bytes refl (omega arith)

abbrev sent_by : {A : Type 0} → Outcome (List ℕ) A → Option (List ℕ)
sent_by (done a w) = some w
sent_by (exit_failure w) = none

-- Two clients, one after the other.
simple_server_runs :
    sent_by (simple_main small_os 2 2 [] server connected [])
    ≡ some (
        0 ∷ 0 ∷ 0 ∷ 0 ∷ 0 ∷ 0 ∷ 0 ∷ 3 ∷ 104 ∷ 105 ∷ 10 ∷ 0 ∷ 0 ∷ 0 ∷ 0 ∷ 0 ∷ 0 ∷ 0 ∷ 3 ∷ 104 ∷ 105
        ∷ 10 ∷ [])
unfolding simple_main simple_clients serve_client send_blocks server_send_file_size
    server_send_file_block server_close_conn_socket server_accept_connection_request accepted
    server_init_listen_socket set_connection_options server_open_src_file init_shutdown_control
    server_close_listen_socket server_close_src_file bytes_of_u64 htobe64
simple_server_runs = refl
