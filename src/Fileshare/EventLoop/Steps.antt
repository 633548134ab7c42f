-- ===== src/Fileshare/EventLoop/Steps.antt =====
-- The steps of the loops that change the array of connections, and how they end: `E` is what a failed
-- call of the system means.
use networking_howto.Prelude.{
  ℕ, ◌+◌, ◌<◌, ◌≡◌, ◌^◌, Bool, true, false, none, some, update, update_ne, update_self, arith, refl,
  sym, ap, ◌∙◌, subst, u64, if◌then◌else◌,
}
use networking_howto.Prelude.Program.{exit_failure, ◌>>◌, pure, or_exit}
use networking_howto.Prelude.Ends.{Ends, bind-Ends, weaken-Ends, or_exit-Ends}
use networking_howto.Fileshare.EventLoop.Frame.{Frame, From, bind-From}
use networking_howto.Fileshare.EventLoop.Turns.{Accepted, Written}
use networking_howto.Fileshare.Posix.{Posix, Fd, SockOpt, so_linger, tcp_nodelay, tcp_cork}
use networking_howto.Fileshare.Multiplexing.{
  FileshareServer, FileshareConnection, send_file_size, set_state,
}
use networking_howto.Fileshare.Multiplexing.Setup.{
  accepted, set_connection_options, server_accept_connection_request, server_close_conn_socket,
  program_in_shutdown,
}
use networking_howto.Fileshare.Multiplexing.Transfer.{is_active}
use networking_howto.Fileshare.EventLoop.{Clients, accept_client, write_conn, after_switch}
use networking_howto.Fileshare.EventLoop.Table.{Kept, accept-Kept}
use networking_howto.Fileshare.EventLoop.Switch.{GoesOn, send_next-Served}

-- What it means that a call of the system fails.
pub record Failures (os : Posix) (E : Type 0) : Type 0 where
  pub close_fails : (fd : Fd) (w : os.World) → (os.close fd w).0 ≡ false → E
  pub setsockopt_fails :
      (fd : Fd) (opt : SockOpt) (w : os.World) → (os.setsockopt fd opt w).0 ≡ false → E
  pub accept_fails : (fd : Fd) (w : os.World) → (os.accept fd w).0 ≡ none → E

module _ (os : Posix) (E : Type 0) (failures : Failures os E) (frame : Frame os) where
  setsockopt-Ends :
      (fd : Fd) (opt : SockOpt) (w : os.World)
      → Ends E (From os frame w) (or_exit (os.setsockopt fd opt) w)
  setsockopt-Ends fd opt w =
      weaken-Ends E _ (From os frame w) (or_exit (os.setsockopt fd opt) w)
        (or_exit-Ends E (os.setsockopt fd opt) w (failures.setsockopt_fails fd opt w))
        (λ a v r. subst (frame.Before w) (sym r.1) (frame.setsockopt fd opt w))

  options-Ends :
      (server : FileshareServer) (fd : Fd) (w : os.World)
      → Ends E (From os frame w) (set_connection_options os server fd w)
  unfolding set_connection_options
  options-Ends server fd w =
      let linger = or_exit (os.setsockopt server.listen_sock_fd (so_linger 1 1)) in
      let no_delay = or_exit (os.setsockopt fd (tcp_nodelay 1)) in
      let no_cork = or_exit (os.setsockopt fd (tcp_cork 0)) in
      bind-From os frame E linger (λ a. no_delay >> no_cork) w
        (setsockopt-Ends server.listen_sock_fd (so_linger 1 1) w)
        (λ a v.
          bind-From os frame E no_delay (λ a'. no_cork) v (setsockopt-Ends fd (tcp_nodelay 1) v)
            (λ a' v'. setsockopt-Ends fd (tcp_cork 0) v'))

  accepted-Ends :
      (server : FileshareServer) (conn : FileshareConnection) (fd : Fd) (w : os.World)
      → (fd ≡ none → E)
      → Ends E (From os frame w) (accepted os server conn fd w)
  unfolding accepted
  accepted-Ends server conn none w fails = shutdown (program_in_shutdown os w)
    where
      shutdown :
          (b : Bool)
          → Ends {A = Bool × FileshareConnection} E
              (From os frame w)
              (if b then pure (false, record conn { client_sock_fd = none }) w else exit_failure w)
      shutdown true = frame.same w
      shutdown false = fails refl
  accepted-Ends server conn (some fd) w fails =
      bind-From os frame E (set_connection_options os server (some fd))
        (λ a. pure (true, record conn { client_sock_fd = some fd })) w
        (options-Ends server (some fd) w) (λ a v. frame.same v)

  accept-Ends :
      (server : FileshareServer) (conn : FileshareConnection) (w : os.World)
      → Ends E (From os frame w) (server_accept_connection_request os server conn w)
  unfolding server_accept_connection_request
  accept-Ends server conn w =
      let r = os.accept server.listen_sock_fd w in
      weaken-Ends E (From os frame r.1) (From os frame w) (accepted os server conn r.0 r.1)
        (accepted-Ends server conn r.0 r.1 (failures.accept_fails server.listen_sock_fd w))
        (λ a v p. frame.after w r.1 v (frame.accept server.listen_sock_fd w) p)

  pub close-Ends :
      (conn : FileshareConnection) (w : os.World)
      → Ends E (From os frame w) (server_close_conn_socket os conn w)
  unfolding server_close_conn_socket
  close-Ends conn w =
      weaken-Ends E _ (From os frame w) (or_exit (os.close conn.client_sock_fd) w)
        (or_exit-Ends E (os.close conn.client_sock_fd) w
          (failures.close_fails conn.client_sock_fd w))
        (λ a v r. subst (frame.Before w) (sym r.1) (frame.close conn.client_sock_fd w))

  module _ {max_conns : ℕ} (small : max_conns < 2 ^ 64) (server : FileshareServer) where
    pub accept_client-Ends :
        (c : Clients) (w : os.World)
        → Kept max_conns c
        → c.num_connected < max_conns
        → Ends E (λ c' v. Accepted max_conns c c' × frame.Before w v) (accept_client os server c w)
    unfolding accept_client
    accept_client-Ends c w kept l =
        bind-Ends E (From os frame w) (λ c' v. Accepted max_conns c c' × frame.Before w v)
          (server_accept_connection_request os server (c.conns c.num_connected))
          (λ r. pure (record {
            conns = update c.conns c.num_connected (set_state r.1 send_file_size);
            num_active = u64 (c.num_active + 1);
            num_connected = u64 (c.num_connected + 1);
          }))
          w (accept-Ends server (c.conns c.num_connected) w)
          (λ r v p. (
            record {
              kept = accept-Kept small c (set_state r.1 send_file_size) kept l refl;
              one_more = omega (arith, l, small);
              active =
                  ap (λ (d : FileshareConnection). is_active d.state)
                    (update_self c.conns c.num_connected (set_state r.1 send_file_size));
              others =
                  λ j ne. update_ne c.conns c.num_connected (set_state r.1 send_file_size) j ne;
            },
            p,
          ))

  pub write_conn-Ends :
      (server : FileshareServer) (c : Clients) (i : ℕ) (w : os.World)
      → is_active (c.conns i).state ≡ true
      → Ends E (λ r v. Written c i r.0 r.1 × frame.Before w v) (write_conn os server c i w)
  unfolding write_conn
  write_conn-Ends server c i w active =
      let s = send_next-Served os frame server (c.conns i) w active in
      let conn = s.result.0.1 in
      let set : ℕ → FileshareConnection = update c.conns i conn in
      let here : set i ≡ conn = update_self c.conns i conn in
      subst (λ r. Ends E (λ r v. Written c i r.0 r.1 × frame.Before w v) (after_switch os c i r w))
        (sym s.served)
        (
          record {
            changed = record {
              same_clients = refl;
              others = λ j ne. update_ne c.conns i conn j ne;
            };
            same_active = refl;
            goes_on =
                subst (λ (d : FileshareConnection). GoesOn s.result.0.0 d.state) (sym here)
                  s.switched.goes_on;
            same_fd = ap (λ (d : FileshareConnection). d.client_sock_fd) here ∙ s.switched.same_fd;
          },
          s.switched.framed,
        )
