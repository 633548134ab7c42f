-- ===== src/Fileshare/Epoll/Connection.antt =====
-- An event of a connection of server-epoll.c keeps the array and the interest list.
use networking_howto.Prelude.{
  ℕ, ◌<◌, ◌≡◌, ◌^◌, Bool, true, false, none, arith, refl, sym, ap, ◌∙◌, subst, if◌then◌else◌,
  update_ne, update_self, sub64,
}
use networking_howto.Prelude.Program.{◌>>=◌, ◌>>◌, pure, or_exit}
use networking_howto.Prelude.Ends.{Ends, bind-Ends, weaken-Ends, or_exit-Ends}
use networking_howto.Fileshare.Posix.{Posix, Fd, Events, EpollEvent}
use networking_howto.Fileshare.Multiplexing.{
  FileshareServer, FileshareConnection, transfer_finished, set_state,
}
use networking_howto.Fileshare.Multiplexing.Setup.{server_close_conn_socket}
use networking_howto.Fileshare.Multiplexing.Transfer.{is_active}
use networking_howto.Fileshare.EventLoop.{Clients, write_conn, one_less, set_conn}
use networking_howto.Fileshare.EventLoop.Table.{Kept, ChangedAt}
use networking_howto.Fileshare.EventLoop.Turns.{Turned, drop-Turned, Written, success-Turned}
use networking_howto.Fileshare.EventLoop.Steps.{Failures, write_conn-Ends, close-Ends}
use networking_howto.Fileshare.Epoll.{
  epoll_conn_stop_waiting_on_socket, end_conn, end_unless_success, serve_conn_event,
}
use networking_howto.Fileshare.Epoll.Interest.{
  NothingNew, without, EpollWorks, interest_frame, Watches, others-Entry, goes_on-Entry,
}

-- What it means that a call on the instance `epollfd` fails.
pub record EpollFailures (os : Posix) (epollfd : Fd) (E : Type 0) : Type 0 where
  pub add_fails :
      (fd : Fd) (ev : EpollEvent) (w : os.World) → (os.epoll_ctl_add epollfd fd ev w).0 ≡ false → E
  pub del_fails : (fd : Fd) (w : os.World) → (os.epoll_ctl_del epollfd fd w).0 ≡ false → E
  pub wait_fails :
      (max_events : ℕ) (w : os.World) → (os.epoll_wait epollfd max_events w).0 ≡ none → E

module _ (os : Posix) (epollfd : Fd) (E : Type 0) (failures : Failures os E)
    (epoll_failures : EpollFailures os epollfd E) (works : EpollWorks os epollfd) {max_conns : ℕ}
    (small : max_conns < 2 ^ 32) (server : FileshareServer) where
  small64 : max_conns < 2 ^ 64
  small64 = omega (arith, small)

  abbrev Before : os.World → os.World → Type 0
  Before u v = NothingNew (works.watching u) (works.watching v)

  -- An event of connection `i` has been dealt with; `L` holds while the listening socket is watched.
  pub record EventServed (L : Type 0) (c : Clients) (i : ℕ) (c' : Clients) (v : os.World)
      : Type 0 where
    pub turned : Turned max_conns c i c'
    pub watched : Watches server L c' (works.watching v)

  stop_waiting-Ends :
      (conn : FileshareConnection) (w : os.World)
      → Ends E
          (λ a v. NothingNew (without (works.watching w) conn.client_sock_fd) (works.watching v))
          (epoll_conn_stop_waiting_on_socket os epollfd conn w)
  unfolding epoll_conn_stop_waiting_on_socket
  stop_waiting-Ends conn w =
      let fd = conn.client_sock_fd in
      weaken-Ends E _ (λ a v. NothingNew (without (works.watching w) fd) (works.watching v))
        (or_exit (os.epoll_ctl_del epollfd fd) w)
        (or_exit-Ends E (os.epoll_ctl_del epollfd fd) w (epoll_failures.del_fails fd w))
        (λ a v r.
          subst (λ v'. NothingNew (without (works.watching w) fd) (works.watching v')) (sym r.1)
            (works.deleted fd w r.0))

  -- Connection `i` is ended, after a step from `c` to `c1` that left it to be ended.
  end_conn-Ends :
      {L : Type 0} (c c1 : Clients) (i : ℕ) (w : os.World)
      → Kept max_conns c
      → i < c.num_connected
      → is_active (c.conns i).state ≡ true
      → ChangedAt i c c1
      → c1.num_active ≡ c.num_active
      → (c1.conns i).client_sock_fd ≡ (c.conns i).client_sock_fd
      → Watches server L c (works.watching w)
      → Ends E (EventServed L c i) (end_conn os epollfd i c1 w)
  unfolding end_conn
  end_conn-Ends {L} c c1 i w kept l active changed same_active same_fd watched =
      let ended = set_state (c1.conns i) transfer_finished in
      let c2 = one_less (set_conn c1 i ended) in
      let changed2 : ChangedAt i c c2 = record {
        same_clients = changed.same_clients;
        others = λ j ne. update_ne c1.conns i ended j ne ∙ changed.others j ne;
      } in
      bind-Ends E
        (λ a v.
          NothingNew (without (works.watching w) (c1.conns i).client_sock_fd) (works.watching v))
        (EventServed L c i) (epoll_conn_stop_waiting_on_socket os epollfd (c1.conns i))
        (λ a. server_close_conn_socket os (c1.conns i) >> pure c2) w
        (stop_waiting-Ends (c1.conns i) w)
        (λ a v del.
          bind-Ends E (λ b v'. Before v v') (EventServed L c i)
            (server_close_conn_socket os (c1.conns i)) (λ b. pure c2) v
            (close-Ends os E failures (interest_frame works) (c1.conns i) v)
            (λ b v' closed. record {
              turned =
                  drop-Turned small64 c c2 i kept changed2 l (ap (λ n. sub64 n 1) same_active)
                    active
                    (ap (λ (d : FileshareConnection). d.state) (update_self c1.conns i ended));
              watched = λ fd number e.
                  let left = del fd number (closed fd number e) in
                  others-Entry server c c2 i fd number changed2
                    (λ here. left.0 (here ∙ sym same_fd)) (watched fd number left.1);
            }))

  after_switch-Ends :
      {L : Type 0} (c : Clients) (i : ℕ) (r : Bool × Clients) (w : os.World)
      → Kept max_conns c
      → i < c.num_connected
      → is_active (c.conns i).state ≡ true
      → Watches server L c (works.watching w)
      → Written c i r.0 r.1
      → Ends E (EventServed L c i) (end_unless_success os epollfd i r w)
  unfolding end_unless_success
  after_switch-Ends c i (true, c') w kept l active watched written = record {
    turned = success-Turned small64 c c' i kept l active written;
    watched = λ fd number e.
        goes_on-Entry server c c' i fd number written.changed written.goes_on written.same_fd
          (watched fd number e);
  }
  after_switch-Ends c i (false, c') w kept l active watched written =
      end_conn-Ends c c' i w kept l active written.changed written.same_active written.same_fd
        watched

  pub serve_conn_event-Ends :
      {L : Type 0} (c : Clients) (i : ℕ) (events : Events) (w : os.World)
      → Kept max_conns c
      → i < c.num_connected
      → is_active (c.conns i).state ≡ true
      → Watches server L c (works.watching w)
      → Ends E (EventServed L c i) (serve_conn_event os epollfd server i events c w)
  unfolding serve_conn_event
  serve_conn_event-Ends {L} c i events w kept l active watched =
      by_bits events.pollhup events.pollout
    where
      unchanged : ChangedAt i c c
      unchanged = record { same_clients = refl; others = λ j ne. refl }

      by_bits :
          (hup out : Bool)
          → Ends E (EventServed L c i) (
              (if hup
                  then end_conn os epollfd i c
                  else if out
                  then (write_conn os server c i >>= end_unless_success os epollfd i)
                  else pure c)
                w)
      by_bits true out = end_conn-Ends c c i w kept l active unchanged refl refl watched
      by_bits false true =
          bind-Ends E (λ r v. Written c i r.0 r.1 × Before w v) (EventServed L c i)
            (write_conn os server c i) (end_unless_success os epollfd i) w
            (write_conn-Ends os E failures (interest_frame works) server c i w active)
            (λ r v p.
              after_switch-Ends c i r v kept l active
                (λ fd number e. watched fd number (p.1 fd number e)) p.0)
      by_bits false false = record {
        turned = record { kept = kept; changed = unchanged; same_fd = λ active'. refl };
        watched = watched;
      }
