-- ===== src/Fileshare/Epoll/Serve.antt =====
-- The loop of server-epoll.c over the events keeps the array and the interest list.
use networking_howto.Prelude.{
  ℕ, ◌+◌, ◌-◌, ◌<◌, ◌≡◌, ◌⊎◌, ◌^◌, true, false, List, [], ◌∷◌, arith, sym, ◌∙◌, subst, ◌==◌, ==_iff,
  Bool-cases, inl, inr, u32,
}
use networking_howto.Prelude.Program.{◌>>◌, pure, or_exit}
use networking_howto.Prelude.Ends.{Ends, bind-Ends, weaken-Ends, or_exit-Ends}
use networking_howto.Fileshare.Posix.{Posix, Fd, EpollEvent}
use networking_howto.Fileshare.Multiplexing.{FileshareServer, FileshareConnection}
use networking_howto.Fileshare.EventLoop.{Clients, accept_client}
use networking_howto.Fileshare.EventLoop.Table.{Kept}
use networking_howto.Fileshare.EventLoop.Turns.{Accepted}
use networking_howto.Fileshare.EventLoop.Steps.{Failures, accept_client-Ends}
use networking_howto.Fileshare.Epoll.{
  pollout_event, epoll_conn_wait_on_socket, epoll_new_client, serve_conn_event, serve_event,
  serve_events,
}
use networking_howto.Fileshare.Epoll.Interest.{
  View, NothingNew, without, Reports, EpollWorks, interest_frame, Entry, listens, sends, Watches,
  others-Entry, accepted-Entry,
}
use networking_howto.Fileshare.Epoll.Connection.{EpollFailures, EventServed, serve_conn_event-Ends}

module _ (os : Posix) (epollfd : Fd) (E : Type 0) (failures : Failures os E)
    (epoll_failures : EpollFailures os epollfd E) (works : EpollWorks os epollfd) {max_conns : ℕ}
    (small : max_conns < 2 ^ 32) (server : FileshareServer) where
  small64 : max_conns < 2 ^ 64
  small64 = omega (arith, small)

  abbrev Before : os.World → os.World → Type 0
  Before u v = NothingNew (works.watching u) (works.watching v)

  wait_on_socket-Ends :
      (conn_i : ℕ) (conn : FileshareConnection) (w : os.World)
      → Ends E
          (λ a v.
            (fd : Fd) (number : ℕ)
            → works.watching v fd number
            → ((fd ≡ conn.client_sock_fd) × (number ≡ u32 (1 + conn_i)))
              ⊎ works.watching w fd number)
          (epoll_conn_wait_on_socket os epollfd conn_i conn w)
  unfolding epoll_conn_wait_on_socket
  wait_on_socket-Ends conn_i conn w =
      let fd = conn.client_sock_fd in
      let ev : EpollEvent = record { events = pollout_event; data_u32 = u32 (1 + conn_i) } in
      weaken-Ends E _ _ (or_exit (os.epoll_ctl_add epollfd fd ev) w)
        (or_exit-Ends E (os.epoll_ctl_add epollfd fd ev) w (epoll_failures.add_fails fd ev w))
        (λ a v r fd' number e.
          works.added fd ev w r.0 fd' number (subst (λ v'. works.watching v' fd' number) r.1 e))

  -- A client has been accepted, and its socket is watched.
  record Welcomed (L : Type 0) (c c' : Clients) (v : os.World) : Type 0 where
    accepted : Accepted max_conns c c'
    watched : Watches server L c' (works.watching v)

  new_client-Ends :
      {L : Type 0} (c : Clients) (w : os.World)
      → Kept max_conns c
      → c.num_connected < max_conns
      → Watches server L c (works.watching w)
      → Ends E (Welcomed L c) (epoll_new_client os epollfd server c w)
  unfolding epoll_new_client
  new_client-Ends {L} c w kept room watched =
      let n = c.num_connected in
      bind-Ends E (λ c' v. Accepted max_conns c c' × Before w v) (Welcomed L c)
        (accept_client os server c)
        (λ c'. epoll_conn_wait_on_socket os epollfd n (c'.conns n) >> pure c') w
        (accept_client-Ends os E failures (interest_frame works) small64 server c w kept room)
        (λ c' v p.
          bind-Ends E _ (Welcomed L c) (epoll_conn_wait_on_socket os epollfd n (c'.conns n))
            (λ a. pure c') v (wait_on_socket-Ends n (c'.conns n) v)
            (λ a v' add. record {
              accepted = p.0;
              watched = λ fd number e. elim (add fd number e) [
                | inl new ↦
                    let more = p.0.one_more in
                    let number_new = new.1 in
                    sends n (omega (arith, number_new, room, small)) (omega (arith, more))
                      p.0.active (sym new.0)
                | inr old ↦
                    accepted-Entry server c c' fd number p.0 (λ holds e. holds)
                      (watched fd number (p.1 fd number old))
              ];
            }))

  -- Between the events of one wait: `pending` are the entries that may have an event to come.
  pub record Between (L : Type 0) (c : Clients) (pending : View) (w : os.World) : Type 0 where
    pub kept : Kept max_conns c
    pub watched : Watches server L c (works.watching w)
    pub expected : Watches server (c.num_connected < max_conns) c pending

  event-Ends :
      {L : Type 0} (c : Clients) (fd : Fd) (ev : EpollEvent) (pending : View) (w : os.World)
      → Between L c pending w
      → Entry server (c.num_connected < max_conns) c fd ev.data_u32
      → Ends E (λ c' v. Between L c' (without pending fd) v) (serve_event os epollfd server ev c w)
  unfolding serve_event
  event-Ends {L} c fd ev pending w between (listens zero_number room here) =
      let test : (ev.data_u32 == 0) ≡ true = (==_iff ev.data_u32 0).1 zero_number in
      rw test (
        weaken-Ends E (Welcomed L c) (λ c' v. Between L c' (without pending fd) v)
          (epoll_new_client os epollfd server c w)
          (new_client-Ends c w between.kept room between.watched)
          (λ c' v new. record {
            kept = new.accepted.kept;
            watched = new.watched;
            expected = λ fd' number e.
                accepted-Entry server c c' fd' number new.accepted
                  (λ l also. absurd (e.0 (also ∙ sym here))) (between.expected fd' number e.1);
          }))
  event-Ends {L} c fd ev pending w between (sends i number l active here) =
      let test : (ev.data_u32 == 0) ≡ false = elim (Bool-cases (ev.data_u32 == 0)) [
        | inl e ↦
            let zero_number = (==_iff ev.data_u32 0).0 e in
            absurd (omega (arith, number, zero_number))
        | inr e ↦ e
      ] in
      let conn_i : ev.data_u32 - 1 ≡ i = omega (arith, number) in
      rw test (
        rw conn_i (
          weaken-Ends E (EventServed os epollfd E failures epoll_failures works small server L c i)
            (λ c' v. Between L c' (without pending fd) v)
            (serve_conn_event os epollfd server i ev.events c w)
            (serve_conn_event-Ends os epollfd E failures epoll_failures works small server c i
              ev.events w between.kept l active between.watched)
            (λ c' v served.
              let clients = served.turned.changed.same_clients in
              record {
                kept = served.turned.kept;
                watched = served.watched;
                expected = λ fd' number' e.
                    subst (λ n. Entry server (n < max_conns) c' fd' number') (sym clients)
                      (others-Entry server c c' i fd' number' served.turned.changed
                        (λ also. e.0 (also ∙ here)) (between.expected fd' number' e.1));
              })))

  pub events-Ends :
      {L : Type 0} (events : List EpollEvent) (c : Clients) (pending : View) (w : os.World)
      → Between L c pending w
      → Reports pending events
      → Ends E
          (λ c' v. Kept max_conns c' × Watches server L c' (works.watching v))
          (serve_events os epollfd server events c w)
  unfolding serve_events
  events-Ends [] c pending w between reports = (between.kept, between.watched)
  events-Ends {L} (ev ∷ events) c pending w between reports =
      bind-Ends E (λ c' v. Between L c' (without pending reports.0) v)
        (λ c' v. Kept max_conns c' × Watches server L c' (works.watching v))
        (serve_event os epollfd server ev c) (λ c'. serve_events os epollfd server events c') w
        (event-Ends c reports.0 ev pending w between
          (between.expected reports.0 ev.data_u32 reports.1))
        (λ c' v between'. events-Ends events c' (without pending reports.0) v between' reports.2)
