-- ===== src/Fileshare/Epoll/Round.antt =====
-- The rounds of server-epoll.c.
use networking_howto.Prelude.{
  ℕ, zero, suc, ◌+◌, ◌<◌, ◌≡◌, ◌^◌, Bool, true, false, arith, refl, subst, inl, inr,
}
use networking_howto.Prelude.Program.{M, ◌>>=◌, pure, or_exit, value_or_exit}
use networking_howto.Prelude.Ends.{Ends, bind-Ends, weaken-Ends, or_exit-Ends, value_or_exit-Ends}
use networking_howto.Fileshare.Posix.{Posix, Fd, EpollEvent}
use networking_howto.Fileshare.Multiplexing.{FileshareServer}
use networking_howto.Fileshare.EventLoop.{Clients, no_clients, accepts_new}
use networking_howto.Fileshare.EventLoop.Table.{Kept, no_clients-Kept}
use networking_howto.Fileshare.EventLoop.Steps.{Failures}
use networking_howto.Fileshare.EventLoop.Stop.{LoopResult, room_left, stop_or-Ends}
use networking_howto.Fileshare.Epoll.{
  pollin_event, epoll_server_wait_for_client, epoll_server_stop_waiting_for_client, epoll_listen,
  epoll_clients, epoll_loop, epoll_serve, serve_events,
}
use networking_howto.Fileshare.Epoll.Interest.{EpollWorks, Entry, listens, sends, Watches}
use networking_howto.Fileshare.Epoll.Connection.{EpollFailures}
use networking_howto.Fileshare.Epoll.Serve.{events-Ends}

module _ (os : Posix) (epollfd : Fd) (E : Type 0) (failures : Failures os E)
    (epoll_failures : EpollFailures os epollfd E) (works : EpollWorks os epollfd) {max_conns : ℕ}
    (small : max_conns < 2 ^ 32) (server : FileshareServer) where
  abbrev Inv : Bool → Clients → os.World → Type 0
  Inv prev c w = Kept max_conns c × Watches server (prev ≡ true) c (works.watching w)

  -- After the listening socket has been taken out, no entry is its.
  unlisted-Entry :
      {L : Type 0} (c : Clients) (fd : Fd) (number : ℕ)
      → ¬ (fd ≡ server.listen_sock_fd)
      → Entry server L c fd number
      → Entry server (false ≡ true) c fd number
  unlisted-Entry c fd number ne (listens zero_number l e) = absurd (ne e)
  unlisted-Entry c fd number ne (sends i e l active same) = sends i e l active same

  stop_listening-Ends :
      {L : Type 0} (c : Clients) (w : os.World)
      → Watches server L c (works.watching w)
      → Ends E
          (λ a v. Watches server (false ≡ true) c (works.watching v))
          (epoll_server_stop_waiting_for_client os epollfd server w)
  unfolding epoll_server_stop_waiting_for_client
  stop_listening-Ends c w watched =
      let fd = server.listen_sock_fd in
      weaken-Ends E _ _ (or_exit (os.epoll_ctl_del epollfd fd) w)
        (or_exit-Ends E (os.epoll_ctl_del epollfd fd) w (epoll_failures.del_fails fd w))
        (λ a v r fd' number e.
          let left =
            works.deleted fd w r.0 fd' number (subst (λ v'. works.watching v' fd' number) r.1 e) in
          unlisted-Entry c fd' number left.0 (watched fd' number left.1))

  -- The listening socket is watched at most while more clients are to be accepted.
  record Listening (accepting : Bool) (c : Clients) (prev' : Bool) (v : os.World) : Type 0 where
    watched : Watches server (prev' ≡ true) c (works.watching v)
    only : prev' ≡ true → accepting ≡ true

  listen-Ends :
      (prev accepting : Bool) (c : Clients) (w : os.World)
      → Watches server (prev ≡ true) c (works.watching w)
      → Ends E (Listening accepting c) (epoll_listen os epollfd server prev accepting w)
  unfolding epoll_listen
  listen-Ends true true c w watched = record { watched = watched; only = λ e. e }
  listen-Ends true false c w watched =
      bind-Ends E (λ a v. Watches server (false ≡ true) c (works.watching v)) (Listening false c)
        (epoll_server_stop_waiting_for_client os epollfd server) (λ a. pure false) w
        (stop_listening-Ends c w watched)
        (λ a v watched'. record { watched = watched'; only = λ e. e })
  listen-Ends false accepting c w watched = record {
    watched = watched;
    only = λ e. let clash : false ≡ true = e in cc;
  }

  weaker-Entry :
      {L L' : Type 0} (c : Clients) (fd : Fd) (number : ℕ)
      → (L → L')
      → Entry server L c fd number
      → Entry server L' c fd number
  weaker-Entry c fd number f (listens zero_number l e) = listens zero_number (f l) e
  weaker-Entry c fd number f (sends i e l active same) = sends i e l active same

  round-Ends :
      (prev accepting : Bool) (c : Clients) (w : os.World)
      → (accepting ≡ true → c.num_connected < max_conns)
      → Inv prev c w
      → Ends E (λ r v. Inv r.0 r.1 v) (epoll_clients os epollfd max_conns server prev accepting c w)
  unfolding epoll_clients
  round-Ends prev accepting c w room inv =
      let wait = os.epoll_wait epollfd (max_conns + 1) in
      bind-Ends E (Listening accepting c) (λ r v. Inv r.0 r.1 v)
        (epoll_listen os epollfd server prev accepting)
        (λ prev'. value_or_exit wait >>= λ events.
          serve_events os epollfd server events c >>= λ c'. pure (prev', c'))
        w (listen-Ends prev accepting c w inv.1)
        (λ prev' v listening.
          bind-Ends E _ (λ r v'. Inv r.0 r.1 v') (value_or_exit wait)
            (λ events. serve_events os epollfd server events c >>= λ c'. pure (prev', c')) v
            (value_or_exit-Ends E wait v (epoll_failures.wait_fails (max_conns + 1) v))
            (λ events v' waited.
              let seen = works.wait_adds_none (max_conns + 1) v in
              bind-Ends E (λ c' u. Inv prev' c' u) (λ r u. Inv r.0 r.1 u)
                (serve_events os epollfd server events c) (λ c'. pure (prev', c')) v'
                (events-Ends os epollfd E failures epoll_failures works small server events c
                  (works.watching v) v'
                  (record {
                    kept = inv.0;
                    watched = λ fd number e.
                        listening.watched fd number
                          (seen fd number (subst (λ u. works.watching u fd number) waited.1 e));
                    expected = λ fd number e.
                        weaker-Entry c fd number (λ on. room (listening.only on))
                          (listening.watched fd number e);
                  })
                  (works.waited (max_conns + 1) v events waited.0))
                (λ c' u inv'. inv')))

  loop-Ends :
      (rounds : ℕ) (prev : Bool) (c : Clients) (w : os.World)
      → Inv prev c w
      → Ends E (LoopResult os max_conns) (epoll_loop os epollfd rounds max_conns server prev c w)
  unfolding epoll_loop
  loop-Ends zero prev c w inv = record { kept = inv.0; left = tt }
  loop-Ends (suc rounds) prev c w inv =
      let accepting = accepts_new os max_conns c w in
      let again : Bool × Clients → M os.World (Bool × Clients) =
        λ r. epoll_loop os epollfd rounds max_conns server r.0 r.1 in
      stop_or-Ends os max_conns E (omega (arith, small)) c w
        ((epoll_clients os epollfd max_conns server prev accepting c >>= again) w) inv.0
        (bind-Ends E (λ r v. Inv r.0 r.1 v) (LoopResult os max_conns)
          (epoll_clients os epollfd max_conns server prev accepting c) again w
          (round-Ends prev accepting c w (room_left os max_conns c w inv.0.room) inv)
          (λ r v inv'. loop-Ends rounds r.0 r.1 v inv'))

  wait_for_client-Ends :
      (w : os.World)
      → ((fd : Fd) (number : ℕ) → ¬ (works.watching w fd number))
      → Ends E (λ a v. Inv true no_clients v) (epoll_server_wait_for_client os epollfd server w)
  unfolding epoll_server_wait_for_client
  wait_for_client-Ends w empty =
      let fd = server.listen_sock_fd in
      let ev : EpollEvent = record { events = pollin_event; data_u32 = 0 } in
      weaken-Ends E _ _ (or_exit (os.epoll_ctl_add epollfd fd ev) w)
        (or_exit-Ends E (os.epoll_ctl_add epollfd fd ev) w (epoll_failures.add_fails fd ev w))
        (λ a v r. (
          no_clients-Kept (omega (arith, small)),
          λ fd' number e.
              elim (works.added fd ev w r.0 fd' number
                (subst (λ v'. works.watching v' fd' number) r.1 e)) [
                  | inl new ↦ listens new.1 refl new.0
                  | inr old ↦ absurd (empty fd' number old)
                ],
        ))

  serve-Ends :
      (rounds : ℕ) (w : os.World)
      → ((fd : Fd) (number : ℕ) → ¬ (works.watching w fd number))
      → Ends E (LoopResult os max_conns) (epoll_serve os epollfd rounds max_conns server w)
  unfolding epoll_serve
  serve-Ends rounds w empty =
      bind-Ends E (λ a v. Inv true no_clients v) (LoopResult os max_conns)
        (epoll_server_wait_for_client os epollfd server)
        (λ a. epoll_loop os epollfd rounds max_conns server true no_clients) w
        (wait_for_client-Ends w empty) (λ a v inv. loop-Ends rounds true no_clients v inv)

-- Any number of rounds of the loop of server-epoll.c, for any number of clients below 2^32 and from an
-- instance of epoll that watches nothing, keeps the array of connections, unless a call of the system
-- fails: the accepted clients are within the array and have a state, the count of active clients is the
-- number of transfers that go on, and the exit for an unexpected state is not reached. When the loop
-- stops, every client that was accepted is finished and no more are to be accepted. (`E` is what a
-- failed call means.)
pub epoll_loop_serves :
    (os : Posix) (epollfd : Fd) (E : Type 0) (failures : Failures os E)
    (epoll_failures : EpollFailures os epollfd E) (works : EpollWorks os epollfd) (max_conns : ℕ)
    (small : max_conns < 2 ^ 32) (server : FileshareServer) (rounds : ℕ) (w : os.World)
    → ((fd : Fd) (number : ℕ) → ¬ (works.watching w fd number))
    → Ends E (LoopResult os max_conns) (epoll_serve os epollfd rounds max_conns server w)
epoll_loop_serves os epollfd E failures epoll_failures works max_conns small server rounds w empty =
    serve-Ends os epollfd E failures epoll_failures works small server rounds w empty
