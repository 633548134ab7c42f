-- ===== src/Fileshare/Poll/Round.antt =====
-- The rounds of server-poll.c keep the array of connections, and the loop leaves nobody behind.
use networking_howto.Prelude.{
  ℕ, zero, suc, ◌+◌, ◌<◌, ◌≡◌, ◌^◌, Bool, true, false, none, some, update_ne, arith, refl, sym, ap,
  ◌∙◌, inl, inr, if◌then◌else◌, ℕ_discrete,
}
use networking_howto.Prelude.Program.{M, ◌>>=◌, pure, value_or_exit}
use networking_howto.Prelude.Ends.{Ends, bind-Ends, weaken-Ends}
use networking_howto.Fileshare.Posix.{Posix, PollFd, Events}
use networking_howto.Fileshare.Multiplexing.{FileshareServer, FileshareConnection}
use networking_howto.Fileshare.Multiplexing.Transfer.{is_active}
use networking_howto.Fileshare.EventLoop.{Clients, no_clients, accept_client, accepts_new}
use networking_howto.Fileshare.EventLoop.Table.{Kept, no_clients-Kept}
use networking_howto.Prelude.Ends.{value_or_exit-Ends}
use networking_howto.Fileshare.EventLoop.Frame.{no_frame}
use networking_howto.Fileshare.EventLoop.Turns.{Accepted}
use networking_howto.Fileshare.EventLoop.Steps.{Failures, accept_client-Ends}
use networking_howto.Fileshare.EventLoop.Stop.{LoopResult, room_left, stop_or-Ends}
use networking_howto.Fileshare.Poll.{
  ignored, serve_conns, new_client, serve_clients, poll_listen, poll_conns, poll_clients, poll_loop,
  zeroed, poll_server_do_not_wait_for_client, poll_server_wait_for_client,
}
use networking_howto.Fileshare.Poll.Serve.{Same, serve_conns-Ends}
use networking_howto.Fileshare.Poll.Watch.{
  PollWorks, QuietBeyond, Watched, Ready, poll_conns-Ends, polled-Ready,
}

module _ (os : Posix) (E : Type 0) (failures : Failures os E) (works : PollWorks os)
    (poll_fails : (fds : ℕ → PollFd) (nfds : ℕ) (w : os.World) → (os.poll fds nfds w).0 ≡ none → E)
    {max_conns : ℕ} (small : max_conns < 2 ^ 64) (server : FileshareServer) where
  -- After `poll`: the clients are kept, a request is there only if one was waited for, and those to
  -- come report nothing.
  record Polled (c : Clients) (fds : ℕ → PollFd) : Type 0 where
    kept : Kept max_conns c
    request : (fds 0).revents.pollin ≡ true → c.num_connected < max_conns
    ready : Ready c fds 0
    beyond : QuietBeyond c.num_connected fds

  -- After a request, if there was one.
  record Welcomed (c : Clients) (fds : ℕ → PollFd) : Type 0 where
    kept : Kept max_conns c
    ready : Ready c fds 0
    beyond : QuietBeyond c.num_connected fds

  new_client-Ends :
      (c : Clients) (fds : ℕ → PollFd) (w : os.World)
      → Polled c fds
      → Ends E (λ c' v. Welcomed c' fds) (new_client os server fds c w)
  unfolding new_client
  new_client-Ends c fds w polled = by_bit (fds 0).revents.pollin polled.request
    where
      welcome : (c' : Clients) → Accepted max_conns c c' → Welcomed c' fds
      welcome c' a =
          let more = a.one_more in
          record {
            kept = a.kept;
            ready = λ j from. elim (ℕ_discrete j c.num_connected) [
              | yes e ↦ inl (polled.beyond j (omega (arith, e)))
              | no ne ↦ elim (polled.ready j from) [
                | inl quiet ↦ inl quiet
                | inr active ↦
                    inr
                      (ap (λ (d : FileshareConnection). is_active d.state) (a.others j ne) ∙ active)
              ]
            ];
            beyond = λ j from. polled.beyond j (omega (arith, from, more));
          }

      by_bit :
          (b : Bool)
          → (b ≡ true → c.num_connected < max_conns)
          → Ends E (λ c' v. Welcomed c' fds) ((if b then accept_client os server c else pure c) w)
      by_bit true room =
          weaken-Ends E (λ c' v. Accepted max_conns c c' × Unit {0}) (λ c' v. Welcomed c' fds)
            (accept_client os server c w)
            (accept_client-Ends os E failures (no_frame os) small server c w polled.kept
              (room refl))
            (λ c' v a. welcome c' a.0)
      by_bit false room = record {
        kept = polled.kept;
        ready = polled.ready;
        beyond = polled.beyond;
      }

  -- What a round needs and leaves.
  pub record Between (r : Clients × (ℕ → PollFd)) : Type 0 where
    pub kept : Kept max_conns r.0
    pub beyond : QuietBeyond r.0.num_connected r.1

  serve_clients-Ends :
      (c : Clients) (fds : ℕ → PollFd) (w : os.World)
      → Polled c fds
      → Ends E (λ r v. Between r) (serve_clients os server c fds w)
  unfolding serve_clients
  serve_clients-Ends c fds w polled =
      bind-Ends E (λ c' v. Welcomed c' fds) (λ r v. Between r) (new_client os server fds c)
        (λ c'. serve_conns os server c'.num_connected 0 fds c' >>= λ served. pure (served, fds)) w
        (new_client-Ends c fds w polled)
        (λ c' v welcomed.
          bind-Ends E (λ c'' v'. Same os E failures small server c'.num_connected c'')
            (λ r v'. Between r) (serve_conns os server c'.num_connected 0 fds c')
            (λ served. pure (served, fds)) v
            (serve_conns-Ends os E failures small server c'.num_connected 0 c'.num_connected c' fds
              v welcomed.kept refl (omega arith) welcomed.ready)
            (λ c'' v' same. record {
              kept = same.kept;
              beyond = λ j from. welcomed.beyond j (let n = same.clients in omega (arith, from, n));
            }))

  listen_entry : (accepting : Bool) → (ℕ → PollFd) → PollFd
  listen_entry accepting fds = poll_listen os server accepting fds 0

  listen-Watched :
      (accepting : Bool) (c : Clients) (fds : ℕ → PollFd)
      → QuietBeyond c.num_connected fds
      → Watched c 0 (listen_entry accepting fds) (poll_listen os server accepting fds)
  unfolding listen_entry poll_listen poll_server_wait_for_client poll_server_do_not_wait_for_client
  listen-Watched true c fds beyond = record {
    first = refl;
    finished = λ j l over. absurd (omega (arith, l));
    beyond = λ j from.
        ap (λ (p : PollFd). p.revents) (update_ne fds 0 _ (1 + j) (λ e. omega (arith, e)))
        ∙ beyond j from;
  }
  listen-Watched false c fds beyond = record {
    first = refl;
    finished = λ j l over. absurd (omega (arith, l));
    beyond = λ j from.
        ap (λ (p : PollFd). p.revents) (update_ne fds 0 ignored (1 + j) (λ e. omega (arith, e)))
        ∙ beyond j from;
  }

  not_waited : (fds : ℕ → PollFd) → (listen_entry false fds).fd ≡ none
  unfolding listen_entry poll_listen poll_server_do_not_wait_for_client
  not_waited fds = refl

  poll-Polled :
      (accepting : Bool) (c : Clients) (fds watched polled : ℕ → PollFd) (w : os.World)
      → (accepting ≡ true → c.num_connected < max_conns)
      → Kept max_conns c
      → Watched c c.num_connected (listen_entry accepting fds) watched
      → (os.poll watched (1 + c.num_connected) w).0 ≡ some polled
      → Polled c polled
  poll-Polled accepting c fds watched polled w room kept set e =
      let r =
        polled-Ready os works c (listen_entry accepting fds) watched polled w kept.used set e in
      record { kept = kept; request = request accepting room set; ready = r.0; beyond = r.1 }
    where
      request :
          (b : Bool)
          → (b ≡ true → c.num_connected < max_conns)
          → Watched c c.num_connected (listen_entry b fds) watched
          → (polled 0).revents.pollin ≡ true
          → c.num_connected < max_conns
      request true room set bit = room refl
      request false room set bit =
          let quiet =
            works.silent watched polled (1 + c.num_connected) w e 0 (omega arith)
              (ap (λ (p : PollFd). p.fd) set.first ∙ not_waited fds) in
          let clash : false ≡ true = sym (ap (λ (v : Events). v.pollin) quiet) ∙ bit in cc

  poll_clients-Ends :
      (accepting : Bool) (c : Clients) (fds : ℕ → PollFd) (w : os.World)
      → (accepting ≡ true → c.num_connected < max_conns)
      → Between (c, fds)
      → Ends E (λ r v. Between r) (poll_clients os server accepting c fds w)
  unfolding poll_clients
  poll_clients-Ends accepting c fds w room between =
      bind-Ends E (λ watched v. Watched c c.num_connected (listen_entry accepting fds) watched)
        (λ r v. Between r) (poll_conns os c.num_connected 0 c (poll_listen os server accepting fds))
        (λ watched. value_or_exit (os.poll watched (1 + c.num_connected)) >>= λ polled.
          serve_clients os server c polled)
        w
        (poll_conns-Ends os E c.num_connected 0 c (listen_entry accepting fds)
          (poll_listen os server accepting fds) w between.kept.used (omega arith)
          (listen-Watched accepting c fds between.beyond))
        (λ watched v set.
          bind-Ends E _ (λ r v'. Between r) (value_or_exit (os.poll watched (1 + c.num_connected)))
            (λ polled. serve_clients os server c polled) v
            (value_or_exit-Ends E (os.poll watched (1 + c.num_connected)) v
              (poll_fails watched (1 + c.num_connected) v))
            (λ polled v' e.
              serve_clients-Ends c polled v'
                (poll-Polled accepting c fds watched polled v room between.kept set e.0)))

  loop-Ends :
      (rounds : ℕ) (c : Clients) (fds : ℕ → PollFd) (w : os.World)
      → Between (c, fds)
      → Ends E (LoopResult os max_conns) (poll_loop os rounds max_conns server c fds w)
  unfolding poll_loop
  loop-Ends zero c fds w between = record { kept = between.kept; left = tt }
  loop-Ends (suc rounds) c fds w between =
      let accepting = accepts_new os max_conns c w in
      let again : Clients × (ℕ → PollFd) → M os.World (Bool × Clients) =
        λ r. poll_loop os rounds max_conns server r.0 r.1 in
      stop_or-Ends os max_conns E small c w ((poll_clients os server accepting c fds >>= again) w)
        between.kept
        (bind-Ends E (λ r v. Between r) (LoopResult os max_conns)
          (poll_clients os server accepting c fds) again w
          (poll_clients-Ends accepting c fds w (room_left os max_conns c w between.kept.room)
            between)
          (λ r v between'. loop-Ends rounds r.0 r.1 v between'))

-- Any number of rounds of the loop of server-poll.c from its start, for any number of clients below
-- 2^64, keeps the array of connections, unless a call of the system fails: the accepted clients are
-- within the array and have a state, the count of active clients is the number of transfers that go
-- on, and the exit for an unexpected state is not reached. When the loop stops, every client that was
-- accepted is finished and no more are to be accepted. (`E` is what a failed call means.)
pub poll_loop_serves :
    (os : Posix) (E : Type 0) (failures : Failures os E) (works : PollWorks os)
    (poll_fails : (fds : ℕ → PollFd) (nfds : ℕ) (w : os.World) → (os.poll fds nfds w).0 ≡ none → E)
    (max_conns : ℕ) (small : max_conns < 2 ^ 64) (server : FileshareServer) (rounds : ℕ)
    (w : os.World)
    → Ends E (LoopResult os max_conns) (poll_loop os rounds max_conns server no_clients zeroed w)
poll_loop_serves os E failures works poll_fails max_conns small server rounds w =
    loop-Ends os E failures works poll_fails small server rounds no_clients zeroed w
      (record { kept = no_clients-Kept small; beyond = λ j from. refl })
