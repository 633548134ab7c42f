-- ===== src/Fileshare/Poll/Serve.antt =====
-- The loop of server-poll.c over the connections after `poll`.
use networking_howto.Prelude.{
  ℕ, zero, suc, ◌+◌, ◌<◌, ◌≡◌, ◌^◌, Bool, true, false, arith, refl, sym, ap, ◌∙◌, subst, ◌⊎◌, inl,
  inr, if◌then◌else◌, update_ne, update_self, sub64,
}
use networking_howto.Prelude.Program.{◌>>=◌, pure}
use networking_howto.Prelude.Ends.{Ends, bind-Ends}
use networking_howto.Fileshare.Posix.{Posix, PollFd, Events}
use networking_howto.Fileshare.Multiplexing.{
  FileshareServer, FileshareConnection, transfer_finished, set_state,
}
use networking_howto.Fileshare.Multiplexing.Setup.{server_close_conn_socket}
use networking_howto.Fileshare.Multiplexing.Transfer.{is_active}
use networking_howto.Fileshare.EventLoop.{Clients, write_conn, one_less, set_conn}
use networking_howto.Fileshare.EventLoop.Table.{Kept}
use networking_howto.Fileshare.EventLoop.Frame.{no_frame}
use networking_howto.Fileshare.EventLoop.Turns.{Turned, drop-Turned, Written, success-Turned}
use networking_howto.Fileshare.EventLoop.Steps.{Failures, write_conn-Ends, close-Ends}
use networking_howto.Fileshare.Poll.{no_events, hung_up, check_success, serve_conn, serve_conns}
use networking_howto.Fileshare.Poll.Watch.{Ready}

module _ (os : Posix) (E : Type 0) (failures : Failures os E) {max_conns : ℕ}
    (small : max_conns < 2 ^ 64) (server : FileshareServer) where
  abbrev Turn : Clients → ℕ → Clients → os.World → Type 0
  Turn c i c' v = Turned max_conns c i c'

  stay : (c : Clients) (i : ℕ) → Kept max_conns c → Turned max_conns c i c
  stay c i kept = record {
    kept = kept;
    changed = record { same_clients = refl; others = λ j ne. refl };
    same_fd = λ active. refl;
  }

  hung_up-Ends :
      (c : Clients) (i : ℕ) (w : os.World)
      → Kept max_conns c
      → i < c.num_connected
      → is_active (c.conns i).state ≡ true
      → Ends E (Turn c i) (hung_up os c i w)
  unfolding hung_up
  hung_up-Ends c i w kept l active =
      let conn = set_state (c.conns i) transfer_finished in
      bind-Ends E (λ a v. Unit) (Turn c i) (server_close_conn_socket os (c.conns i))
        (λ a. pure (one_less (set_conn c i conn))) w
        (close-Ends os E failures (no_frame os) (c.conns i) w)
        (λ a v p.
          drop-Turned small c (one_less (set_conn c i conn)) i kept
            (record { same_clients = refl; others = λ j ne. update_ne c.conns i conn j ne }) l refl
            active (ap (λ (d : FileshareConnection). d.state) (update_self c.conns i conn)))

  check_success-Ends :
      (c : Clients) (i : ℕ) (r : Bool × Clients) (w : os.World)
      → Kept max_conns c
      → i < c.num_connected
      → is_active (c.conns i).state ≡ true
      → Written c i r.0 r.1
      → Ends E (Turn c i) (check_success os i r w)
  unfolding check_success
  check_success-Ends c i (true, c') w kept l active written =
      success-Turned small c c' i kept l active written
  check_success-Ends c i (false, c') w kept l active written =
      bind-Ends E (λ a v. Unit) (Turn c i) (server_close_conn_socket os (c'.conns i))
        (λ a. pure (one_less c')) w (close-Ends os E failures (no_frame os) (c'.conns i) w)
        (λ a v p.
          drop-Turned small c (one_less c') i kept
            (record {
              same_clients = written.changed.same_clients;
              others = written.changed.others;
            })
            l (ap (λ n. sub64 n 1) written.same_active) active written.goes_on)

  serve_active-Ends :
      (c : Clients) (i : ℕ) (w : os.World) (revents : Events)
      → Kept max_conns c
      → i < c.num_connected
      → is_active (c.conns i).state ≡ true
      → Ends E (Turn c i) (serve_conn os server i revents c w)
  unfolding serve_conn
  serve_active-Ends c i w revents kept l active = by_bits revents.pollhup revents.pollout
    where
      by_bits :
          (hup out : Bool)
          → Ends E (Turn c i) (
              (if hup
                  then hung_up os c i
                  else if out
                  then (write_conn os server c i >>= check_success os i)
                  else pure c)
                w)
      by_bits true out = hung_up-Ends c i w kept l active
      by_bits false true =
          bind-Ends E (λ r v. Written c i r.0 r.1 × Unit {0}) (Turn c i) (write_conn os server c i)
            (check_success os i) w (write_conn-Ends os E failures (no_frame os) server c i w active)
            (λ r v w. check_success-Ends c i r v kept l active w.0)
      by_bits false false = stay c i kept

  serve_conn-Ends :
      (c : Clients) (i : ℕ) (w : os.World) (revents : Events)
      → Kept max_conns c
      → i < c.num_connected
      → (revents ≡ no_events) ⊎ (is_active (c.conns i).state ≡ true)
      → Ends E (Turn c i) (serve_conn os server i revents c w)
  unfolding serve_conn
  serve_conn-Ends c i w revents kept l (inl quiet) =
      subst (λ r. Ends E (Turn c i) (serve_conn os server i r c w)) (sym quiet) (stay c i kept)
  serve_conn-Ends c i w revents kept l (inr active) = serve_active-Ends c i w revents kept l active

  -- The clients after a part of a round: `k` of them.
  pub record Same (k : ℕ) (c : Clients) : Type 0 where
    pub kept : Kept max_conns c
    pub clients : c.num_connected ≡ k

  pub serve_conns-Ends :
      (left i k : ℕ) (c : Clients) (fds : ℕ → PollFd) (w : os.World)
      → Kept max_conns c
      → c.num_connected ≡ k
      → i + left ≡ k
      → Ready c fds i
      → Ends E (λ c' v. Same k c') (serve_conns os server left i fds c w)
  unfolding serve_conns
  serve_conns-Ends zero i k c fds w kept n m ready = record { kept = kept; clients = n }
  serve_conns-Ends (suc left) i k c fds w kept n m ready =
      bind-Ends E (Turn c i) (λ c' v. Same k c') (serve_conn os server i (fds (1 + i)).revents c)
        (λ c'. serve_conns os server left (i + 1) fds c') w
        (serve_conn-Ends c i w (fds (1 + i)).revents kept (omega (arith, n, m))
          (ready i (omega arith)))
        (λ c' v turned.
          serve_conns-Ends left (i + 1) k c' fds v turned.kept (turned.changed.same_clients ∙ n)
            (omega (arith, m))
            (λ j from. elim (ready j (omega (arith, from))) [
              | inl quiet ↦ inl quiet
              | inr active ↦ inr (
                  ap (λ (d : FileshareConnection). is_active d.state)
                    (turned.changed.others j (λ e. omega (arith, e, from)))
                  ∙ active)
            ]))
