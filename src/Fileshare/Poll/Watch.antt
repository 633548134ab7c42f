-- ===== src/Fileshare/Poll/Watch.antt =====
-- The array of descriptors of server-poll.c, before and after the call of `poll`.
use networking_howto.Prelude.{
  ℕ, zero, suc, ◌+◌, ◌≤◌, ◌<◌, ◌≡◌, ◌≢◌, true, none, some, update, update_self, update_ne, arith,
  refl, sym, ap, ◌∙◌, subst, ◌⊎◌, inl, inr, ℕ_discrete, dec_lt,
}
use networking_howto.Prelude.Ends.{Ends, bind-Ends}
use networking_howto.Fileshare.Posix.{Posix, PollFd}
use networking_howto.Fileshare.Multiplexing.{
  TransferState, connection_empty, send_file_size, send_data_block, transfer_finished,
}
use networking_howto.Fileshare.Multiplexing.Transfer.{is_active}
use networking_howto.Fileshare.EventLoop.{Clients}
use networking_howto.Fileshare.Poll.{
  no_events, poll_conn_wait_on_socket, poll_conn_do_not_wait_on_socket, poll_conn, or_unexpected,
  poll_conns,
}

-- What `poll` says of the descriptors: those past the first `nfds` are left alone, and an entry whose
-- descriptor is -1 reports nothing.
pub record PollWorks (os : Posix) : Type 0 where
  pub beyond :
      (fds polled : ℕ → PollFd) (nfds : ℕ) (w : os.World)
      → (os.poll fds nfds w).0 ≡ some polled
      → (i : ℕ) → nfds ≤ i
      → polled i ≡ fds i
  pub silent :
      (fds polled : ℕ → PollFd) (nfds : ℕ) (w : os.World)
      → (os.poll fds nfds w).0 ≡ some polled
      → (i : ℕ) → i < nfds
      → (fds i).fd ≡ none
      → (polled i).revents ≡ no_events

-- The entries of clients to come report nothing.
abbrev pub QuietBeyond : (num_connected : ℕ) → (ℕ → PollFd) → Type 0
QuietBeyond num_connected fds = (j : ℕ) → num_connected ≤ j → (fds (1 + j)).revents ≡ no_events

-- The first `set` connections have their entries: those that are finished are ignored.
pub record Watched (c : Clients) (set : ℕ) (listen : PollFd) (fds : ℕ → PollFd) : Type 0 where
  pub first : fds 0 ≡ listen
  pub finished : (j : ℕ) → j < set → (c.conns j).state ≡ transfer_finished → (fds (1 + j)).fd ≡ none
  pub beyond : QuietBeyond c.num_connected fds

set-Watched :
    (c : Clients) (i : ℕ) (listen entry : PollFd) (fds : ℕ → PollFd)
    → i < c.num_connected
    → Watched c i listen fds
    → ((c.conns i).state ≡ transfer_finished → entry.fd ≡ none)
    → Watched c (i + 1) listen (update fds (1 + i) entry)
set-Watched c i listen entry fds l watched here = record {
  first = update_ne fds (1 + i) entry 0 (λ e. omega (arith, e)) ∙ watched.first;
  finished = λ j l' over. elim (ℕ_discrete j i) [
    | yes e ↦
        let same : 1 + j ≡ 1 + i = ap (λ n. 1 + n) e in
        ap (λ n. (update fds (1 + i) entry n).fd) same
        ∙ ap (λ (p : PollFd). p.fd) (update_self fds (1 + i) entry)
        ∙ here (ap (λ n. (c.conns n).state) (sym e) ∙ over)
    | no ne ↦
        ap (λ (p : PollFd). p.fd) (update_ne fds (1 + i) entry (1 + j) (λ e. omega (arith, e, ne)))
        ∙ watched.finished j (omega (arith, l', ne)) over
  ];
  beyond = λ j from.
      ap (λ (p : PollFd). p.revents)
        (update_ne fds (1 + i) entry (1 + j) (λ e. omega (arith, e, from, l)))
      ∙ watched.beyond j from;
}

module _ (os : Posix) (E : Type 0) where
  poll_conn-Ends :
      (c : Clients) (i : ℕ) (listen : PollFd) (fds : ℕ → PollFd) (w : os.World) (st : TransferState)
      → (c.conns i).state ≡ st
      → st ≢ connection_empty
      → i < c.num_connected
      → Watched c i listen fds
      → Ends E
          (λ fds' v. Watched c (i + 1) listen fds')
          (or_unexpected os (poll_conn st fds i (c.conns i)) w)
  unfolding poll_conn poll_conn_wait_on_socket poll_conn_do_not_wait_on_socket
  poll_conn-Ends c i listen fds w connection_empty st some_state l watched =
      absurd (some_state refl)
  poll_conn-Ends c i listen fds w send_file_size st some_state l watched =
      set-Watched c i listen _ fds l watched (λ over. let clash = sym st ∙ over in cc)
  poll_conn-Ends c i listen fds w send_data_block st some_state l watched =
      set-Watched c i listen _ fds l watched (λ over. let clash = sym st ∙ over in cc)
  poll_conn-Ends c i listen fds w transfer_finished st some_state l watched =
      set-Watched c i listen _ fds l watched (λ over. refl)

  -- The loop before `poll` never meets a connection that was not accepted.
  pub poll_conns-Ends :
      (left i : ℕ) (c : Clients) (listen : PollFd) (fds : ℕ → PollFd) (w : os.World)
      → ((j : ℕ) → j < c.num_connected → (c.conns j).state ≢ connection_empty)
      → i + left ≡ c.num_connected
      → Watched c i listen fds
      → Ends E (λ fds' v. Watched c c.num_connected listen fds') (poll_conns os left i c fds w)
  unfolding poll_conns
  poll_conns-Ends zero i c listen fds w used n watched =
      let same : i ≡ c.num_connected = omega (arith, n) in
      subst (λ k. Watched c k listen fds) same watched
  poll_conns-Ends (suc left) i c listen fds w used n watched =
      bind-Ends E (λ fds' v. Watched c (i + 1) listen fds')
        (λ fds' v. Watched c c.num_connected listen fds')
        (or_unexpected os (poll_conn (c.conns i).state fds i (c.conns i)))
        (λ fds'. poll_conns os left (i + 1) c fds') w
        (poll_conn-Ends c i listen fds w (c.conns i).state refl (used i (omega (arith, n)))
          (omega (arith, n)) watched)
        (λ fds' v watched'.
          poll_conns-Ends left (i + 1) c listen fds' v used (omega (arith, n)) watched')

-- An entry reports nothing, or its connection's transfer goes on.
abbrev pub Ready : Clients → (ℕ → PollFd) → (from : ℕ) → Type 0
Ready c fds from =
    (j : ℕ) → from ≤ j → ((fds (1 + j)).revents ≡ no_events) ⊎ (is_active (c.conns j).state ≡ true)

finished_or_active :
    (st : TransferState) → st ≢ connection_empty → (st ≡ transfer_finished) ⊎ (is_active st ≡ true)
finished_or_active connection_empty some_state = absurd (some_state refl)
finished_or_active send_file_size some_state = inr refl
finished_or_active send_data_block some_state = inr refl
finished_or_active transfer_finished some_state = inl refl

module _ (os : Posix) (works : PollWorks os) where
  pub polled-Ready :
      (c : Clients) (listen : PollFd) (fds polled : ℕ → PollFd) (w : os.World)
      → ((j : ℕ) → j < c.num_connected → (c.conns j).state ≢ connection_empty)
      → Watched c c.num_connected listen fds
      → (os.poll fds (1 + c.num_connected) w).0 ≡ some polled
      → Ready c polled 0 × QuietBeyond c.num_connected polled
  polled-Ready c listen fds polled w used watched e = (ready, beyond)
    where
      beyond : QuietBeyond c.num_connected polled
      beyond j from =
          ap (λ (p : PollFd). p.revents)
            (works.beyond fds polled (1 + c.num_connected) w e (1 + j) (omega (arith, from)))
          ∙ watched.beyond j from

      ready : Ready c polled 0
      ready j from = elim (dec_lt j c.num_connected) [
        | yes l ↦ elim (finished_or_active (c.conns j).state (used j l)) [
          | inl over ↦ inl (
              works.silent fds polled (1 + c.num_connected) w e (1 + j) (omega (arith, l))
                (watched.finished j l over))
          | inr active ↦ inr active
        ]
        | no ge ↦ inl (beyond j (omega (arith, ge)))
      ]
