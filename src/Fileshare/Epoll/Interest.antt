-- ===== src/Fileshare/Epoll/Interest.antt =====
-- The interest list of `epoll`: what its documentation says of it, and what the loop keeps of it.
use networking_howto.Prelude.{
  ℕ, ◌+◌, ◌<◌, ◌≡◌, ◌≢◌, ◌⊎◌, true, some, List, [], ◌∷◌, arith, sym, ap, ◌∙◌, ℕ_discrete,
}
use networking_howto.Fileshare.Posix.{Posix, Fd, SockOpt, EpollEvent}
use networking_howto.Fileshare.Multiplexing.{FileshareServer, FileshareConnection}
use networking_howto.Fileshare.Multiplexing.Transfer.{is_active}
use networking_howto.Fileshare.EventLoop.{Clients}
use networking_howto.Fileshare.EventLoop.Frame.{Frame}
use networking_howto.Fileshare.EventLoop.Table.{ChangedAt}
use networking_howto.Fileshare.EventLoop.Turns.{Accepted}

-- Which descriptors are watched, each under its number.
abbrev pub View : Type 1
View = Fd → ℕ → Type 0

-- `v` has no entry that `u` has not.
abbrev pub NothingNew : View → View → Type 0
NothingNew u v = (fd : Fd) (number : ℕ) → v fd number → u fd number

abbrev pub without : View → Fd → View
without view fd fd' number = (fd' ≢ fd) × view fd' number

-- Each event is of a watched descriptor, and no descriptor has two events.
abbrev pub Reports : View → List EpollEvent → Type 0
Reports view [] = Unit
Reports view (ev ∷ events) = (fd : Fd) × (view fd ev.data_u32) × Reports (without view fd) events

-- What the documentation says of the instance `epollfd`: an addition adds that entry at most, a
-- deletion takes the descriptor out, a wait reports entries, and no other call adds one.
pub record EpollWorks (os : Posix) (epollfd : Fd) : Type 1 where
  pub watching : os.World → View
  pub added :
      (fd : Fd) (ev : EpollEvent) (w : os.World)
      → (os.epoll_ctl_add epollfd fd ev w).0 ≡ true
      → (fd' : Fd) (number : ℕ) → watching (os.epoll_ctl_add epollfd fd ev w).1 fd' number
      → ((fd' ≡ fd) × (number ≡ ev.data_u32)) ⊎ watching w fd' number
  pub deleted :
      (fd : Fd) (w : os.World)
      → (os.epoll_ctl_del epollfd fd w).0 ≡ true
      → NothingNew (without (watching w) fd) (watching (os.epoll_ctl_del epollfd fd w).1)
  pub waited :
      (max_events : ℕ) (w : os.World) (events : List EpollEvent)
      → (os.epoll_wait epollfd max_events w).0 ≡ some events
      → Reports (watching w) events
  pub wait_adds_none :
      (max_events : ℕ) (w : os.World)
      → NothingNew (watching w) (watching (os.epoll_wait epollfd max_events w).1)
  pub write_adds_none :
      (fd : Fd) (buf : List ℕ) (w : os.World)
      → NothingNew (watching w) (watching (os.write fd buf w).1)
  pub pread_adds_none :
      (fd : Fd) (count offset : ℕ) (w : os.World)
      → NothingNew (watching w) (watching (os.pread fd count offset w).1)
  pub accept_adds_none :
      (fd : Fd) (w : os.World) → NothingNew (watching w) (watching (os.accept fd w).1)
  pub setsockopt_adds_none :
      (fd : Fd) (opt : SockOpt) (w : os.World)
      → NothingNew (watching w) (watching (os.setsockopt fd opt w).1)
  pub close_adds_none :
      (fd : Fd) (w : os.World) → NothingNew (watching w) (watching (os.close fd w).1)

abbrev pub interest_frame : {os : Posix} {epollfd : Fd} → EpollWorks os epollfd → Frame os
interest_frame works = record {
  Before = λ u v. NothingNew (works.watching u) (works.watching v);
  same = λ w fd number e. e;
  after = λ u v w p q fd number e. p fd number (q fd number e);
  write = works.write_adds_none;
  pread = works.pread_adds_none;
  accept = works.accept_adds_none;
  setsockopt = works.setsockopt_adds_none;
  close = works.close_adds_none;
}

module _ (server : FileshareServer) where
  -- An entry is the listening socket's, where `L` holds, or that of a connection whose transfer goes
  -- on.
  pub data Entry (L : Type 0) (c : Clients) (fd : Fd) (number : ℕ) : Type 0 where
    listens : number ≡ 0 → L → fd ≡ server.listen_sock_fd → Entry L c fd number
    sends :
        (i : ℕ)
        → number ≡ 1 + i
        → i < c.num_connected
        → is_active (c.conns i).state ≡ true
        → (c.conns i).client_sock_fd ≡ fd
        → Entry L c fd number

  abbrev pub Watches : Type 0 → Clients → View → Type 0
  Watches L c view = (fd : Fd) (number : ℕ) → view fd number → Entry L c fd number

  -- The entries that are not of connection `i`, when connection `i` changes.
  pub others-Entry :
      {L : Type 0} (c c' : Clients) (i : ℕ) (fd : Fd) (number : ℕ)
      → ChangedAt i c c'
      → fd ≢ (c.conns i).client_sock_fd
      → Entry L c fd number
      → Entry L c' fd number
  others-Entry c c' i fd number changed ne (listens zero_number l e) = listens zero_number l e
  others-Entry c c' i fd number changed ne (sends j e l active same) =
      let apart : j ≢ i = λ j_is_i. ne (sym same ∙ ap (λ k. (c.conns k).client_sock_fd) j_is_i) in
      let conn = changed.others j apart in
      let clients = changed.same_clients in
      sends j e (omega (arith, l, clients))
        (ap (λ (d : FileshareConnection). is_active d.state) conn ∙ active)
        (ap (λ (d : FileshareConnection). d.client_sock_fd) conn ∙ same)

  -- All entries, when the transfer of connection `i` goes on.
  pub goes_on-Entry :
      {L : Type 0} (c c' : Clients) (i : ℕ) (fd : Fd) (number : ℕ)
      → ChangedAt i c c'
      → is_active (c'.conns i).state ≡ true
      → (c'.conns i).client_sock_fd ≡ (c.conns i).client_sock_fd
      → Entry L c fd number
      → Entry L c' fd number
  goes_on-Entry c c' i fd number changed active' same_fd (listens zero_number l e) =
      listens zero_number l e
  goes_on-Entry c c' i fd number changed active' same_fd (sends j e l active same) =
      let clients = changed.same_clients in
      let l' : j < c'.num_connected = omega (arith, l, clients) in
      elim (ℕ_discrete j i) [
        | yes here ↦ sends j e l' (ap (λ k. is_active (c'.conns k).state) here ∙ active') (
            ap (λ k. (c'.conns k).client_sock_fd) here
            ∙ same_fd
            ∙ ap (λ k. (c.conns k).client_sock_fd) (sym here)
            ∙ same)
        | no ne ↦
            sends j e l'
              (ap (λ (d : FileshareConnection). is_active d.state) (changed.others j ne) ∙ active)
              (ap (λ (d : FileshareConnection). d.client_sock_fd) (changed.others j ne) ∙ same)
      ]

  -- All entries, when a client is accepted.
  pub accepted-Entry :
      {L L' : Type 0} {max_conns : ℕ} (c c' : Clients) (fd : Fd) (number : ℕ)
      → Accepted max_conns c c'
      → (L → fd ≡ server.listen_sock_fd → L')
      → Entry L c fd number
      → Entry L' c' fd number
  accepted-Entry c c' fd number new listening (listens zero_number l e) =
      listens zero_number (listening l e) e
  accepted-Entry c c' fd number new listening (sends j e l active same) =
      let more = new.one_more in
      let conn = new.others j (λ j_is_new. omega (arith, l, j_is_new)) in
      sends j e (omega (arith, l, more))
        (ap (λ (d : FileshareConnection). is_active d.state) conn ∙ active)
        (ap (λ (d : FileshareConnection). d.client_sock_fd) conn ∙ same)
