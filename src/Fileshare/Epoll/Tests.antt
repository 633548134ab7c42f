-- ===== src/Fileshare/Epoll/Tests.antt =====
-- A small operating system with one listening socket and one client, and the loop of server-epoll.c
-- there.
use networking_howto.Prelude.{
  ℕ, ◌<◌, ◌≡◌, ◌^◌, ◌⊎◌, Bool, true, false, ◌&&◌, ◌==◌, ==_iff, Option, none, some, List, [], ◌∷◌,
  ◌++◌, length, take, drop, arith, refl, sym, ap, ◌∙◌, subst, inl, inr,
}
use mathlib.Core.Option.{some-injective}
use networking_howto.Prelude.Program.{Outcome, done, exit_failure}
use networking_howto.Prelude.Ends.{Ends}
use networking_howto.Fileshare.Posix.{Posix, Fd, EpollEvent}
use networking_howto.Fileshare.Multiplexing.{
  FileshareServer, server_send_file_size, server_send_file_block, send_block, send_at,
}
use networking_howto.Fileshare.Multiplexing.Setup.{
  server_accept_connection_request, server_close_conn_socket, accepted, set_connection_options,
}
use networking_howto.Fileshare.Bytes.{bytes_of_u64, htobe64}
use networking_howto.Fileshare.EventLoop.{Clients, accept_client, write_conn}
use networking_howto.Fileshare.EventLoop.Steps.{Failures}
use networking_howto.Fileshare.EventLoop.Stop.{LoopResult}
use networking_howto.Fileshare.Epoll.{
  pollin_event, epoll_server_wait_for_client, epoll_server_stop_waiting_for_client,
  epoll_conn_wait_on_socket, epoll_conn_stop_waiting_on_socket, epoll_new_client, end_conn,
  end_unless_success, serve_conn_event, serve_event, serve_events, epoll_listen, epoll_clients,
  epoll_loop, epoll_serve,
}
use networking_howto.Fileshare.Epoll.Interest.{View, without, EpollWorks, Reports}
use networking_howto.Fileshare.Epoll.Connection.{EpollFailures}
use networking_howto.Fileshare.Epoll.Round.{epoll_loop_serves}

abbrev file_bytes : List ℕ
file_bytes = 104 ∷ 105 ∷ 10 ∷ []

-- Whether the listening socket, 4, is watched, whether the client's, 5, is, and what was sent.
record Small : Type 0 where
  listening : Bool
  client : Bool
  sent : List ℕ

abbrev watching : Small → View
watching w fd number =
    ((fd ≡ some 4) × (number ≡ 0) × (w.listening ≡ true))
    ⊎ ((fd ≡ some 5) × (number ≡ 1) × (w.client ≡ true))

abbrev add_by : (is_listen is_client : Bool) → Small → Bool × Small
add_by true is_client w = (true, record w { listening = true })
add_by false true w = (true, record w { client = true })
add_by false false w = (false, w)

abbrev add : Fd → ℕ → Small → Bool × Small
add none number w = (false, w)
add (some fd) number w = add_by (fd == 4 && number == 0) (fd == 5 && number == 1) w

abbrev del_by : (is_listen is_client : Bool) → Small → Bool × Small
del_by true is_client w = (true, record w { listening = false })
del_by false true w = (true, record w { client = false })
del_by false false w = (false, w)

abbrev del : Fd → Small → Bool × Small
del none w = (false, w)
del (some fd) w = del_by (fd == 4) (fd == 5) w

abbrev listen_event : EpollEvent
listen_event = record { events = pollin_event; data_u32 = 0 }

abbrev client_event : EpollEvent
client_event = record {
  events = record { pollin = false; pollout = true; pollhup = false };
  data_u32 = 1;
}

abbrev wait : (listening client : Bool) → List EpollEvent
wait true true = listen_event ∷ client_event ∷ []
wait true false = listen_event ∷ []
wait false true = client_event ∷ []
wait false false = []

abbrev epoll_os : Posix
epoll_os = record {
  World = Small;
  errno = λ w. 0;
  received_sigint = λ w. false;
  write = λ fd buf w. (some (length buf), record w { sent = w.sent ++ buf });
  write_beyond = λ fd count w. (none, w);
  read = λ fd count w. (none, w);
  pread = λ fd count offset w. (some (take count (drop offset file_bytes)), w);
  recv = λ fd count waitall w. (none, w);
  pwrite = λ fd buf offset w. (none, w);
  open_read = λ filename w. (some 3, w);
  open_trunc = λ filename w. (none, w);
  fstat = λ fd w. (some 3, w);
  fallocate = λ fd size w. (false, w);
  ftruncate = λ fd size w. (false, w);
  fsync = λ fd w. (false, w);
  close = λ fd w. (true, w);
  sigfillset = λ w. (true, w);
  sigaction = λ w. (true, w);
  socket = λ nonblock w. (some 4, w);
  setsockopt = λ fd opt w. (true, w);
  bind = λ fd port w. (true, w);
  listen = λ fd backlog w. (true, w);
  accept = λ fd w. (some 5, w);
  poll = λ fds nfds w. (none, w);
  epoll_create1 = λ w. (some 6, w);
  epoll_ctl_add = λ epollfd fd event w. add fd event.data_u32 w;
  epoll_ctl_del = λ epollfd fd w. del fd w;
  epoll_wait = λ epollfd max_events w. (some (wait w.listening w.client), w);
}

both_equal : (a b m n : ℕ) → (a == m && b == n) ≡ true → (a ≡ m) × (b ≡ n)
both_equal a b m n e = ground arith

added_entry :
    (fd number : ℕ) (w : Small) (is_listen is_client : Bool)
    → (is_listen ≡ true → (fd ≡ 4) × (number ≡ 0))
    → (is_client ≡ true → (fd ≡ 5) × (number ≡ 1))
    → (add_by is_listen is_client w).0 ≡ true
    → (fd' : Fd) (number' : ℕ) → watching (add_by is_listen is_client w).1 fd' number'
    → ((fd' ≡ some fd) × (number' ≡ number)) ⊎ watching w fd' number'
added_entry fd number w true is_client l c ok fd' number' (inl e) =
    inl (e.0 ∙ ap some (sym (l refl).0), e.1 ∙ sym (l refl).1)
added_entry fd number w true is_client l c ok fd' number' (inr e) = inr (inr e)
added_entry fd number w false true l c ok fd' number' (inl e) = inr (inl e)
added_entry fd number w false true l c ok fd' number' (inr e) =
    inl (e.0 ∙ ap some (sym (c refl).0), e.1 ∙ sym (c refl).1)
added_entry fd number w false false l c ok fd' number' e = inr e

abbrev listen_fd : Fd
listen_fd = some 4

abbrev client_fd : Fd
client_fd = some 5

two_sockets : ¬ (listen_fd ≡ client_fd)
two_sockets e = let same : 4 ≡ 5 = some-injective _ _ e in omega (arith, same)

deleted_entry :
    (fd : ℕ) (w : Small) (is_listen is_client : Bool)
    → (is_listen ≡ true → fd ≡ 4)
    → (is_client ≡ true → fd ≡ 5)
    → (del_by is_listen is_client w).0 ≡ true
    → (fd' : Fd) (number : ℕ) → watching (del_by is_listen is_client w).1 fd' number
    → without (watching w) (some fd) fd' number
deleted_entry fd w true is_client l c ok fd' number (inl e) = let clash : false ≡ true = e.2 in cc
deleted_entry fd w true is_client l c ok fd' number (inr e) =
    (λ same. two_sockets (ap some (sym (l refl)) ∙ sym same ∙ e.0), inr e)
deleted_entry fd w false true l c ok fd' number (inl e) =
    (λ same. two_sockets (sym e.0 ∙ same ∙ ap some (c refl)), inl e)
deleted_entry fd w false true l c ok fd' number (inr e) = let clash : false ≡ true = e.2 in cc
deleted_entry fd w false false l c ok fd' number e = let clash : false ≡ true = ok in cc

reports :
    (w : Small) (listening client : Bool)
    → w.listening ≡ listening
    → w.client ≡ client
    → Reports (watching w) (wait listening client)
reports w true true l c =
    let second : Reports (without (watching w) listen_fd) (client_event ∷ []) =
      (client_fd, (λ same. two_sockets (sym same), inr (refl, refl, c)), tt) in
    (listen_fd, inl (refl, refl, l), second)
reports w true false l c = (some 4, inl (refl, refl, l), tt)
reports w false true l c = (some 5, inr (refl, refl, c), tt)
reports w false false l c = tt

some≢none : {A : Type 0} (a : A) → ¬ (some a ≡ none)
some≢none a e = cc

add_adds :
    (fd : Fd) (number : ℕ) (w : Small)
    → (add fd number w).0 ≡ true
    → (fd' : Fd) (number' : ℕ) → watching (add fd number w).1 fd' number'
    → ((fd' ≡ fd) × (number' ≡ number)) ⊎ watching w fd' number'
add_adds none number w ok fd' number' e = inr e
add_adds (some n) number w ok fd' number' e =
    added_entry n number w (n == 4 && number == 0) (n == 5 && number == 1) (both_equal n number 4 0)
      (both_equal n number 5 1) ok fd' number' e

del_takes :
    (fd : Fd) (w : Small)
    → (del fd w).0 ≡ true
    → (fd' : Fd) (number : ℕ) → watching (del fd w).1 fd' number
    → without (watching w) fd fd' number
del_takes none w ok fd' number e = let clash : false ≡ true = ok in cc
del_takes (some n) w ok fd' number e =
    deleted_entry n w (n == 4) (n == 5) (==_iff n 4).0 (==_iff n 5).0 ok fd' number e

abbrev epoll_os-EpollWorks : EpollWorks epoll_os (some 6)
epoll_os-EpollWorks = record {
  watching = watching;
  added = λ fd ev w. add_adds fd ev.data_u32 w;
  deleted = λ fd w. del_takes fd w;
  waited = λ max_events w events e.
      subst (Reports (watching w)) (some-injective _ _ e)
        (reports w w.listening w.client refl refl);
  wait_adds_none = λ max_events w fd number e. e;
  write_adds_none = λ fd buf w fd' number e. e;
  pread_adds_none = λ fd count offset w fd' number e. e;
  accept_adds_none = λ fd w fd' number e. e;
  setsockopt_adds_none = λ fd opt w fd' number e. e;
  close_adds_none = λ fd w fd' number e. e;
}

-- A call on the instance fails for a descriptor that is neither of the two.
abbrev CallFails : Type 0
CallFails = Unit

epoll_os-EpollFailures : EpollFailures epoll_os (some 6) CallFails
epoll_os-EpollFailures = record {
  add_fails = λ fd ev w e. tt;
  del_fails = λ fd w e. tt;
  wait_fails = λ max_events w e. tt;
}

epoll_os-Failures : Failures epoll_os CallFails
epoll_os-Failures = record {
  close_fails = λ fd w e. tt;
  setsockopt_fails = λ fd opt w e. tt;
  accept_fails = λ fd w e. tt;
}

abbrev server : FileshareServer
server = record { src_file_fd = some 3; src_file_size = 3; listen_sock_fd = some 4 }

abbrev nothing_watched : Small
nothing_watched = record { listening = false; client = false; sent = [] }

watches_nothing : (fd : Fd) (number : ℕ) → ¬ (watching nothing_watched fd number)
watches_nothing fd number (inl e) = let clash : false ≡ true = e.2 in cc
watches_nothing fd number (inr e) = let clash : false ≡ true = e.2 in cc

one_client : 1 < 2 ^ 32
one_client = omega arith

epoll_loop_serves_example :
    Ends CallFails
      (LoopResult epoll_os 1)
      (epoll_serve epoll_os (some 6) 5 1 server nothing_watched)
epoll_loop_serves_example =
    epoll_loop_serves epoll_os (some 6) CallFails epoll_os-Failures epoll_os-EpollFailures
      epoll_os-EpollWorks 1 one_client server 5 nothing_watched watches_nothing

-- Whether a loop has ended, its active and connected clients, and what was sent.
abbrev ended : Outcome Small (Bool × Clients) → Option (Bool × ℕ × ℕ × List ℕ)
ended (done r w) = some (r.0, r.1.num_active, r.1.num_connected, w.sent)
ended (exit_failure w) = none

-- One client: the loop ends in its fourth round, and the client has the size and the file.
serves_one_client :
    ended (epoll_serve epoll_os (some 6) 5 1 server nothing_watched)
    ≡ some (true, 0, 1, 0 ∷ 0 ∷ 0 ∷ 0 ∷ 0 ∷ 0 ∷ 0 ∷ 3 ∷ file_bytes)
unfolding epoll_serve epoll_loop epoll_clients epoll_listen serve_events serve_event
    serve_conn_event end_unless_success end_conn epoll_new_client epoll_conn_stop_waiting_on_socket
    epoll_conn_wait_on_socket epoll_server_stop_waiting_for_client epoll_server_wait_for_client
    accept_client write_conn server_send_file_size server_send_file_block send_block send_at
    server_accept_connection_request server_close_conn_socket accepted set_connection_options
    bytes_of_u64 htobe64
serves_one_client = refl
