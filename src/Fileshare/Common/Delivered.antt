-- ===== src/Fileshare/Common/Delivered.antt =====
-- What a client of server-simple.c or of server-thread-pool.c gets over a connection and from a file
-- without errors.
use networking_howto.Prelude.{
  ℕ, zero, suc, ◌+◌, ◌≤◌, ◌<◌, ◌≡◌, ◌^◌, true, false, not, ◌&&◌, some, List, ◌++◌, length, take,
  drop, take-all, length-take, length-drop, ◌==◌, ==_iff, ltb, ltb→lt, lt→ltb, Bool-cases, inl, inr,
  arith, refl, sym, ap, ◌∙◌, subst, u64,
}
use mathlib.Core.List.{append-nil}
use networking_howto.Prelude.Program.{pure, or_exit}
use networking_howto.Prelude.Ends.{Ends, bind-Ends, or_exit-Ends}
use networking_howto.Fileshare.Posix.{Posix, Fd}
use networking_howto.Fileshare.Laws.{Laws}
use networking_howto.Fileshare.Bytes.{bytes_of_u64, htobe64}
use networking_howto.Fileshare.Multiplexing.{FileshareServer, transfer_block_size}
use networking_howto.Fileshare.Multiplexing.Message.{header, length-header, join}
use networking_howto.Fileshare.Common.{
  FileshareConnection, LoopEnd, sent_all, Failed, server_send_file_size, server_send_file_block,
  server_close_conn_socket, send_blocks, finish, serve_client,
}

-- Writes take all bytes, reads and closes do not fail, and a close takes back nothing.
pub record NoErrors (os : Posix) (laws : Laws os) : Type 0 where
  pub write_all :
      (fd : Fd) (buf : List ℕ) (w : os.World) → (os.write fd buf w).0 ≡ some (length buf)
  pub pread_works :
      (fd : Fd) (count offset : ℕ) (w : os.World)
      → (got : List ℕ) × ((os.pread fd count offset w).0 ≡ some got)
  pub close_works : (fd : Fd) (w : os.World) → (os.close fd w).0 ≡ true
  pub close_keeps :
      (fd other : Fd) (w : os.World) → laws.sent (os.close fd w).1 other ≡ laws.sent w other

eq-true : (a : ℕ) → (a == a) ≡ true
eq-true a = (==_iff a a).1 refl

no_bytes : (n offset size : ℕ) → 0 < n → (n == 0 && not (offset == size)) ≡ false
no_bytes n offset size some_bytes = ground arith

module _ (os : Posix) (laws : Laws os) (works : NoErrors os laws) (server : FileshareServer)
    (fd : Fd) (before file : List ℕ) (known : server.src_file_size ≡ length file)
    (small : length file < 2 ^ 63) where
  open laws use {sent, content}

  -- The socket has taken the size and the bytes before the offset.
  record Sending (conn : FileshareConnection) (w : os.World) : Type 0 where
    socket : conn.client_sock_fd ≡ fd
    below : conn.src_file_offset ≤ length file
    source : content w server.src_file_fd ≡ file
    so_far : sent w fd ≡ before ++ (header server ++ take conn.src_file_offset file)

  moved : FileshareConnection → ℕ → FileshareConnection
  moved conn n = record conn { src_file_offset = u64 (conn.src_file_offset + n) }

  -- The call of `server_send_file_block` while there are bytes to send.
  record Block (conn : FileshareConnection) (w : os.World) : Type 0 where
    next : FileshareConnection
    world : os.World
    result : server_send_file_block os server conn w ≡ ((true, next), world)
    sending : Sending next world
    further : conn.src_file_offset < next.src_file_offset

  block_is :
      (conn : FileshareConnection) (w : os.World) (got : List ℕ)
      → let r = os.pread server.src_file_fd transfer_block_size conn.src_file_offset w in
        let s = os.write conn.client_sock_fd got r.1 in
        r.0 ≡ some got
        → 0 < length got
        → s.0 ≡ some (length got)
        → server_send_file_block os server conn w ≡ ((true, moved conn (length got)), s.1)
  unfolding server_send_file_block moved
  block_is conn w got e some_bytes all =
      rw
        (
          e,
          no_bytes (length got) conn.src_file_offset server.src_file_size some_bytes,
          all,
          eq-true (length got),
        )
        refl

  block :
      (conn : FileshareConnection) (w : os.World)
      → Sending conn w
      → conn.src_file_offset < length file
      → Block conn w
  unfolding moved
  block conn w at more =
      let off = conn.src_file_offset in
      let (got, e) = works.pread_works server.src_file_fd transfer_block_size off w in
      let w1 : os.World = (os.pread server.src_file_fd transfer_block_size off w).1 in
      let read = laws.pread_some server.src_file_fd transfer_block_size off w got e in
      let bytes : got ≡ take (length got) (drop off file) =
        read.1 ∙ ap (λ f. take (length got) (drop off f)) at.source in
      let len = ap length bytes ∙ length-take (length got) (drop off file) in
      let rest = length-drop off file in
      let fits : off + length got ≤ length file = omega (arith, len, rest, more) in
      let at_end = read.2 (omega arith) in
      let whole = ap length at.source in
      let some_bytes : 0 < length got = elim (Bool-cases (length got == 0)) [
        | inl zero_bytes ↦
            let stop = at_end ((==_iff (length got) 0).0 zero_bytes) in
            absurd (omega (arith, stop, whole, more))
        | inr not_zero ↦
            let ne : ¬ (length got ≡ 0) = λ z. let is = (==_iff (length got) 0).1 z in cc in
            omega (arith, ne)
      ] in
      let all = works.write_all conn.client_sock_fd got w1 in
      let w2 : os.World = (os.write conn.client_sock_fd got w1).1 in
      let next : u64 (off + length got) ≡ off + length got = omega (arith, fits, small) in
      let taken : sent w2 fd ≡ sent w1 fd ++ take (length got) got =
        subst (λ f. sent (os.write f got w1).1 fd ≡ sent w1 fd ++ take (length got) got)
          (sym at.socket) (laws.write_some fd got w1 (length got) (works.write_all fd got w1)).1 in
      record {
        next = moved conn (length got);
        world = w2;
        result = block_is conn w got e some_bytes all;
        sending = record {
          socket = at.socket;
          below = rw next fits;
          source =
              laws.write_keeps conn.client_sock_fd got w1 server.src_file_fd
              ∙ (laws.pread_keeps server.src_file_fd transfer_block_size off w server.src_file_fd).1
              ∙ at.source;
          so_far =
              taken
              ∙ ap (λ l. sent w1 fd ++ l) (take-all (length got) got (omega arith) ∙ bytes)
              ∙ ap (λ l. l ++ take (length got) (drop off file))
                  ((laws.pread_keeps server.src_file_fd transfer_block_size off w fd).0 ∙ at.so_far)
              ∙ join before (header server) file off (length got)
              ∙ ap (λ n. before ++ (header server ++ take n file)) (sym next);
        };
        further = rw next (omega (arith, some_bytes));
      }

  -- The end of the loop, with everything sent.
  abbrev Delivered : LoopEnd × FileshareConnection → os.World → Type 0
  Delivered e w = (e.0 ≡ sent_all) × (sent w fd ≡ before ++ (header server ++ file))

  -- One round more than there are bytes left is enough.
  loop-Delivered :
      (failed : Failed os) (rounds : ℕ) (conn : FileshareConnection) (w : os.World)
      → Sending conn w
      → length file < conn.src_file_offset + rounds
      → Ends ⊥ Delivered (send_blocks os rounds failed server conn w)
  unfolding send_blocks
  loop-Delivered failed zero conn w at enough =
      let below = at.below in absurd (omega (arith, below, enough))
  loop-Delivered failed (suc rounds) conn w at enough =
      elim (Bool-cases (ltb conn.src_file_offset server.src_file_size)) [
        | inl more ↦
            let less = ltb→lt conn.src_file_offset server.src_file_size more in
            let b = block conn w at (omega (arith, less, known)) in
            let further = b.further in
            rw (more, b.result)
              (loop-Delivered failed rounds b.next b.world b.sending
                (omega (arith, further, enough)))
        | inr all ↦
            let below = at.below in
            let not_less : ¬ (conn.src_file_offset < server.src_file_size) =
              λ l. let less = lt→ltb conn.src_file_offset server.src_file_size l in cc in
            let whole : take conn.src_file_offset file ≡ file =
              take-all conn.src_file_offset file (omega (arith, not_less, known)) in
            rw all (refl, at.so_far ∙ ap (λ l. before ++ (header server ++ l)) whole)
      ]

  close-Delivered :
      (conn : FileshareConnection) (w : os.World)
      → sent w fd ≡ before ++ (header server ++ file)
      → Ends ⊥ Delivered (finish os (sent_all, conn) w)
  unfolding server_close_conn_socket
  close-Delivered conn w all =
      bind-Ends ⊥ _ Delivered (or_exit (os.close conn.client_sock_fd)) (λ a. pure (sent_all, conn))
        w
        (or_exit-Ends ⊥ (os.close conn.client_sock_fd) w
          (λ e. let works_here = works.close_works conn.client_sock_fd w in cc))
        (λ a v r. (
          refl,
          subst (λ v'. sent v' fd ≡ before ++ (header server ++ file)) (sym r.1)
              (works.close_keeps conn.client_sock_fd fd w ∙ all),
        ))

  finish-Delivered :
      (e : LoopEnd × FileshareConnection) (w : os.World)
      → Delivered e w
      → Ends ⊥ Delivered (finish os e w)
  finish-Delivered (end, conn) w at =
      subst (λ k. Ends ⊥ Delivered (finish os (k, conn) w)) (sym at.0) (close-Delivered conn w at.1)

  -- The header has been sent, and the loop is to begin.
  size_is :
      (conn : FileshareConnection) (w : os.World)
      → server_send_file_size os server conn w ≡ (
        (true, record conn { src_file_offset = 0 }),
        (os.write conn.client_sock_fd (header server) w).1,
      )
  unfolding server_send_file_size header
  size_is conn w =
      let eight : length (bytes_of_u64 (htobe64 server.src_file_size)) ≡ 8 = length-header server in
      rw
        (works.write_all conn.client_sock_fd (bytes_of_u64 (htobe64 server.src_file_size)) w, eight)
        refl

  begins :
      (conn : FileshareConnection) (w : os.World)
      → conn.client_sock_fd ≡ fd
      → content w server.src_file_fd ≡ file
      → sent w fd ≡ before
      → Sending
          (record conn { src_file_offset = 0 })
          (os.write conn.client_sock_fd (header server) w).1
  begins conn w socket source fresh =
      let taken =
        subst
          (λ f.
            sent (os.write f (header server) w).1 fd
            ≡ sent w fd ++ take (length (header server)) (header server))
          (sym socket)
          (laws.write_some fd (header server) w (length (header server))
            (works.write_all fd (header server) w)).1 in
      record {
        socket = socket;
        below = omega arith;
        source = laws.write_keeps conn.client_sock_fd (header server) w server.src_file_fd ∙ source;
        so_far =
            taken
            ∙ ap (λ l. sent w fd ++ l)
                (take-all (length (header server)) (header server) (omega arith))
            ∙ ap (λ l. l ++ header server) fresh
            ∙ ap (λ l. before ++ l) (sym (append-nil (header server)));
      }

  serve-Delivered :
      (failed : Failed os) (rounds : ℕ) (conn : FileshareConnection) (w : os.World)
      → conn.client_sock_fd ≡ fd
      → content w server.src_file_fd ≡ file
      → sent w fd ≡ before
      → length file < rounds
      → Ends ⊥ Delivered (serve_client os rounds failed server conn w)
  unfolding serve_client
  serve-Delivered failed rounds conn w socket source fresh enough = rw (size_is conn w) (
      bind-Ends ⊥ Delivered Delivered
        (send_blocks os rounds failed server (record conn { src_file_offset = 0 })) (finish os)
        (os.write conn.client_sock_fd (header server) w).1
        (loop-Delivered failed rounds (record conn { src_file_offset = 0 })
          (os.write conn.client_sock_fd (header server) w).1 (begins conn w socket source fresh)
          (omega (arith, enough)))
        (λ e v at. finish-Delivered e v at))

-- Over a connection and from a file without errors, both servers serve a client to the end, in one
-- round of the loop more than the file has bytes, and no exit: the socket has then taken the size of
-- the file and the file, after what it had taken, and nothing else. (`failed` is what either server
-- does after an error.) The file has fewer than 2^63 bytes, and the server knows its size.
pub client_is_served :
    (os : Posix) (laws : Laws os) (works : NoErrors os laws) (failed : Failed os) (rounds : ℕ)
    (server : FileshareServer) (conn : FileshareConnection) (w : os.World)
    → let fd = conn.client_sock_fd in
      let file = laws.content w server.src_file_fd in
      server.src_file_size ≡ length file
      → length file < 2 ^ 63
      → length file < rounds
      → Ends ⊥
          (λ e v. (e.0 ≡ sent_all) × (laws.sent v fd ≡ laws.sent w fd ++ (header server ++ file)))
          (serve_client os rounds failed server conn w)
client_is_served os laws works failed rounds server conn w known small enough =
    serve-Delivered os laws works server conn.client_sock_fd (laws.sent w conn.client_sock_fd)
      (laws.content w server.src_file_fd) known small failed rounds conn w refl refl refl enough
