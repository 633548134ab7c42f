-- ===== src/Fileshare/Multiplexing/Delivery.antt =====
-- What a client of a multiplexing server receives, whatever the other clients do in between.
use networking_howto.Prelude.{
  ℕ, ◌+◌, [], arith, ◌<◌, ◌≡◌, ◌^◌, Bool, some, List, ◌++◌, length, StartsWith, StartsWith-front,
  refl, sym, ◌∙◌, ap, subst,
}
use mathlib.Core.Option.{some-injective}
use mathlib.Core.List.{append-nil, append_assoc}
use networking_howto.Fileshare.Posix.{Posix, Fd}
use networking_howto.Fileshare.Laws.{Laws}
use networking_howto.Fileshare.Multiplexing.Header.{
  CutShort, never, append-CutShort, cut_at, server_send_file_size-Step,
}
use networking_howto.Fileshare.Multiplexing.{
  FileshareServer, FileshareConnection, TransferState, connection_empty, send_file_size,
  send_data_block, transfer_finished, send_next, send_at,
}
use networking_howto.Fileshare.Multiplexing.History.{History, accepted, turn, others, cuts}
use networking_howto.Fileshare.Multiplexing.Message.{header, part_of_message}
use networking_howto.Fileshare.Multiplexing.Transfer.{Progress, Step, server_send_file_block-Step}

module _ (os : Posix) (laws : Laws os) (server : FileshareServer) where
  open laws use {sent, content}

  record Told (m : ℕ) (before file : List ℕ) (fd : Fd) (c : FileshareConnection) (v : os.World)
      : Type 0 where
    same_fd : c.client_sock_fd ≡ fd
    same_file : content v server.src_file_fd ≡ file
    left : List ℕ
    cut : CutShort (header server) m left
    progress : Progress os laws server (before ++ left) file c v c.state

  module _ (before file : List ℕ) (fd : Fd) (same_size : server.src_file_size ≡ length file)
      (small : server.src_file_size < 2 ^ 63) where
    -- A call by which the size is cut short `k` times more.
    abbrev Sent :
        ℕ
        → (before : List ℕ) (c : FileshareConnection) (v : os.World)
        → (Bool × FileshareConnection) × os.World
        → Type 0
    Sent k b c v r =
        (more : List ℕ) × CutShort (header server) k more × Step os laws server (b ++ more) c v r

    after :
        {m : ℕ} (k : ℕ) {c : FileshareConnection} {v : os.World}
        {r : (Bool × FileshareConnection) × os.World} (t : Told m before file fd c v)
        → Sent k (before ++ t.left) c v r
        → Told (k + m) before file fd r.0.1 r.1
    after k {r = r} t (more, cut, s) = record {
      same_fd = s.same_fd ∙ t.same_fd;
      same_file = s.same_file ∙ t.same_file;
      left = t.left ++ more;
      cut = append-CutShort t.cut cut;
      progress =
          subst (λ b. Progress os laws server b file r.0.1 r.1 r.0.1.state)
            (append_assoc before t.left more)
            (subst
              (λ f. Progress os laws server ((before ++ t.left) ++ more) f r.0.1 r.1 r.0.1.state)
              t.same_file s.progress);
    }

    -- A call that cannot cut the size short.
    plain :
        {b : List ℕ} {c : FileshareConnection} {v : os.World}
        {r : (Bool × FileshareConnection) × os.World}
        → Step os laws server b c v r
        → Sent 0 b c v r
    plain {b} {c} {v} {r} s =
        ([], never, subst (λ x. Step os laws server x c v r) (sym (append-nil b)) s)

    at_state :
        {m : ℕ} {c : FileshareConnection} {v : os.World} {st : TransferState}
        (t : Told m before file fd c v)
        → c.state ≡ st
        → Progress os laws server (before ++ t.left) (content v server.src_file_fd) c v st
    at_state {c = c} {v = v} {st = st} t e =
        subst (λ f. Progress os laws server (before ++ t.left) f c v st) (sym t.same_file)
          (subst (Progress os laws server (before ++ t.left) file c v) e t.progress)

    file_size :
        {m : ℕ} {c : FileshareConnection} {v : os.World}
        → Told m before file fd c v
        → server.src_file_size ≡ length (content v server.src_file_fd)
    file_size t = same_size ∙ sym (ap length t.same_file)

    by_state :
        (c : FileshareConnection) (v : os.World) {st : TransferState}
        {r : (Bool × FileshareConnection) × os.World}
        → c.state ≡ st
        → send_next os server c v ≡ some r
        → send_at os st server c v ≡ some r
    by_state c v {r = r} st e = subst (λ s. send_at os s server c v ≡ some r) st e

    turn-Told :
        {m : ℕ} (c : FileshareConnection) (v : os.World) (st : TransferState)
        → c.state ≡ st
        → Told m before file fd c v
        → (r : (Bool × FileshareConnection) × os.World) → send_next os server c v ≡ some r
        → Told (cut_at os server c v st + m) before file fd r.0.1 r.1
    unfolding send_at cut_at
    turn-Told {m} c v connection_empty st t r e = absurd (at_state t st)
    turn-Told {m} c v send_file_size st t r e =
        let k = cut_at os server c v send_file_size in
        subst (λ q. Told (k + m) before file fd q.0.1 q.1) (some-injective _ _ (by_state c v st e))
          (after k t (
            server_send_file_size-Step os laws server (before ++ t.left) c v (file_size t) small st
              (at_state t st)))
    turn-Told {m} c v send_data_block st t r e =
        subst (λ q. Told (0 + m) before file fd q.0.1 q.1) (some-injective _ _ (by_state c v st e))
          (after 0 t (
            plain (
              server_send_file_block-Step os laws server (before ++ t.left) c v (file_size t) small
                st (at_state t st))))
    turn-Told {m} c v transfer_finished st t r e =
        subst (λ q. Told (0 + m) before file fd q.0.1 q.1) (some-injective _ _ (by_state c v st e))
          (subst (λ k. Told k before file fd c v) (omega arith) t)

    others-Progress :
        (b : List ℕ) (c : FileshareConnection) (v v' : os.World) (st : TransferState)
        → sent v' c.client_sock_fd ≡ sent v c.client_sock_fd
        → Progress os laws server b file c v st
        → Progress os laws server b file c v' st
    others-Progress b c v v' connection_empty e p = p
    others-Progress b c v v' send_file_size e p = e ∙ p
    others-Progress b c v v' send_data_block e p = (p.0, e ∙ p.1)
    others-Progress b c v v' transfer_finished e p = rw e p

    History-Told :
        {conn : FileshareConnection} {w : os.World} {c : FileshareConnection} {v : os.World}
        → Told 0 before file fd conn w
        → (h : History os laws server conn w c v) → Told (cuts os laws server h) before file fd c v
    unfolding cuts
    History-Told t accepted = t
    History-Told t (turn {c} {c'} {v} {v'} ok h e) =
        turn-Told c v c.state refl (History-Told t h) ((ok, c'), v') e
    History-Told t (others {c} {v} v' h e f) =
        let t' = History-Told t h in
        record {
          same_fd = t'.same_fd;
          same_file = f ∙ t'.same_file;
          left = t'.left;
          cut = t'.cut;
          progress = others-Progress (before ++ t'.left) c v v' c.state e t'.progress;
        }

    received :
        (b : List ℕ) (c : FileshareConnection) (v : os.World) (st : TransferState)
        → Progress os laws server b file c v st
        → StartsWith (b ++ (header server ++ file)) (sent v c.client_sock_fd)
    received b c v connection_empty p = absurd p
    received b c v send_file_size p = rw p (StartsWith-front b (header server ++ file))
    received b c v send_data_block p =
        rw p.1 (part_of_message b (header server) file c.src_file_offset)
    received b c v transfer_finished p = p

-- At every moment of a transfer, whatever happens to the other clients, the socket of a client has
-- taken, behind one proper beginning of the eight bytes of the size for each write of the size that was
-- cut short with an old EAGAIN in `errno`, a beginning of the message: the eight bytes of the size of
-- the file, then the file. The offset of the connection counts exactly the bytes of the file that have
-- gone out, as long as blocks are being sent. The size that the server asked for is that of the file,
-- which is shorter than 2^63 bytes.
pub client_gets_message :
    (os : Posix) (laws : Laws os) (server : FileshareServer) (conn c : FileshareConnection)
    (w v : os.World)
    → server.src_file_size ≡ length (laws.content w server.src_file_fd)
    → server.src_file_size < 2 ^ 63
    → conn.state ≡ send_file_size
    → (h : History os laws server conn w c v)
    → let file = laws.content w server.src_file_fd in
      let before = laws.sent w conn.client_sock_fd in
      (left : List ℕ) × CutShort (header server) (cuts os laws server h) left
      × StartsWith ((before ++ left) ++ (header server ++ file)) (laws.sent v conn.client_sock_fd)
      × Progress os laws server (before ++ left) file c v c.state
client_gets_message os laws server conn c w v size small st h =
    let before = laws.sent w conn.client_sock_fd in
    let file = laws.content w server.src_file_fd in
    let t : Told os laws server 0 before file conn.client_sock_fd conn w = record {
      same_fd = refl;
      same_file = refl;
      left = [];
      cut = never;
      progress =
          subst (Progress os laws server (before ++ []) file conn w) (sym st)
            (sym (append-nil before));
    } in
    let end = History-Told os laws server before file conn.client_sock_fd size small t h in
    (
      end.left,
      end.cut,
      subst (λ fd. StartsWith ((before ++ end.left) ++ (header server ++ file)) (laws.sent v fd))
          end.same_fd
          (received os laws server before file conn.client_sock_fd size small (before ++ end.left) c
            v c.state end.progress),
      end.progress,
    )
