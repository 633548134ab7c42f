-- ===== src/Fileshare/Multiplexing/Header.antt =====
-- The size of the file that a multiplexing server sends first, and what is left of it when a write takes
-- only part of its eight bytes.
use networking_howto.Prelude.{
  ℕ, suc, ◌+◌, ◌-◌, ◌<◌, ◌≤◌, ◌≡◌, ◌^◌, inl, inr, Bool, true, false, not, ◌&&◌, Option, none, some,
  List, [], ◌++◌, length, take, take-all, arith, refl, sym, ap, ◌∙◌, subst, ◌==◌, Bool-cases,
  ==_iff, ◌⊎◌, Option-cases, if◌then◌else◌,
}
use mathlib.Core.List.{append-nil, append_assoc}
use networking_howto.Fileshare.Posix.{Posix, eagain}
use networking_howto.Fileshare.Bytes.{bytes_of_u64, htobe64, length-bytes_of_u64}
use networking_howto.Fileshare.Laws.{Laws}
use networking_howto.Fileshare.Multiplexing.Message.{header, part_of_header}
use networking_howto.Fileshare.Multiplexing.Transfer.{is_active, Progress, Step, gives_up}
use networking_howto.Fileshare.Multiplexing.{
  FileshareServer, FileshareConnection, TransferState, connection_empty, send_file_size,
  send_data_block, transfer_finished, server_send_file_size, size_of,
}

-- What `m` writes of `front` leave that were cut short: for each, a proper beginning of it.
pub data CutShort (front : List ℕ) : ℕ → List ℕ → Type 0 where
  never : CutShort front 0 []
  once_more :
      {m : ℕ} {left : List ℕ} (k : ℕ)
      → k < length front
      → CutShort front m left
      → CutShort front (suc m) (left ++ take k front)

pub append-CutShort :
    {front : List ℕ} {m m' : ℕ} {left left' : List ℕ}
    → CutShort front m left
    → CutShort front m' left'
    → CutShort front (m' + m) (left ++ left')
append-CutShort {front} {m} {left} before never =
    subst (CutShort front (0 + m)) (sym (append-nil left))
      (subst (λ k. CutShort front k left) (omega arith) before)
append-CutShort {front} {m} {left} before (once_more {m = m'} {left = left'} k small after) =
    subst (λ n. CutShort front n (left ++ (left' ++ take k front))) (omega arith)
      (subst (CutShort front (suc (m' + m))) (append_assoc left left' (take k front))
        (once_more k small (append-CutShort before after)))

pub CutShort-none :
    {front : List ℕ} {m : ℕ} {left : List ℕ} → CutShort front m left → m ≡ 0 → left ≡ []
CutShort-none never e = refl
CutShort-none (once_more k small before) e = absurd (omega (arith, e))

-- Whether a write of the size takes only part of it while `errno` is EAGAIN from an earlier call: the
-- case in which the size is sent again from its first byte.
unfoldable pub is_cut : (os : Posix) → FileshareServer → FileshareConnection → os.World → Bool
is_cut os server conn w =
    let r = os.write conn.client_sock_fd (bytes_of_u64 (htobe64 server.src_file_size)) w in
    not (size_of r.0 == 8) && ((os.errno r.1 == eagain) && not (size_of r.0 == 2 ^ 64 - 1))

unfoldable pub cut_at :
    (os : Posix) → FileshareServer → FileshareConnection → os.World → TransferState → ℕ
cut_at os server c v connection_empty = 0
cut_at os server c v send_file_size = if is_cut os server c v then 1 else 0
cut_at os server c v send_data_block = 0
cut_at os server c v transfer_finished = 0

module _ (os : Posix) (laws : Laws os) (server : FileshareServer) (before : List ℕ)
    (conn : FileshareConnection) (w : os.World)
    (same_size : server.src_file_size ≡ length (laws.content w server.src_file_fd))
    (small : server.src_file_size < 2 ^ 63) where
  open laws use {sent, content}

  abbrev size_buf : List ℕ
  size_buf = bytes_of_u64 (htobe64 server.src_file_size)

  abbrev written : Option ℕ × os.World
  written = os.write conn.client_sock_fd size_buf w

  -- How much of the size the socket has taken.
  record WroteHeader (r : Option ℕ × os.World) : Type 0 where
    count : ℕ
    told : sent r.1 conn.client_sock_fd ≡ before ++ take count size_buf
    result : (r.0 ≡ some count) × (count ≤ 8) ⊎ ((r.0 ≡ none) × (count ≡ 0))

  wrote_header : sent w conn.client_sock_fd ≡ before → WroteHeader written
  wrote_header told = elim (Option-cases written.0) [
    | inl failed ↦ record {
      count = 0;
      told = laws.write_none conn.client_sock_fd size_buf w failed ∙ told ∙ sym (append-nil before);
      result = inr (failed, refl);
    }
    | inr (n, wrote) ↦
        let law = laws.write_some conn.client_sock_fd size_buf w n wrote in
        let eight = length-bytes_of_u64 (htobe64 server.src_file_size) in
        let fits = law.0 in
        record {
          count = n;
          told = law.1 ∙ ap (λ t. t ++ take n size_buf) told;
          result = inl (wrote, omega (arith, fits, eight));
        }
  ]

  -- All eight bytes went out.
  whole_header :
      (h : WroteHeader written)
      → (size_of written.0 == 8) ≡ true
      → sent written.1 conn.client_sock_fd ≡ before ++ (size_buf ++ [])
  whole_header h all = elim h.result [
    | inl (wrote, le) ↦
        let eight : h.count ≡ 8 =
          (==_iff h.count 8).0 (ap (λ r. size_of r == 8) (sym wrote) ∙ all) in
        h.told
        ∙ ap (λ t. before ++ t)
            (take-all h.count size_buf
                (omega (arith, eight, length-bytes_of_u64 (htobe64 server.src_file_size)))
              ∙ sym (append-nil size_buf))
    | inr failed ↦
        let bad : false ≡ true = ap (λ r. size_of r == 8) (sym failed.0) ∙ all in absurd (cc)
  ]

  -- The call is made again: nothing went out, or the size was cut short.
  abbrev Repeated : Type 0
  Repeated =
      (left : List ℕ) × CutShort size_buf (if is_cut os server conn w then 1 else 0) left
      × (sent written.1 conn.client_sock_fd ≡ before ++ left)

  repeated :
      (h : WroteHeader written)
      → (size_of written.0 == 8) ≡ false
      → (os.errno written.1 == eagain) ≡ true
      → Repeated
  unfolding is_cut
  repeated h not_all again = elim h.result [
    | inl (wrote, le) ↦
        let eight = length-bytes_of_u64 (htobe64 server.src_file_size) in
        let ne : (h.count == 8) ≡ false = ap (λ r. size_of r == 8) (sym wrote) ∙ not_all in
        let less : h.count < 8 = ground (arith, ne, le) in
        let not_max : (h.count == 2 ^ 64 - 1) ≡ false = ground (arith, less) in
        let max : (size_of written.0 == 2 ^ 64 - 1) ≡ false =
          ap (λ r. size_of r == 2 ^ 64 - 1) wrote ∙ not_max in
        rw (not_all, again, max)
          (take h.count size_buf, once_more h.count (omega (arith, less, eight)) never, h.told)
    | inr (failed, zero_bytes) ↦
        let max : (size_of written.0 == 2 ^ 64 - 1) ≡ true =
          ap (λ r. size_of r == 2 ^ 64 - 1) failed in
        rw (not_all, again, max)
          ([], never, h.told ∙ ap (λ k. before ++ take k size_buf) zero_bytes)
  ]

  -- A call that is not cut short leaves nothing in front of the message.
  abbrev Sends : ℕ → (Bool × FileshareConnection) × os.World → Type 0
  Sends m r =
      (left : List ℕ) × CutShort size_buf m left × Step os laws server (before ++ left) conn w r

  in_order :
      (r : (Bool × FileshareConnection) × os.World)
      → Step os laws server before conn w r
      → Sends 0 r
  in_order r step =
      ([], never, subst (λ b. Step os laws server b conn w r) (sym (append-nil before)) step)

  pub server_send_file_size-Step :
      conn.state ≡ send_file_size
      → sent w conn.client_sock_fd ≡ before
      → (left : List ℕ) × CutShort (header server) (cut_at os server conn w send_file_size) left
        × Step os laws server (before ++ left) conn w (server_send_file_size os server conn w)
  unfolding server_send_file_size header cut_at is_cut
  server_send_file_size-Step st told =
      let h = wrote_header told in
      let same : content written.1 server.src_file_fd ≡ content w server.src_file_fd =
        laws.write_keeps conn.client_sock_fd size_buf w server.src_file_fd in
      elim (Bool-cases (size_of written.0 == 8)) [
        | inl all ↦ rw all (
            in_order _ (record {
              same_fd = refl;
              same_file = same;
              progress = (omega arith, whole_header h all);
              active = refl;
            }))
        | inr not_all ↦ elim (Bool-cases (os.errno written.1 == eagain)) [
          | inl again ↦
              let (left, cut, now) = repeated h not_all again in
              let repeats : server_send_file_size os server conn w ≡ ((true, conn), written.1) =
                rw (not_all, again) refl in
              subst (Sends (if is_cut os server conn w then 1 else 0)) (sym repeats) (
                left,
                cut,
                record {
                  same_fd = refl;
                  same_file = same;
                  progress =
                      subst
                        (Progress os laws server (before ++ left) (content w server.src_file_fd)
                          conn written.1)
                        (sym st) now;
                  active = ap is_active (sym st);
                },
              )
          | inr failed ↦
              rw (not_all, failed)
                (in_order _ (
                  gives_up os laws server before conn w same_size small written.1 same (
                    rw h.told
                      (part_of_header before size_buf (content w server.src_file_fd) h.count))))
        ]
      ]
