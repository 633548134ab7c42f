-- ===== src/Fileshare/Multiplexing/Transfer.antt =====
-- What a client has been sent, over any number of calls of the two functions of
-- server-common-multiplexing.h in the order in which the servers call them.
use networking_howto.Prelude.{
  ℕ, ◌+◌, ◌-◌, ◌≤◌, ◌<◌, ◌≡◌, ◌^◌, inl, inr, Bool, true, false, not, ◌&&◌, some, List, ◌++◌, length,
  take, drop, take-take, ◌||◌, StartsWith, arith, refl, ap, ◌∙◌, u64, ◌==◌, Bool-cases,
  Option-cases, if◌then◌else◌,
}
use networking_howto.Fileshare.Posix.{Posix, Fd}
use networking_howto.Fileshare.Laws.{Laws}
use networking_howto.Fileshare.Multiplexing.Message.{header, join, part_of_message, block_fits}
use networking_howto.Fileshare.Multiplexing.{
  FileshareServer, FileshareConnection, TransferState, connection_empty, send_file_size,
  send_data_block, transfer_finished, server_send_file_block, send_block, set_state, length_of,
  transfer_block_size,
}

abbrev pub is_active : TransferState → Bool
is_active connection_empty = false
is_active send_file_size = true
is_active send_data_block = true
is_active transfer_finished = false

module _ (os : Posix) (laws : Laws os) where
  open laws use {sent, content}

  -- `before` is what the socket had taken before the transfer began, `file` what there is to send.
  abbrev pub Progress :
      FileshareServer
      → (before file : List ℕ) → FileshareConnection
      → os.World
      → TransferState
      → Type 0
  Progress server before file conn w connection_empty = ⊥
  Progress server before file conn w send_file_size = sent w conn.client_sock_fd ≡ before
  Progress server before file conn w send_data_block =
      (conn.src_file_offset ≤ length file)
      × (sent w conn.client_sock_fd ≡ before ++ (header server ++ take conn.src_file_offset file))
  Progress server before file conn w transfer_finished =
      StartsWith (before ++ (header server ++ file)) (sent w conn.client_sock_fd)

  -- What a call does: the connection keeps its socket, the source its file, the client has got a
  -- part of the message, and the result says whether the transfer goes on.
  pub record Step (server : FileshareServer) (before : List ℕ) (conn : FileshareConnection)
      (w : os.World) (r : (Bool × FileshareConnection) × os.World) : Type 0 where
    pub same_fd : r.0.1.client_sock_fd ≡ conn.client_sock_fd
    pub same_file : content r.1 server.src_file_fd ≡ content w server.src_file_fd
    pub progress : Progress server before (content w server.src_file_fd) r.0.1 r.1 r.0.1.state
    pub active : r.0.0 ≡ is_active r.0.1.state

  module _ (server : FileshareServer) (before : List ℕ) (conn : FileshareConnection) (w : os.World)
      (same_size : server.src_file_size ≡ length (content w server.src_file_fd))
      (small : server.src_file_size < 2 ^ 63) where
    abbrev file : List ℕ
    file = content w server.src_file_fd

    abbrev here : Fd
    here = conn.client_sock_fd

    -- Giving up, with any part of the message sent.
    pub gives_up :
        (w' : os.World)
        → content w' server.src_file_fd ≡ file
        → StartsWith (before ++ (header server ++ file)) (sent w' here)
        → Step server before conn w ((false, set_state conn transfer_finished), w')
    gives_up w' same part = record {
      same_fd = refl;
      same_file = same;
      progress = part;
      active = refl;
    }

    abbrev InPlace : os.World → ℕ → Type 0
    InPlace w' off = sent w' here ≡ before ++ (header server ++ take off file)

    part :
        (w' : os.World) (off : ℕ)
        → InPlace w' off
        → StartsWith (before ++ (header server ++ file)) (sent w' here)
    part w' off told = rw told (part_of_message before (header server) file off)

    -- A write of the block at the offset, by what it reports.
    wrote_some :
        (w' : os.World) (block : List ℕ) (n : ℕ)
        → InPlace w' conn.src_file_offset
        → block ≡ take (length block) (drop conn.src_file_offset file)
        → (os.write here block w').0 ≡ some n
        → (n ≤ length block) × InPlace (os.write here block w').1 (conn.src_file_offset + n)
    wrote_some w' block n told is_block wrote =
        let law = laws.write_some here block w' n wrote in
        let piece : take n block ≡ take n (drop conn.src_file_offset file) =
          ap (take n) is_block
          ∙ take-take n (length block) (drop conn.src_file_offset file) law.0 in
        (law.0, law.1 ∙ rw (told, piece) (join before (header server) file conn.src_file_offset n))

    -- After a whole block.
    advances :
        (w' : os.World) (n : ℕ)
        → content w' server.src_file_fd ≡ file
        → conn.state ≡ send_data_block
        → conn.src_file_offset + n ≤ length file
        → InPlace w' (conn.src_file_offset + n)
        → Step server before conn w (
            let conn' : FileshareConnection = record conn {
              src_file_offset = u64 (conn.src_file_offset + n);
            } in
            if u64 (conn.src_file_offset + n) == server.src_file_size
            then ((false, set_state conn' transfer_finished), w')
            else ((true, conn'), w'))
    advances w' n same st le told =
        let offset : u64 (conn.src_file_offset + n) ≡ conn.src_file_offset + n = omega arith in
        rw offset (elim (Bool-cases (conn.src_file_offset + n == server.src_file_size)) [
          | inl whole ↦ rw whole (record {
            same_fd = refl;
            same_file = same;
            progress = part w' (conn.src_file_offset + n) told;
            active = refl;
          })
          | inr more ↦ rw more (record {
            same_fd = refl;
            same_file = same;
            progress = rw st (le, told);
            active = rw st refl;
          })
        ])

    send_block-Step :
        (w' : os.World) (block : List ℕ)
        → content w' server.src_file_fd ≡ file
        → InPlace w' conn.src_file_offset
        → conn.src_file_offset ≤ length file
        → conn.state ≡ send_data_block
        → block ≡ take (length block) (drop conn.src_file_offset file)
        → Step server before conn w (send_block os server conn block w')
    unfolding send_block
    send_block-Step w' block same told le st is_block =
        let after : content (os.write here block w').1 server.src_file_fd ≡ file =
          laws.write_keeps here block w' server.src_file_fd ∙ same in
        let inside : conn.src_file_offset + length block ≤ length file =
          block_fits block file conn.src_file_offset le is_block in
        elim (Option-cases (os.write here block w').0) [
          | inl failed ↦ rw failed (
              gives_up (os.write here block w').1 after
                (rw (laws.write_none here block w' failed) (part w' conn.src_file_offset told)))
          | inr (n, wrote) ↦
              let put = wrote_some w' block n told is_block wrote in
              rw wrote (elim (Bool-cases (n == 2 ^ 64 - 1 || not (n == length block))) [
                | inl short ↦ rw short (
                    gives_up (os.write here block w').1 after
                      (part (os.write here block w').1 (conn.src_file_offset + n) put.1))
                | inr whole ↦
                    rw whole
                      (advances (os.write here block w').1 n after st (omega (arith, inside)) put.1)
              ])
        ]

    pub server_send_file_block-Step :
        conn.state ≡ send_data_block
        → Progress server before file conn w send_data_block
        → Step server before conn w (server_send_file_block os server conn w)
    unfolding server_send_file_block
    server_send_file_block-Step st (le, told) =
        let off = conn.src_file_offset in
        let r = os.pread server.src_file_fd transfer_block_size off w in
        let keeps = laws.pread_keeps server.src_file_fd transfer_block_size off w in
        let same : content r.1 server.src_file_fd ≡ file = (keeps server.src_file_fd).1 in
        let told' : InPlace r.1 off = (keeps here).0 ∙ told in
        elim (Bool-cases (
          length_of r.0 == 2 ^ 64 - 1
          || (length_of r.0 == 0 && not (off == server.src_file_size)))) [
            | inl bad ↦ rw bad (gives_up r.1 same (part r.1 off told'))
            | inr good ↦ elim (Option-cases r.0) [
              | inl failed ↦ let bad : true ≡ false = rw failed at good in cc
              | inr (block, got) ↦
                  rw (good, got)
                    (send_block-Step r.1 block same told' le st
                      (laws.pread_some server.src_file_fd transfer_block_size off w block got).1)
            ]
          ]
