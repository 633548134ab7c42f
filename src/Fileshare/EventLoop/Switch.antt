-- ===== src/Fileshare/EventLoop/Switch.antt =====
-- The switch over the state of a connection: when the result is true the transfer goes on, and when
-- it is false the transfer is over.
use networking_howto.Prelude.{
  ℕ, ◌≡◌, ◌^◌, ◌+◌, ◌-◌, Bool, true, false, some, List, refl, ap, u64, if◌then◌else◌, not, ◌||◌,
  ◌&&◌, ◌==◌, length,
}
use networking_howto.Fileshare.Posix.{Posix, eagain}
use networking_howto.Fileshare.Multiplexing.{
  FileshareServer, FileshareConnection, TransferState, connection_empty, send_file_size,
  send_data_block, transfer_finished, set_state, send_at, send_next, server_send_file_size,
  server_send_file_block, send_block, size_of, length_of, bytes_of, transfer_block_size,
}
use networking_howto.Fileshare.EventLoop.Frame.{Frame}
use networking_howto.Fileshare.Bytes.{bytes_of_u64, htobe64}
use networking_howto.Fileshare.Multiplexing.Transfer.{is_active}

-- While the result is true the transfer goes on, and when it is false it is over.
abbrev pub GoesOn : Bool → TransferState → Type 0
GoesOn true st = is_active st ≡ true
GoesOn false st = st ≡ transfer_finished

module _ (os : Posix) (frame : Frame os) (conn : FileshareConnection) (w : os.World) where
  -- What one of the two functions leaves.
  pub record Switched (r : (Bool × FileshareConnection) × os.World) : Type 0 where
    pub goes_on : GoesOn r.0.0 r.0.1.state
    pub same_fd : r.0.1.client_sock_fd ≡ conn.client_sock_fd
    pub framed : frame.Before w r.1

  if-Switched :
      (b : Bool) (x y : (Bool × FileshareConnection) × os.World)
      → Switched x
      → Switched y
      → Switched (if b then x else y)
  if-Switched true x y p q = p
  if-Switched false x y p q = q

  over :
      (conn' : FileshareConnection) (v : os.World)
      → conn'.client_sock_fd ≡ conn.client_sock_fd
      → frame.Before w v
      → Switched ((false, set_state conn' transfer_finished), v)
  over conn' v e framed = record { goes_on = refl; same_fd = e; framed = framed }

not_active : {A : Type 0} → false ≡ true → A
not_active e = cc

module _ (os : Posix) (frame : Frame os) (server : FileshareServer)
    (conn : FileshareConnection) where
  server_send_file_size-Switched :
      (w : os.World)
      → conn.state ≡ send_file_size
      → Switched os frame conn w (server_send_file_size os server conn w)
  unfolding server_send_file_size
  server_send_file_size-Switched w st =
      let bytes = bytes_of_u64 (htobe64 server.src_file_size) in
      let r = os.write conn.client_sock_fd bytes w in
      let framed = frame.write conn.client_sock_fd bytes w in
      if-Switched os frame conn w (not (size_of r.0 == 8)) _ _
        (if-Switched os frame conn w (os.errno r.1 == eagain) _ _
          (record { goes_on = ap is_active st; same_fd = refl; framed = framed })
          (over os frame conn w conn r.1 refl framed))
        (record { goes_on = refl; same_fd = refl; framed = framed })

  send_block-Switched :
      (u w : os.World) (block : List ℕ)
      → conn.state ≡ send_data_block
      → frame.Before u w
      → Switched os frame conn u (send_block os server conn block w)
  unfolding send_block
  send_block-Switched u w block st before =
      let r = os.write conn.client_sock_fd block w in
      let offset = u64 (conn.src_file_offset + size_of r.0) in
      let framed = frame.after u w r.1 before (frame.write conn.client_sock_fd block w) in
      if-Switched os frame conn u (size_of r.0 == 2 ^ 64 - 1 || not (size_of r.0 == length block)) _
        _ (over os frame conn u conn r.1 refl framed)
        (if-Switched os frame conn u (offset == server.src_file_size) _ _
          (over os frame conn u (record conn { src_file_offset = offset }) r.1 refl framed)
          (record { goes_on = ap is_active st; same_fd = refl; framed = framed }))

  server_send_file_block-Switched :
      (w : os.World)
      → conn.state ≡ send_data_block
      → Switched os frame conn w (server_send_file_block os server conn w)
  unfolding server_send_file_block
  server_send_file_block-Switched w st =
      let r = os.pread server.src_file_fd transfer_block_size conn.src_file_offset w in
      let framed = frame.pread server.src_file_fd transfer_block_size conn.src_file_offset w in
      if-Switched os frame conn w
        (length_of r.0 == 2 ^ 64 - 1
          || (length_of r.0 == 0 && not (conn.src_file_offset == server.src_file_size)))
        _ _ (over os frame conn w conn r.1 refl framed)
        (send_block-Switched w r.1 (bytes_of r.0) st framed)

  -- A connection whose transfer goes on is served by one of the two functions.
  pub record Served (w : os.World) : Type 0 where
    pub result : (Bool × FileshareConnection) × os.World
    pub served : send_next os server conn w ≡ some result
    pub switched : Switched os frame conn w result

  send_at-Served :
      (w : os.World) (st : TransferState) → conn.state ≡ st → is_active st ≡ true → Served w
  unfolding send_at
  send_at-Served w connection_empty e active = not_active active
  send_at-Served w send_file_size e active = record {
    result = server_send_file_size os server conn w;
    served = ap (λ st. send_at os st server conn w) e;
    switched = server_send_file_size-Switched w e;
  }
  send_at-Served w send_data_block e active = record {
    result = server_send_file_block os server conn w;
    served = ap (λ st. send_at os st server conn w) e;
    switched = server_send_file_block-Switched w e;
  }
  send_at-Served w transfer_finished e active = not_active active

  pub send_next-Served : (w : os.World) → is_active conn.state ≡ true → Served w
  send_next-Served w active = send_at-Served w conn.state refl active
