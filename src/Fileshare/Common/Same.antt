-- ===== src/Fileshare/Common/Same.antt =====
-- The functions of server-common.h and of server-common-multiplexing.h that send a block.
use networking_howto.Prelude.{
  ℕ, ◌+◌, ◌-◌, ◌≤◌, ◌≡◌, ◌^◌, ◌⊎◌, inl, inr, Bool, true, false, not, ◌&&◌, ◌||◌, some, List, length,
  if◌then◌else◌, ◌==◌, ==_iff, arith, refl, u64,
}
use networking_howto.Fileshare.Posix.{Posix}
use networking_howto.Fileshare.Multiplexing.{
  FileshareServer, send_data_block, transfer_block_size, size_of, send_block, set_state,
  transfer_finished,
}
use networking_howto.Fileshare.Multiplexing as Multiplexing
use networking_howto.Fileshare.Common.{FileshareConnection, server_send_file_block}

-- The connection of the other header, in the middle of its transfer.
abbrev pub in_transfer : FileshareConnection → Multiplexing.FileshareConnection
in_transfer conn = record {
  client_sock_fd = conn.client_sock_fd;
  src_file_offset = conn.src_file_offset;
  state = send_data_block;
}

-- Two results with the same effect: the multiplexing server has no success when it has failed or when
-- the file has been sent.
pub record Agree {W : Type 0} (server : FileshareServer) (simple : (Bool × FileshareConnection) × W)
    (multi : (Bool × Multiplexing.FileshareConnection) × W) : Type 0 where
  pub same_world : simple.1 ≡ multi.1
  pub same_offset : simple.0.1.src_file_offset ≡ multi.0.1.src_file_offset
  pub both : multi.0.0 ≡ true → simple.0.0 ≡ true
  pub or_all :
      simple.0.0 ≡ true → (multi.0.0 ≡ true) ⊎ (multi.0.1.src_file_offset ≡ server.src_file_size)

not_max : (k n : ℕ) → k ≤ 1024 → (n == 2 ^ 64 - 1) ≡ true → not (n == k) ≡ true
not_max k n small e = ground arith

small_not_max : (k : ℕ) → k ≤ 1024 → (k == 2 ^ 64 - 1) ≡ false
small_not_max k small = ground arith

module _ {W : Type 0} (server : FileshareServer) (conn : FileshareConnection) (v v' : W)
    (offset : ℕ) where
  -- `stop` after the read, `most` and `short` after the write, `all` for the end of the file.
  agree :
      (stop most short all : Bool)
      → (most ≡ true → short ≡ true)
      → (all ≡ true → offset ≡ server.src_file_size)
      → Agree server
          (if stop
            then ((false, conn), v)
            else (if short
                then ((false, conn), v')
                else ((true, record conn { src_file_offset = offset }), v')))
          (if stop
            then ((false, set_state (in_transfer conn) transfer_finished), v)
            else (if most || short
                then ((false, set_state (in_transfer conn) transfer_finished), v')
                else (if all
                    then (
                      (
                        false,
                        set_state
                            (record (in_transfer conn) { src_file_offset = offset })
                            transfer_finished,
                      ),
                      v',
                    )
                    else ((true, record (in_transfer conn) { src_file_offset = offset }), v'))))
  agree true most short all short_if size_if = record {
    same_world = refl;
    same_offset = refl;
    both = λ e. e;
    or_all = λ e. inl e;
  }
  agree false true true all short_if size_if = record {
    same_world = refl;
    same_offset = refl;
    both = λ e. e;
    or_all = λ e. inl e;
  }
  agree false true false all short_if size_if = let clash : false ≡ true = short_if refl in cc
  agree false false true all short_if size_if = record {
    same_world = refl;
    same_offset = refl;
    both = λ e. e;
    or_all = λ e. inl e;
  }
  agree false false false true short_if size_if = record {
    same_world = refl;
    same_offset = refl;
    both = λ e. refl;
    or_all = λ e. inr (size_if refl);
  }
  agree false false false false short_if size_if = record {
    same_world = refl;
    same_offset = refl;
    both = λ e. e;
    or_all = λ e. inl e;
  }

-- The two functions do the same calls with the same effect and leave the same offset, unless the read
-- fails: a success of the multiplexing server is one of the simple server, and a success of the simple
-- server is one of the multiplexing server or the end of the file.
pub send_file_block_agrees :
    (os : Posix) (server : FileshareServer) (conn : FileshareConnection) (w : os.World)
    (got : List ℕ)
    → (os.pread server.src_file_fd transfer_block_size conn.src_file_offset w).0 ≡ some got
    → length got ≤ transfer_block_size
    → Agree server
        (server_send_file_block os server conn w)
        (Multiplexing.server_send_file_block os server (in_transfer conn) w)
unfolding server_send_file_block Multiplexing.server_send_file_block send_block
send_file_block_agrees os server conn w got e small =
    let r = os.pread server.src_file_fd transfer_block_size conn.src_file_offset w in
    let s = os.write conn.client_sock_fd got r.1 in
    let offset = u64 (conn.src_file_offset + size_of s.0) in
    rw (e, small_not_max (length got) small)
      (agree server conn r.1 s.1 offset
        (length got == 0 && not (conn.src_file_offset == server.src_file_size))
        (size_of s.0 == 2 ^ 64 - 1) (not (size_of s.0 == length got))
        (offset == server.src_file_size) (not_max (length got) (size_of s.0) small)
        (==_iff offset server.src_file_size).0)
