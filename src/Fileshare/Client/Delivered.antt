-- ===== src/Fileshare/Client/Delivered.antt =====
-- The message of the multiplexing servers arrives at the client: the size, then the file.
use networking_howto.Prelude.{
  ℕ, ◌+◌, ◌<◌, ◌≡◌, ◌^◌, ◌==◌, ==_iff, true, some, List, [], ◌∷◌, ◌++◌, length, length-append, take,
  drop, arith, refl, sym, ap, ◌∙◌,
}
use networking_howto.Fileshare.Posix.{Posix, Fd}
use networking_howto.Fileshare.Bytes.{le_value, htobe64, htobe64-of_bytes}
use networking_howto.Fileshare.Multiplexing.{FileshareServer}
use networking_howto.Fileshare.Multiplexing.Message.{header, length-header}
use networking_howto.Fileshare.Client.{FileshareClient, client_recv_file_size}
use networking_howto.Fileshare.Client.Quiet.{Quiet}
use networking_howto.Fileshare.Client.Receive.{Whole, Receiving, recv_file-Whole}

take-front : (xs ys : List ℕ) → take (length xs) (xs ++ ys) ≡ xs
take-front [] ys = refl
take-front (x ∷ xs) ys = ap (λ t. x ∷ t) (take-front xs ys)

drop-front : (xs ys : List ℕ) → drop (length xs) (xs ++ ys) ≡ ys
drop-front [] ys = refl
drop-front (x ∷ xs) ys = drop-front xs ys

header_value :
    (server : FileshareServer)
    → server.src_file_size < 2 ^ 64
    → htobe64 (le_value (header server)) ≡ server.src_file_size
unfolding header
header_value server small = htobe64-of_bytes server.src_file_size small

-- The client has been told the size of the file, and the file is still to come.
pub record SizeReceived (os : Posix) (quiet : Quiet os) (file : List ℕ) (c : FileshareClient)
    (w : os.World) : Type 0 where
  pub world : os.World
  pub result :
      client_recv_file_size os c w
      ≡ ((true, record c { dst_file_size = length file; dst_file_offset = 0 }), world)
  pub to_come : quiet.incoming world c.server_conn_fd ≡ file
  pub keeps : (fd : Fd) → quiet.written world fd ≡ quiet.written w fd

size_is :
    (os : Posix) (c : FileshareClient) (w : os.World) (got : List ℕ)
    → (os.recv c.server_conn_fd 8 true w).0 ≡ some got
    → length got ≡ 8
    → client_recv_file_size os c w ≡ (
      (true, record c { dst_file_size = htobe64 (le_value got); dst_file_offset = 0 }),
      (os.recv c.server_conn_fd 8 true w).1,
    )
unfolding client_recv_file_size
size_is os c w got e eight =
    let test : (length got == 8) ≡ true = (==_iff (length got) 8).1 eight in rw (e, test) refl

-- Over a connection without errors, a client to which the server's message is coming returns from
-- `client_recv_file_size` with true, the size of the file and offset 0, and what is still to come is
-- the file.
pub client_recv_file_size-server :
    (os : Posix) (quiet : Quiet os) (server : FileshareServer) (file : List ℕ) (c : FileshareClient)
    (w : os.World)
    → server.src_file_size ≡ length file
    → length file < 2 ^ 63
    → quiet.incoming w c.server_conn_fd ≡ header server ++ file
    → SizeReceived os quiet file c w
client_recv_file_size-server os quiet server file c w size small coming =
    let eight = length-header server in
    let len = ap length coming ∙ length-append (header server) file in
    let r = quiet.recv_works c.server_conn_fd 8 true w (omega arith) (omega (arith, len, eight)) in
    let all : length r.got ≡ 8 = r.all_got refl (omega (arith, len, eight)) in
    let same : length r.got ≡ length (header server) = all ∙ sym eight in
    let is_header : r.got ≡ header server =
      r.front
      ∙ ap (take (length r.got)) coming
      ∙ ap (λ n. take n (header server ++ file)) same
      ∙ take-front (header server) file in
    let value : htobe64 (le_value r.got) ≡ length file =
      ap (λ l. htobe64 (le_value l)) is_header
      ∙ header_value server (omega (arith, size, small))
      ∙ size in
    record {
      world = (os.recv c.server_conn_fd 8 true w).1;
      result =
          size_is os c w r.got r.result all
          ∙ ap
              (λ n. (
                (true, record c { dst_file_size = n; dst_file_offset = 0 }),
                (os.recv c.server_conn_fd 8 true w).1,
              ))
              value;
      to_come =
          r.rest
          ∙ ap (drop (length r.got)) coming
          ∙ ap (λ n. drop n (header server ++ file)) same
          ∙ drop-front (header server) file;
      keeps = r.keeps;
    }

-- Over a connection and a disk without errors, a client that knows the size of the file and to which
-- the file is coming leaves the loop over the blocks after at most as many rounds as the file has
-- bytes, and its file then begins with the bytes of the server's.
pub client_receives_file :
    (os : Posix) (quiet : Quiet os) (file : List ℕ) (small : length file < 2 ^ 63)
    (c : FileshareClient) (w : os.World)
    → c.dst_file_size ≡ length file
    → c.dst_file_offset ≡ 0
    → quiet.incoming w c.server_conn_fd ≡ file
    → Whole os quiet file small c w (length file + 1)
client_receives_file os quiet file small c w size start coming =
    let at : Receiving os quiet file small c w = record {
      size = size;
      below = omega (arith, start);
      to_come = coming ∙ sym (ap (λ n. drop n file) start);
      reaches = omega (arith, start);
      content =
          ap (λ n. take n (quiet.written w c.dst_file_fd)) start
          ∙ sym (ap (λ n. take n file) start);
    } in
    recv_file-Whole os quiet file small (length file + 1) c w at (omega (arith, start))
