-- ===== src/Fileshare/Client/Receive.antt =====
-- The client receives the file: over a connection and a disk without errors, the loop of `main` ends,
-- and the file then holds the bytes that were sent.
use networking_howto.Prelude.{
  ℕ, zero, suc, ◌+◌, ◌≤◌, ◌<◌, ◌≡◌, ◌^◌, ◌==◌, true, false, some, List, [], ◌∷◌, ◌++◌, length, take,
  drop, take-add, take-all, length-take, length-drop, ==_iff, Bool-cases, inl, inr, arith, refl,
  sym, ap, ◌∙◌, u64,
}
use native.Mathlib.Nat.{zero-add}
use networking_howto.Prelude.Program.{done}
use networking_howto.Fileshare.Posix.{Posix}
use networking_howto.Fileshare.Client.{
  FileshareClient, block_size, client_recv_file_block, write_block, continue_with, recv_file,
}
use networking_howto.Fileshare.Client.Quiet.{Quiet}

drop-add : (i k : ℕ) (xs : List ℕ) → drop (i + k) xs ≡ drop k (drop i xs)
drop-add zero k xs = ap (λ n. drop n xs) (zero-add k)
drop-add (suc i) zero [] =
    let e : suc i + zero ≡ suc (i + zero) = omega arith in ap (λ n. drop n []) e
drop-add (suc i) (suc k) [] =
    let e : suc i + suc k ≡ suc (i + suc k) = omega arith in ap (λ n. drop n []) e
drop-add (suc i) k (x ∷ xs) =
    let e : suc i + k ≡ suc (i + k) = omega arith in ap (λ n. drop n (x ∷ xs)) e ∙ drop-add i k xs

eq-false : (a b : ℕ) → b < a → (a == b) ≡ false
eq-false a b h = ground arith

eq-true : (a : ℕ) → (a == a) ≡ true
eq-true a = (==_iff a a).1 refl

module _ (os : Posix) (quiet : Quiet os) (file : List ℕ) (small : length file < 2 ^ 63) where
  open quiet use {incoming, written}

  -- The client has the first bytes of the file, and the others are still to come.
  pub record Receiving (c : FileshareClient) (w : os.World) : Type 0 where
    pub size : c.dst_file_size ≡ length file
    pub below : c.dst_file_offset ≤ length file
    pub to_come : incoming w c.server_conn_fd ≡ drop c.dst_file_offset file
    pub reaches : c.dst_file_offset ≤ length (written w c.dst_file_fd)
    pub content : take c.dst_file_offset (written w c.dst_file_fd) ≡ take c.dst_file_offset file

  recv_is :
      (c : FileshareClient) (w : os.World) (got : List ℕ)
      → (os.recv c.server_conn_fd block_size false w).0 ≡ some got
      → 0 < length got
      → client_recv_file_block os c w
        ≡ write_block os c (some got) (os.recv c.server_conn_fd block_size false w).1
  unfolding client_recv_file_block
  recv_is c w got e some_got = rw (e, eq-false (length got) 0 some_got) refl

  moved : FileshareClient → ℕ → FileshareClient
  moved c n = record c { dst_file_offset = u64 (c.dst_file_offset + n) }

  write_is :
      (c : FileshareClient) (w : os.World) (got : List ℕ)
      → (os.pwrite c.dst_file_fd (some got) c.dst_file_offset w).0 ≡ some (length got)
      → write_block os c (some got) w
        ≡ done
            (true, moved c (length got))
            (os.pwrite c.dst_file_fd (some got) c.dst_file_offset w).1
  unfolding write_block moved
  write_is c w got e = rw (e, eq-true (length got)) refl

  -- What a call of `client_recv_file_block` does while there are bytes to come.
  record Block (c : FileshareClient) (w : os.World) : Type 0 where
    client : FileshareClient
    world : os.World
    result : client_recv_file_block os c w ≡ done (true, client) world
    receiving : Receiving client world
    further : c.dst_file_offset < client.dst_file_offset
    same_fd : client.dst_file_fd ≡ c.dst_file_fd

  block :
      (c : FileshareClient) (w : os.World)
      → Receiving c w
      → c.dst_file_offset < length file
      → Block c w
  unfolding moved
  block c w at more =
      let off = c.dst_file_offset in
      let left : 0 < length (incoming w c.server_conn_fd) =
        rw (at.to_come, length-drop off file) (omega (arith, more)) in
      let r = quiet.recv_works c.server_conn_fd block_size false w (omega arith) left in
      let w1 : os.World = (os.recv c.server_conn_fd block_size false w).1 in
      let got : List ℕ = r.got in
      let before : written w1 c.dst_file_fd ≡ written w c.dst_file_fd = r.keeps c.dst_file_fd in
      let reaches : off ≤ length (written w1 c.dst_file_fd) = rw before at.reaches in
      let p = quiet.pwrite_works c.dst_file_fd got off w1 reaches in
      let some_got = r.some_got in
      let front : got ≡ take (length got) (drop off file) =
        r.front ∙ ap (take (length got)) at.to_come in
      let len = ap length front ∙ length-take (length got) (drop off file) in
      let rest = length-drop off file in
      let fits : off + length got ≤ length file = omega (arith, len, rest, more) in
      let next : u64 (off + length got) ≡ off + length got = omega (arith, fits, small) in
      record {
        client = moved c (length got);
        world = (os.pwrite c.dst_file_fd (some got) off w1).1;
        result = recv_is c w got r.result some_got ∙ write_is c w1 got p.result;
        receiving = record {
          size = at.size;
          below = rw next fits;
          to_come =
              p.keeps c.server_conn_fd
              ∙ r.rest
              ∙ ap (drop (length got)) at.to_come
              ∙ sym (ap (λ n. drop n file) next ∙ drop-add off (length got) file);
          reaches = rw next p.reaches;
          content =
              ap (λ n. take n (written (os.pwrite c.dst_file_fd (some got) off w1).1 c.dst_file_fd))
                next
              ∙ p.content
              ∙ ap (λ l. take off l ++ got) before
              ∙ ap (λ l. l ++ got) at.content
              ∙ ap (λ l. take off file ++ l) front
              ∙ sym (ap (λ n. take n file) next ∙ take-add off (length got) file);
        };
        further = rw next (omega (arith, some_got));
        same_fd = refl;
      }

  -- The loop has ended with the whole file.
  pub record Whole (c : FileshareClient) (w : os.World) (rounds : ℕ) : Type 0 where
    pub client : FileshareClient
    pub world : os.World
    pub result : recv_file os rounds c w ≡ done (some (true, client)) world
    pub same_fd : client.dst_file_fd ≡ c.dst_file_fd
    pub same_size : client.dst_file_size ≡ length file
    pub bytes : take (length file) (written world client.dst_file_fd) ≡ file

  ended :
      (c : FileshareClient) (w : os.World) (rounds : ℕ)
      → Receiving c w
      → c.dst_file_offset ≡ length file
      → Whole c w (suc rounds)
  unfolding recv_file
  ended c w rounds at all = record {
    client = c;
    world = w;
    result =
        let test : (c.dst_file_offset == c.dst_file_size) ≡ true =
          (==_iff c.dst_file_offset c.dst_file_size).1 (all ∙ sym at.size) in
        rw test refl;
    same_fd = refl;
    same_size = at.size;
    bytes =
        ap (λ n. take n (written w c.dst_file_fd)) (sym all)
        ∙ at.content
        ∙ ap (λ n. take n file) all
        ∙ take-all (length file) file (omega arith);
  }

  goes_round :
      (c client : FileshareClient) (w world : os.World) (rounds : ℕ)
      → (c.dst_file_offset == c.dst_file_size) ≡ false
      → client_recv_file_block os c w ≡ done (true, client) world
      → recv_file os (suc rounds) c w ≡ recv_file os rounds client world
  unfolding recv_file
  goes_round c client w world rounds test e =
      rw test (ap (λ o. continue_with os o (recv_file os rounds)) e)

  -- If all but some bytes of the file have arrived, one round more than that number is enough.
  pub recv_file-Whole :
      (rounds : ℕ) (c : FileshareClient) (w : os.World)
      → Receiving c w
      → length file < c.dst_file_offset + rounds
      → Whole c w rounds
  recv_file-Whole zero c w at enough = let below = at.below in absurd (omega (arith, below, enough))
  recv_file-Whole (suc rounds) c w at enough =
      elim (Bool-cases (c.dst_file_offset == length file)) [
        | inl all ↦ ended c w rounds at ((==_iff c.dst_file_offset (length file)).0 all)
        | inr part ↦
            let below = at.below in
            let not_all : ¬ (c.dst_file_offset ≡ length file) =
              λ e. let yes_all = (==_iff c.dst_file_offset (length file)).1 e in cc in
            let b = block c w at (omega (arith, below, not_all)) in
            let further = b.further in
            let rest =
              recv_file-Whole rounds b.client b.world b.receiving
                (omega (arith, further, enough)) in
            record {
              client = rest.client;
              world = rest.world;
              result =
                  goes_round c b.client w b.world rounds
                    (ap (λ n. c.dst_file_offset == n) at.size ∙ part) b.result
                  ∙ rest.result;
              same_fd = rest.same_fd ∙ b.same_fd;
              same_size = rest.same_size;
              bytes = rest.bytes;
            }
      ]
