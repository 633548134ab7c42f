-- ===== src/Fileshare/Client/Session/Descriptors.antt =====
-- The descriptors that a connection of the client leaves open.
use networking_howto.Prelude.{
  ℕ, zero, suc, ◌≡◌, Bool, true, false, not, ◌&&◌, Option, none, some, List, ◌==◌, Bool-cases, inl,
  inr, arith, refl, sym, ap, ◌∙◌, subst,
}
use networking_howto.Prelude.Program.{
  Outcome, done, exit_failure, ◌>>=◌, ◌>>◌, or_exit, value_or_exit,
}
use networking_howto.Prelude.Ends.{Ends, bind-Ends, weaken-Ends, or_exit-Ends, value_or_exit-Ends}
use networking_howto.Fileshare.Posix.{Posix, Fd}
use networking_howto.Fileshare.Multiplexing.{size_of, length_of}
use networking_howto.Fileshare.Client.{
  FileshareClient, block_size, client_close_socket, client_open_dst_file, client_close_dst_file,
  client_recv_file_size, write_block, client_recv_file_block, continue_with, recv_file,
}
use networking_howto.Fileshare.Client.Session.{
  SessionEnd, received, size_failed, file_failed, out_of_rounds, after_file, after_size, session,
}

-- `open_count w` is how many descriptors the program has open.
pub record DescriptorLaws (os : Posix) : Type 0 where
  pub open_count : os.World → ℕ
  pub recv_keeps :
      (fd : Fd) (n : ℕ) (waitall : Bool) (w : os.World)
      → open_count (os.recv fd n waitall w).1 ≡ open_count w
  pub pwrite_keeps :
      (fd : Fd) (buf : Option (List ℕ)) (n : ℕ) (w : os.World)
      → open_count (os.pwrite fd buf n w).1 ≡ open_count w
  pub fallocate_keeps :
      (fd : Fd) (n : ℕ) (w : os.World) → open_count (os.fallocate fd n w).1 ≡ open_count w
  pub ftruncate_keeps :
      (fd : Fd) (n : ℕ) (w : os.World) → open_count (os.ftruncate fd n w).1 ≡ open_count w
  pub fsync_keeps : (fd : Fd) (w : os.World) → open_count (os.fsync fd w).1 ≡ open_count w
  pub open_adds :
      (name : List ℕ) (w : os.World) (n : ℕ)
      → (os.open_trunc name w).0 ≡ some n
      → open_count (os.open_trunc name w).1 ≡ suc (open_count w)
  pub close_frees :
      (fd : Fd) (w : os.World)
      → (os.close fd w).0 ≡ true
      → open_count w ≡ suc (open_count (os.close fd w).1)

module _ (os : Posix) (laws : DescriptorLaws os) where
  open laws use {open_count}

  abbrev Same : {A : Type 0} → os.World → A → os.World → Type 0
  Same w a v = open_count v ≡ open_count w

  -- A call that keeps the count, and ends the program if it fails.
  kept-Ends :
      (f : os.World → Bool × os.World) (w : os.World)
      → open_count (f w).1 ≡ open_count w
      → Ends Unit (Same {A = Unit {0}} w) (or_exit f w)
  kept-Ends f w keeps =
      weaken-Ends Unit (λ a v. ((f w).0 ≡ true) × (v ≡ (f w).1)) (Same w) (or_exit f w)
        (or_exit-Ends Unit f w (λ e. tt)) (λ a v h. ap open_count h.1 ∙ keeps)

  close-Ends :
      (fd : Fd) (w : os.World)
      → Ends Unit (λ (a : Unit {0}) v. open_count w ≡ suc (open_count v)) (or_exit (os.close fd) w)
  close-Ends fd w =
      weaken-Ends Unit (λ a v. ((os.close fd w).0 ≡ true) × (v ≡ (os.close fd w).1))
        (λ a v. open_count w ≡ suc (open_count v)) (or_exit (os.close fd) w)
        (or_exit-Ends Unit (os.close fd) w (λ e. tt))
        (λ a v h. laws.close_frees fd w h.0 ∙ ap (λ u. suc (open_count u)) (sym h.1))

  block-Ends :
      (c : FileshareClient) (w : os.World) → Ends Unit (Same w) (client_recv_file_block os c w)
  unfolding client_recv_file_block write_block
  block-Ends c w =
      let r : Option (List ℕ) × os.World = os.recv c.server_conn_fd block_size false w in
      let keeps = laws.recv_keeps c.server_conn_fd block_size false w in
      let p : Option ℕ × os.World = os.pwrite c.dst_file_fd r.0 c.dst_file_offset r.1 in
      let keeps' = laws.pwrite_keeps c.dst_file_fd r.0 c.dst_file_offset r.1 in
      elim (Bool-cases (length_of r.0 == 0 && not (c.dst_file_offset == c.dst_file_size))) [
        | inl over ↦ rw over keeps
        | inr on ↦ rw on (elim (Bool-cases (not (size_of p.0 == length_of r.0))) [
          | inl bad ↦ rw bad tt
          | inr good ↦ rw good (keeps' ∙ keeps)
        ])
      ]

  recv_file-Ends :
      (rounds : ℕ) (c : FileshareClient) (w : os.World)
      → Ends Unit (Same w) (recv_file os rounds c w)
  unfolding recv_file
  recv_file-Ends zero c w = refl
  recv_file-Ends (suc rounds) c w = elim (Bool-cases (c.dst_file_offset == c.dst_file_size)) [
    | inl all ↦ rw all refl
    | inr more ↦
        rw more (go (recv_file-Ends rounds) (client_recv_file_block os c w) (block-Ends c w))
  ]
    where
      go :
          ((c' : FileshareClient) (v : os.World) → Ends Unit (Same v) (recv_file os rounds c' v))
          → (r : Outcome os.World (Bool × FileshareClient)) → Ends Unit (Same w) r
          → Ends Unit (Same w) (continue_with os r (recv_file os rounds))
      go ih (done (true, c') v) h =
          weaken-Ends Unit (Same v) (Same w) (recv_file os rounds c' v) (ih c' v) (λ a u h'. h' ∙ h)
      go ih (done (false, c') v) h = h
      go ih (exit_failure v) h = tt

  open-Ends :
      (c : FileshareClient) (name : List ℕ) (w : os.World)
      → Ends Unit
          (λ (a : FileshareClient) v. open_count v ≡ suc (open_count w))
          (client_open_dst_file os c name w)
  unfolding client_open_dst_file
  open-Ends c name w =
      bind-Ends Unit (λ (n : ℕ) v. open_count v ≡ suc (open_count w))
        (λ a v. open_count v ≡ suc (open_count w)) (value_or_exit (os.open_trunc name))
        (λ fd. or_exit (os.fallocate (some fd) c.dst_file_size) >> λ v.
          done (record c { dst_file_fd = some fd }) v)
        w
        (weaken-Ends Unit
          (λ n v. ((os.open_trunc name w).0 ≡ some n) × (v ≡ (os.open_trunc name w).1))
          (λ n v. open_count v ≡ suc (open_count w)) (value_or_exit (os.open_trunc name) w)
          (value_or_exit-Ends Unit (os.open_trunc name) w (λ e. tt))
          (λ n v h. ap open_count h.1 ∙ laws.open_adds name w n h.0))
        (λ fd v h.
          bind-Ends Unit (Same {A = Unit {0}} v)
            (λ (a : FileshareClient) u. open_count u ≡ suc (open_count w))
            (or_exit (os.fallocate (some fd) c.dst_file_size))
            (λ x u. done (record c { dst_file_fd = some fd }) u) v
            (kept-Ends (os.fallocate (some fd) c.dst_file_size) v
              (laws.fallocate_keeps (some fd) c.dst_file_size v))
            (λ x u h'. h' ∙ h))

  close_file-Ends :
      (c : FileshareClient) (w : os.World)
      → Ends Unit
          (λ (a : Unit {0}) v. open_count w ≡ suc (open_count v))
          (client_close_dst_file os c w)
  unfolding client_close_dst_file
  close_file-Ends c w =
      bind-Ends Unit (Same {A = Unit {0}} w) (λ (a : Unit {0}) v. open_count w ≡ suc (open_count v))
        (or_exit (os.ftruncate c.dst_file_fd c.dst_file_size))
        (λ x v. (or_exit (os.fsync c.dst_file_fd) >> or_exit (os.close c.dst_file_fd)) v) w
        (kept-Ends (os.ftruncate c.dst_file_fd c.dst_file_size) w
          (laws.ftruncate_keeps c.dst_file_fd c.dst_file_size w))
        (λ x v h.
          bind-Ends Unit (Same {A = Unit {0}} v)
            (λ (a : Unit {0}) u. open_count w ≡ suc (open_count u))
            (or_exit (os.fsync c.dst_file_fd)) (λ y u. or_exit (os.close c.dst_file_fd) u) v
            (kept-Ends (os.fsync c.dst_file_fd) v (laws.fsync_keeps c.dst_file_fd v))
            (λ y u h'.
              weaken-Ends Unit (λ (a : Unit {0}) u'. open_count u ≡ suc (open_count u'))
                (λ a u'. open_count w ≡ suc (open_count u')) (or_exit (os.close c.dst_file_fd) u)
                (close-Ends c.dst_file_fd u) (λ z u' h2. sym h ∙ sym h' ∙ h2)))

  -- What is open at the end of a connection, against its beginning, when its socket was open.
  abbrev pub Leaves : (before : ℕ) → SessionEnd → os.World → Type 0
  Leaves before (received c) v = before ≡ suc (open_count v)
  Leaves before (size_failed c) v = before ≡ suc (open_count v)
  Leaves before (file_failed c) v = open_count v ≡ before
  Leaves before out_of_rounds v = Unit

  after_file-Ends :
      (before : ℕ) (r : Option (Bool × FileshareClient)) (w : os.World)
      → open_count w ≡ suc before
      → Ends Unit (Leaves before) (after_file os r w)
  unfolding after_file client_close_socket
  after_file-Ends before none w h = tt
  after_file-Ends before (some (true, c)) w h =
      bind-Ends Unit (λ (a : Unit {0}) v. open_count v ≡ before) (Leaves before)
        (or_exit (os.close c.server_conn_fd))
        (λ x v. (client_close_dst_file os c >> λ u. done (received c) u) v) w
        (weaken-Ends Unit (λ (a : Unit {0}) v. open_count w ≡ suc (open_count v))
          (λ a v. open_count v ≡ before) (or_exit (os.close c.server_conn_fd) w)
          (close-Ends c.server_conn_fd w) (λ a v h'. omega (arith, h, h')))
        (λ x v h'.
          bind-Ends Unit (λ (a : Unit {0}) u. open_count v ≡ suc (open_count u)) (Leaves before)
            (client_close_dst_file os c) (λ y u. done (received c) u) v (close_file-Ends c v)
            (λ y u h2. sym h' ∙ h2))
  after_file-Ends before (some (false, c)) w h =
      bind-Ends Unit (λ (a : Unit {0}) v. open_count w ≡ suc (open_count v)) (Leaves before)
        (or_exit (os.close c.server_conn_fd)) (λ x v. done (file_failed c) v) w
        (close-Ends c.server_conn_fd w) (λ x v h'. omega (arith, h, h'))

  after_size-Ends :
      (rounds : ℕ) (name : List ℕ) (r : Bool × FileshareClient) (w : os.World)
      → Ends Unit (Leaves (open_count w)) (after_size os rounds name r w)
  unfolding after_size client_close_socket
  after_size-Ends rounds name (false, c) w =
      bind-Ends Unit (λ (a : Unit {0}) v. open_count w ≡ suc (open_count v)) (Leaves (open_count w))
        (or_exit (os.close c.server_conn_fd)) (λ x v. done (size_failed c) v) w
        (close-Ends c.server_conn_fd w) (λ x v h. h)
  after_size-Ends rounds name (true, c) w =
      bind-Ends Unit (λ (r : Option (Bool × FileshareClient)) v. open_count v ≡ suc (open_count w))
        (Leaves (open_count w)) (client_open_dst_file os c name >>= recv_file os rounds)
        (after_file os) w
        (bind-Ends Unit (λ (a : FileshareClient) v. open_count v ≡ suc (open_count w))
          (λ (r : Option (Bool × FileshareClient)) v. open_count v ≡ suc (open_count w))
          (client_open_dst_file os c name) (recv_file os rounds) w (open-Ends c name w)
          (λ c' v h.
            weaken-Ends Unit (Same v) (λ r u. open_count u ≡ suc (open_count w))
              (recv_file os rounds c' v) (recv_file-Ends rounds c' v) (λ r u h'. h' ∙ h)))
        (λ r v h. after_file-Ends (open_count w) r v h)

  size_keeps :
      (c : FileshareClient) (w : os.World)
      → open_count (client_recv_file_size os c w).1 ≡ open_count w
  unfolding client_recv_file_size
  size_keeps c w =
      let keeps = laws.recv_keeps c.server_conn_fd 8 true w in
      elim (Bool-cases (not (length_of (os.recv c.server_conn_fd 8 true w).0 == 8))) [
        | inl bad ↦ rw bad keeps
        | inr good ↦ rw good keeps
      ]

  -- If the calls do with descriptors what their documentation says, then a connection that ends with
  -- the file, or before the size of the file is known, leaves one descriptor fewer open than at its
  -- beginning: its socket is closed, and the file too if it was opened. One that breaks off while the
  -- file is received leaves as many: the socket is closed and the file is not.
  pub session_descriptors :
      (rounds : ℕ) (dst_filename : List ℕ) (client : FileshareClient) (w : os.World)
      → Ends Unit (Leaves (open_count w)) (session os rounds dst_filename client w)
  unfolding session
  session_descriptors rounds dst_filename client w =
      let r : (Bool × FileshareClient) × os.World = client_recv_file_size os client w in
      subst (λ n. Ends Unit (Leaves n) (after_size os rounds dst_filename r.0 r.1))
        (size_keeps client w) (after_size-Ends rounds dst_filename r.0 r.1)
