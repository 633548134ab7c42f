-- ===== src/FileCopy/Uring/WholeFile.antt =====
-- The copy of 04_async_io/io-uring-cp.c from its first requests to its last write.
use networking_howto.Prelude.{
  dec_lt, update_ne, total-part, ℕ, zero, suc, ◌+◌, ◌*◌, ◌/◌, ◌^◌, ◌≤◌, ◌<◌, ◌≡◌, inl, inr, false,
  Option, none, some, ◌==◌, Bool-cases, arith, refl, ap, ◌∙◌, subst,
}
use networking_howto.Prelude.Ends.{Ends, bind-Ends, both-Ends, weaken-Ends}
use networking_howto.Fileshare.Posix.{Posix, Fd}
use networking_howto.FileCopy.Uring.{
  Ring, queue_size, read_block_size, BlockStage, block_idle, CopyStatus, fresh_status, bytes_left,
  prepare_read_request, unfinished, copy_blocks, first_reads, copy_file,
}
use networking_howto.FileCopy.Uring.Laws.{RingLaws, FullTransfers}
use networking_howto.FileCopy.Uring.Cells.{Cell, idle, in_read, filled, in_write, Covers}
use networking_howto.FileCopy.Uring.Status.{busy, cells_of, pending, prepared_read}
use networking_howto.FileCopy.Uring.Completions.{Failed}
use networking_howto.FileCopy.Uring.Reaping.{never-Ends}
use networking_howto.FileCopy.Uring.Copied.{Goes, Finished, copy_blocks-Ends}

-- The copy has ended, and every byte of the source below the size is in the destination.
abbrev pub IsCopied :
    {W : Type 0} (content : W → ℕ → ℕ) (source : ℕ → ℕ) (src_size : ℕ)
    → Option CopyStatus
    → W
    → Type 0
IsCopied content source src_size none u = ⊥
IsCopied content source src_size (some s) u = (i : ℕ) → i < src_size → content u i ≡ source i

not_busy : (i : ℕ) (p : Cell) → busy p ≤ 0 → ¬ Covers p i
not_busy i idle b h = h
not_busy i (in_read o z) b h = omega arith
not_busy i (filled o z) b h = omega arith
not_busy i (in_write o z) b h = omega arith

module _ (os : Posix) (ring : Ring os) (src dst : Fd) (source : ℕ → ℕ)
    (laws : RingLaws os ring src dst source) (src_size : ℕ) (small_file : src_size < 2 ^ 32)
    (full : FullTransfers os ring src dst source laws src_size) where
  open laws use {in_flight, content, unseen}

  abbrev Has : ℕ → CopyStatus → os.World → Type 0
  Has k s w = Goes os ring src dst source laws src_size small_file full k s w

  -- The cells from `k` on are idle.
  abbrev IdleFrom : ℕ → CopyStatus → Type 0
  IdleFrom k s = (c : ℕ) → k ≤ c → (s.block_statuses c).stage ≡ block_idle

  prepare-IdleFrom :
      (k : ℕ) (s : CopyStatus) (w : os.World)
      → IdleFrom k s
      → unseen w ≡ none
      → Ends ⊥
          (λ s' v. IdleFrom (suc k) s' × (unseen v ≡ none))
          (prepare_read_request os ring s k w)
  unfolding prepare_read_request
  prepare-IdleFrom k s w free clear = elim (Bool-cases (bytes_left s == 0)) [
    | inl e ↦ rw e (λ c le. free c (omega (arith, le)), clear)
    | inr e ↦ rw e (
      λ c le.
          ap (λ b. b.stage) (update_ne s.block_statuses k _ c (omega (arith, le)))
          ∙ free c (omega (arith, le)),
      laws.prep_read_unseen s.src_fd read_block_size s.src_off k k w ∙ clear,
    )
  ]

  abbrev Began : ℕ → ℕ → CopyStatus → os.World → Type 0
  Began m k s w = Has k s w × (pending s ≡ m) × IdleFrom k s × (unseen w ≡ none)

  first_reads-Ends :
      (k : ℕ) (s : CopyStatus) (w : os.World)
      → k ≤ queue_size
      → Has 0 s w
      → IdleFrom 0 s
      → unseen w ≡ none
      → Ends ⊥ (Began (pending s) k) (first_reads os ring k s w)
  unfolding first_reads
  first_reads-Ends zero s w le good free clear = (good, refl, free, clear)
  first_reads-Ends (suc k) s w le good free clear =
      bind-Ends ⊥ (Began (pending s) k) (Began (pending s) (suc k)) (first_reads os ring k s)
        (λ s'. prepare_read_request os ring s' k) w
        (first_reads-Ends k s w (omega arith) good free clear)
        (λ s' v h.
          let (held, same, idle_from, nothing) = h in
          weaken-Ends ⊥
            (λ s2 u.
              (Has (suc k) s2 u × (pending s2 ≡ pending s'))
              × (IdleFrom (suc k) s2 × (unseen u ≡ none)))
            (Began (pending s) (suc k)) (prepare_read_request os ring s' k v)
            (both-Ends ⊥ (λ s2 u. Has (suc k) s2 u × (pending s2 ≡ pending s'))
              (λ s2 u. IdleFrom (suc k) s2 × (unseen u ≡ none))
              (prepare_read_request os ring s' k v)
              (prepared_read os ring src dst source laws src_size small_file held k (omega arith)
                (omega arith) (idle_from k (omega arith)))
              (prepare-IdleFrom k s' v idle_from nothing))
            (λ s2 u r. (r.0.0, r.0.1 ∙ same, r.1.0, r.1.1)))

  fresh-Copying :
      (w : os.World) → ((t : ℕ) → in_flight w t ≡ none) → Has 0 (fresh_status src_size src dst) w
  fresh-Copying w none_yet = record {
    cells = record {
      knows = none_yet;
      differ = λ c d ne. tt;
      beyond = λ c big. refl;
      copied = λ i l clear. absurd (omega (arith, l));
    };
    is_src = refl;
    is_dst = refl;
    is_size = refl;
    fits = omega arith;
    aligned = inl refl;
    counted = refl;
    all_in_use = λ l. refl;
  }

  fresh-pending : pending (fresh_status src_size src dst) ≡ 2 * ((src_size + 4095) / 4096)
  unfolding pending
  fresh-pending = omega arith

  all_copied :
      (s : CopyStatus) (u : os.World)
      → Has queue_size s u
      → unfinished s ≡ false
      → (i : ℕ) → i < src_size
      → content u i ≡ source i
  all_copied s u good over i l =
      let (all, num) = ended over in
      let size = good.is_size in
      good.cells.copied i (omega (arith, all, size, l))
        (λ c. idle_cell c num (s.block_statuses c).stage refl)
    where
      ended : unfinished s ≡ false → (s.src_off ≡ s.src_size) × (s.num_block_in_progress ≡ 0)
      ended e = (ground arith, ground arith)

      idle_cell :
          (c : ℕ)
          → s.num_block_in_progress ≡ 0
          → (p : BlockStage) → (s.block_statuses c).stage ≡ p
          → ¬ Covers (cells_of s c) i
      idle_cell c num p e = elim (dec_lt c queue_size) [
        | yes l' ↦
            let part = total-part queue_size c (λ d. busy (cells_of s d)) l' in
            let sum = good.counted in not_busy i (cells_of s c) (omega (arith, part, sum, num))
        | no big ↦ λ h. subst (λ x. Covers x i) (good.cells.beyond c (omega (arith, big))) h
      ]

  Finished-IsCopied :
      (r : Option CopyStatus) (u : os.World)
      → Finished os ring src dst source laws src_size small_file full r u
      → IsCopied content source src_size r u
  Finished-IsCopied none u h = h
  Finished-IsCopied (some s) u h = all_copied s u h.0 h.1

  -- If no request is in flight and no completion unseen at first, the file is shorter than 2^32 bytes, and transfers that do
  -- not fail are complete, then with fuel for more rounds, and for more completions in each round,
  -- than two for each block of 4096 bytes, the copy ends with every byte of the source below the
  -- size in the destination, or it has exited for a completion that reported an error.
  pub copy_file_copies :
      (w : os.World) (rounds fuel : ℕ)
      → ((t : ℕ) → in_flight w t ≡ none)
      → unseen w ≡ none
      → 2 * ((src_size + 4095) / 4096) < rounds
      → 2 * ((src_size + 4095) / 4096) < fuel
      → Ends
          (Failed os ring)
          (IsCopied content source src_size)
          (copy_file os ring rounds fuel (fresh_status src_size src dst) w)
  unfolding copy_file
  copy_file_copies w rounds fuel none_yet clear enough fuelled =
      let start : CopyStatus = fresh_status src_size src dst in
      let count = fresh-pending in
      bind-Ends (Failed os ring) (Began (pending start) queue_size)
        (IsCopied content source src_size) (first_reads os ring queue_size start)
        (copy_blocks os ring rounds fuel) w
        (never-Ends (Failed os ring) (Began (pending start) queue_size)
          (first_reads os ring queue_size start w)
          (first_reads-Ends queue_size start w (omega arith) (fresh-Copying w none_yet)
            (λ c le. refl) clear))
        (λ s v h.
          let (held, same, _, nothing) = h in
          weaken-Ends (Failed os ring)
            (Finished os ring src dst source laws src_size small_file full)
            (IsCopied content source src_size) (copy_blocks os ring rounds fuel s v)
            (copy_blocks-Ends os ring src dst source laws src_size small_file full rounds fuel s v
              held (omega (arith, same, count, enough)) (omega (arith, same, count, fuelled))
              nothing)
            Finished-IsCopied)
