-- ===== src/FileCopy/Uring/Copied.antt =====
-- The loops of 04_async_io/io-uring-cp.c: they end, and the file is copied.
use networking_howto.Prelude.{
  ℕ_discrete, total, ℕ, zero, suc, ◌^◌, ◌<◌, ◌≡◌, ◌≢◌, inl, inr, true, false, Option, none, some,
  ◌==◌, ==_iff, Bool-cases, arith, refl, sym, ◌∙◌,
}
use networking_howto.Prelude.Ends.{Ends, bind-Ends}
use networking_howto.Fileshare.Posix.{Posix, Fd}
use networking_howto.FileCopy.Uring.{
  Ring, Cqe, queue_size, BlockStage, block_idle, block_in_read, block_in_write, CopyStatus,
  reap_one, reap, unfinished, if_some, copy_blocks,
}
use networking_howto.FileCopy.Uring.Laws.{RingLaws, FullTransfers}
use networking_howto.FileCopy.Uring.Cells.{Knows, cell_at}
use networking_howto.FileCopy.Uring.Status.{busy, cells_of, pending}
use networking_howto.FileCopy.Uring.Completions.{Failed}
use networking_howto.FileCopy.Uring.Reaping.{Going, quiet, Reaped, reap_one-Ends, reap-Ends}

-- A sum that is not 0 has a summand that is not.
some_summand : (n : ℕ) (f : ℕ → ℕ) → total n f ≢ 0 → (c : ℕ) × (c < n) × (f c ≢ 0)
some_summand zero f h = absurd (h refl)
some_summand (suc n) f h = elim (ℕ_discrete (f n) 0) [
  | yes e ↦
      let (c, l, ne) = some_summand n f (λ e'. h (omega (arith, e, e'))) in
      (c, omega (arith, l), ne)
  | no ne ↦ (n, omega arith, ne)
]

module _ (os : Posix) (ring : Ring os) (src dst : Fd) (source : ℕ → ℕ)
    (laws : RingLaws os ring src dst source) (src_size : ℕ) (small_file : src_size < 2 ^ 32)
    (full : FullTransfers os ring src dst source laws src_size) where
  open laws use {in_flight, content, unseen}

  abbrev pub Goes : ℕ → CopyStatus → os.World → Type 0
  Goes k s w = Going os ring src dst source laws src_size small_file full k s w

  -- A cell that is busy has a request in flight.
  has_request :
      (w : os.World) (off c o z : ℕ) (p : BlockStage)
      → busy (cell_at p o z) ≢ 0
      → Knows os ring src dst source laws src_size off w c (cell_at p o z)
      → in_flight w c ≢ none
  has_request w off c o z block_idle more k = absurd (more refl)
  has_request w off c o z block_in_read more k = λ e. absurd (let r = k.0 in cc)
  has_request w off c o z block_in_write more k = λ e. absurd (let r = k.0 in cc)

  num-ne :
      (s : CopyStatus) (w : os.World)
      → Goes queue_size s w
      → unfinished s ≡ true
      → s.num_block_in_progress ≢ 0
  num-ne s w good more e =
      let size = good.is_size in
      let fits = good.fits in
      let in_use = good.all_in_use in
      elim (Bool-cases (s.src_off == s.src_size)) [
        | inl same ↦
            let num = (==_iff s.num_block_in_progress 0).1 e in
            false_true (sym (both same num) ∙ more)
        | inr other ↦
            let ne : s.src_off ≢ s.src_size =
              λ h. (let same = (==_iff s.src_off s.src_size).1 h in cc) in
            let all = in_use (omega (arith, size, fits, ne)) in omega (arith, all, e)
      ]
    where
      false_true : false ≡ true → ⊥
      false_true h = cc

      both :
          (s.src_off == s.src_size) ≡ true
          → (s.num_block_in_progress == 0) ≡ true
          → unfinished s ≡ false
      both a b = rw (a, b) refl

  -- A round of the while loop takes at least one completion.
  round-Ends :
      (fuel : ℕ) (s : CopyStatus) (w : os.World)
      → Goes queue_size s w
      → pending s < fuel
      → unfinished s ≡ true
      → unseen w ≡ none
      → Ends
          (Failed os ring)
          (Reaped os ring src dst source laws src_size small_file full (pending s))
          (reap os ring fuel s (ring.submit_and_wait 1 w))
  unfolding reap
  round-Ends zero s w good enough more clear = absurd (omega arith)
  round-Ends (suc fuel) s w good enough more clear =
      let num = good.counted in
      let ne = num-ne s w good more in
      let (c, small, is_busy) =
        some_summand queue_size (λ c. busy (cells_of s c)) (λ e. ne (num ∙ e)) in
      let waits = laws.submit_waits c w small (
        has_request w s.src_off c (s.block_statuses c).offset (s.block_statuses c).size
          (s.block_statuses c).stage is_busy (good.cells.knows c)) in
      let submitted : os.World = ring.submit_and_wait 1 w in
      go submitted
        (quiet os ring src dst source laws src_size small_file full queue_size s w submitted
          (laws.submit_keeps 1 w) good)
        (laws.submit_unseen 1 w ∙ clear) waits (ring.peek_cqe submitted).0 refl
    where
      go :
          (v : os.World)
          → Goes queue_size s v
          → unseen v ≡ none
          → (ring.peek_cqe v).0 ≢ none
          → (r : Option Cqe) → (ring.peek_cqe v).0 ≡ r
          → Ends
              (Failed os ring)
              (Reaped os ring src dst source laws src_size small_file full (pending s))
              (reap_one os ring (reap os ring fuel) s r (ring.peek_cqe v).1)
      go v held nothing some_there none e = absurd (some_there e)
      go v held nothing some_there (some cqe) e =
          reap_one-Ends os ring src dst source laws src_size small_file full fuel
            (reap os ring fuel) s v cqe
            (reap-Ends os ring src dst source laws src_size small_file full fuel) held enough
            (e, nothing)

  -- Every block has been written.
  abbrev pub Finished : Option CopyStatus → os.World → Type 0
  Finished none u = ⊥
  Finished (some s) u = Goes queue_size s u × (unfinished s ≡ false)

  pub copy_blocks-Ends :
      (rounds fuel : ℕ) (s : CopyStatus) (w : os.World)
      → Goes queue_size s w
      → pending s < rounds
      → pending s < fuel
      → unseen w ≡ none
      → Ends (Failed os ring) Finished (copy_blocks os ring rounds fuel s w)
  unfolding copy_blocks
  copy_blocks-Ends zero fuel s w good enough fuelled clear = absurd (omega arith)
  copy_blocks-Ends (suc rounds) fuel s w good enough fuelled clear =
      elim (Bool-cases (unfinished s)) [
        | inl more ↦ rw more (
            bind-Ends (Failed os ring)
              (Reaped os ring src dst source laws src_size small_file full (pending s)) Finished
              (λ v. reap os ring fuel s (ring.submit_and_wait 1 v))
              (if_some os ring (copy_blocks os ring rounds fuel)) w
              (round-Ends fuel s w good fuelled more clear)
              (next (λ s' u held less nothing.
                copy_blocks-Ends rounds fuel s' u held (omega (arith, less, enough))
                  (omega (arith, less, fuelled)) nothing)))
        | inr over ↦ rw over (good, over)
      ]
    where
      next :
          ((s' : CopyStatus) (u : os.World)
            → Goes queue_size s' u
            → pending s' < pending s
            → unseen u ≡ none
            → Ends (Failed os ring) Finished (copy_blocks os ring rounds fuel s' u))
          → (r : Option CopyStatus) (u : os.World)
          → Reaped os ring src dst source laws src_size small_file full (pending s) r u
          → Ends (Failed os ring) Finished (if_some os ring (copy_blocks os ring rounds fuel) r u)
      next ih none u h = absurd h
      next ih (some s') u h = ih s' u h.0 h.1 h.2
