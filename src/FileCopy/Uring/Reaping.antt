-- ===== src/FileCopy/Uring/Reaping.antt =====
-- The loop over the completions of 04_async_io/io-uring-cp.c.
use networking_howto.Prelude.{
  ℕ, zero, suc, ◌^◌, ◌==◌, Bool-cases, inl, inr, ◌∙◌, ◌≤◌, ◌<◌, ◌≡◌, Option, none, some, arith,
  refl, subst,
}
use networking_howto.Prelude.Program.{Outcome, done, exit_failure, M}
use networking_howto.Prelude.Ends.{Ends, bind-Ends, also-Ends}
use networking_howto.Fileshare.Posix.{Posix, Fd}
use networking_howto.FileCopy.Uring.{
  Ring, Cqe, queue_size, read_block_size, bytes_left, BlockStage, block_idle, block_in_read,
  block_in_write, CopyStatus, finish_write_request, prepare_write_request, prepare_read_request,
  completed, reap_one, reap,
}
use networking_howto.FileCopy.Uring.Laws.{Fresh, Steady, RingLaws, FullTransfers}
use networking_howto.FileCopy.Uring.Cells.{Knows}
use networking_howto.FileCopy.Uring.Steps.{quiet-Cells}
use networking_howto.FileCopy.Uring.Status.{pending, Copying}
use networking_howto.FileCopy.Uring.Completions.{Failed, read_completed, write_completed, at_stage}

-- What never exits has that property also when an exit would mean something.
pub never-Ends :
    {W A : Type 0} (E : Type 0) (P : A → W → Type 0) (r : Outcome W A) → Ends ⊥ P r → Ends E P r
never-Ends E P (done a w) h = h
never-Ends E P (exit_failure w) h = absurd h

module _ (os : Posix) (ring : Ring os) (src dst : Fd) (source : ℕ → ℕ)
    (laws : RingLaws os ring src dst source) (src_size : ℕ) (small_file : src_size < 2 ^ 32)
    (full : FullTransfers os ring src dst source laws src_size) where
  open laws use {in_flight, content, buffer, unseen}

  abbrev pub Going : ℕ → CopyStatus → os.World → Type 0
  Going k s w = Copying os ring src dst source laws src_size small_file k s w

  pub quiet :
      (k : ℕ) (s : CopyStatus) (w v : os.World)
      → (in_flight v ≡ in_flight w) × Steady in_flight content buffer w v
      → Going k s w
      → Going k s v
  quiet k s w v same good = record {
    cells = quiet-Cells os ring src dst source laws src_size v good.fits same good.cells;
    is_src = good.is_src;
    is_dst = good.is_dst;
    is_size = good.is_size;
    fits = good.fits;
    aligned = good.aligned;
    counted = good.counted;
    all_in_use = good.all_in_use;
  }

  -- One completion fewer is to come than in the status `s`.
  abbrev Fewer : CopyStatus → CopyStatus → os.World → Type 0
  Fewer s s' u = Going queue_size s' u × (suc (pending s') ≡ pending s)

  completed-Ends :
      (s : CopyStatus) (w : os.World) (cqe : Cqe) (res : Option ℕ) (p : BlockStage)
      → Fresh unseen ring.peek_cqe w cqe
      → Going queue_size s w
      → cqe.res ≡ res
      → (s.block_statuses cqe.user_data).stage ≡ p
      → Ends
          (Failed os ring)
          (Fewer s)
          (completed os ring s cqe.user_data res p (ring.peek_cqe w).1)
  unfolding completed
  completed-Ends s w cqe (some k) block_in_read found good res at =
      never-Ends (Failed os ring) (Fewer s)
        (prepare_write_request os ring s cqe.user_data (ring.peek_cqe w).1)
        (read_completed os ring src dst source laws src_size small_file full s w cqe found good k
          res at)
  completed-Ends s w cqe none block_in_read found good res at = (w, cqe, found.0, res)
  completed-Ends s w cqe (some k) block_in_write found good res at =
      never-Ends (Failed os ring) (Fewer s)
        (prepare_read_request os ring (finish_write_request s cqe.user_data) cqe.user_data
          (ring.peek_cqe w).1)
        (write_completed os ring src dst source laws src_size small_file full s w cqe found good k
          res at)
  completed-Ends s w cqe none block_in_write found good res at = (w, cqe, found.0, res)
  completed-Ends s w cqe res block_idle found good e at = absurd (
      (laws.peek_some w cqe found).0 (
        subst (Knows os ring src dst source laws src_size s.src_off w cqe.user_data)
          (at_stage os ring src dst source laws src_size small_file full s w cqe found good
            block_idle at)
          (good.cells.knows cqe.user_data)))

  prepare_read-unseen :
      (s : CopyStatus) (cell : ℕ) (v : os.World)
      → Ends Unit (λ s' u. unseen u ≡ unseen v) (prepare_read_request os ring s cell v)
  unfolding prepare_read_request
  prepare_read-unseen s cell v = elim (Bool-cases (bytes_left s == 0)) [
    | inl all ↦ rw all refl
    | inr some_left ↦
        rw some_left (laws.prep_read_unseen s.src_fd read_block_size s.src_off cell cell v)
  ]

  -- What is done for a completion does not mark it as seen.
  completed-unseen :
      (s : CopyStatus) (cell : ℕ) (res : Option ℕ) (p : BlockStage) (v : os.World)
      → Ends Unit (λ s' u. unseen u ≡ unseen v) (completed os ring s cell res p v)
  unfolding completed prepare_write_request
  completed-unseen s cell (some k) block_in_read v =
      laws.prep_write_unseen s.dst_fd read_block_size (s.block_statuses cell).offset cell cell v
  completed-unseen s cell none block_in_read v = tt
  completed-unseen s cell (some k) block_in_write v =
      prepare_read-unseen (finish_write_request s cell) cell v
  completed-unseen s cell none block_in_write v = tt
  completed-unseen s cell res block_idle v = refl

  -- The loop over the completions has ended, with all of them marked as seen and fewer than `m` to come.
  abbrev pub Reaped : ℕ → Option CopyStatus → os.World → Type 0
  Reaped m none u = ⊥
  Reaped m (some s) u = Going queue_size s u × (pending s < m) × (unseen u ≡ none)

  Reaped-more :
      (m m' : ℕ) (r : Outcome os.World (Option CopyStatus))
      → m ≤ m'
      → Ends (Failed os ring) (Reaped m) r
      → Ends (Failed os ring) (Reaped m') r
  Reaped-more m m' (done none u) le h = h
  Reaped-more m m' (done (some s) u) le h = let less = h.1 in (h.0, omega (arith, less, le), h.2)
  Reaped-more m m' (exit_failure u) le h = h

  -- One peek: if it finds a completion, there is one fewer to come.
  abbrev pub AgainReaps : ℕ → (CopyStatus → M os.World (Option CopyStatus)) → Type 0
  AgainReaps fuel again =
      (s : CopyStatus) (w : os.World)
      → Going queue_size s w
      → pending s < fuel
      → unseen w ≡ none
      → Ends (Failed os ring) (Reaped (suc (pending s))) (again s w)

  pub reap_one-Ends :
      (fuel : ℕ) (again : CopyStatus → M os.World (Option CopyStatus)) (s : CopyStatus)
      (w : os.World) (cqe : Cqe)
      → AgainReaps fuel again
      → Going queue_size s w
      → pending s < suc fuel
      → Fresh unseen ring.peek_cqe w cqe
      → Ends
          (Failed os ring)
          (Reaped (pending s))
          (reap_one os ring again s (some cqe) (ring.peek_cqe w).1)
  unfolding reap_one
  reap_one-Ends fuel again s w cqe reaps good enough found =
      bind-Ends (Failed os ring) (λ s' u. Fewer s s' u × (unseen u ≡ unseen (ring.peek_cqe w).1))
        (Reaped (pending s))
        (completed os ring s cqe.user_data cqe.res (s.block_statuses cqe.user_data).stage)
        (λ s' u. again s' (ring.cqe_seen (some cqe) u)) (ring.peek_cqe w).1
        (also-Ends (Failed os ring) (Fewer s) (λ s' u. unseen u ≡ unseen (ring.peek_cqe w).1)
          (completed os ring s cqe.user_data cqe.res (s.block_statuses cqe.user_data).stage
            (ring.peek_cqe w).1)
          (completed-Ends s w cqe cqe.res (s.block_statuses cqe.user_data).stage found good refl
            refl)
          (completed-unseen s cqe.user_data cqe.res (s.block_statuses cqe.user_data).stage
            (ring.peek_cqe w).1))
        (λ s' u h.
          let less = h.0.1 in
          let marked = laws.seen_some cqe u (h.1 ∙ (laws.peek_some w cqe found).1) in
          Reaped-more (suc (pending s')) (pending s) (again s' (ring.cqe_seen (some cqe) u))
            (omega (arith, less))
            (reaps s' (ring.cqe_seen (some cqe) u)
              (quiet queue_size s' u (ring.cqe_seen (some cqe) u) (marked.1, marked.2) h.0.0)
              (omega (arith, less, enough)) marked.0))

  pub reap-Ends : (fuel : ℕ) → AgainReaps fuel (reap os ring fuel)
  unfolding reap
  reap-Ends zero s w good enough clear = absurd (omega arith)
  reap-Ends (suc fuel) s w good enough clear = go (reap-Ends fuel) (ring.peek_cqe w).0 refl
    where
      go :
          AgainReaps fuel (reap os ring fuel)
          → (r : Option Cqe) → (ring.peek_cqe w).0 ≡ r
          → Ends
              (Failed os ring)
              (Reaped (suc (pending s)))
              (reap_one os ring (reap os ring fuel) s r (ring.peek_cqe w).1)
      go reaps none e = (
        quiet queue_size s (ring.peek_cqe w).1 (ring.cqe_seen none (ring.peek_cqe w).1)
            ((laws.seen_none (ring.peek_cqe w).1).1, (laws.seen_none (ring.peek_cqe w).1).2)
            (quiet queue_size s w (ring.peek_cqe w).1
              ((laws.peek_none w e).1, (laws.peek_none w e).2) good),
        omega arith,
        (laws.seen_none (ring.peek_cqe w).1).0 ∙ (laws.peek_none w e).0,
      )
      go reaps (some cqe) e =
          Reaped-more (pending s) (suc (pending s))
            (reap_one os ring (reap os ring fuel) s (some cqe) (ring.peek_cqe w).1) (omega arith)
            (reap_one-Ends fuel (reap os ring fuel) s w cqe reaps good enough (e, clear))
