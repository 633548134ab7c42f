-- ===== src/FileCopy/Uring/Completions.antt =====
-- A completion in 04_async_io/io-uring-cp.c.
use networking_howto.Prelude.{
  update, update_self, update_ne, total-part, ℕ, suc, ◌+◌, ◌-◌, ◌^◌, ◌<◌, ◌≡◌, none, some, arith,
  refl, sym, ap, ◌∙◌, subst, u16,
}
use networking_howto.Prelude.Program.{Outcome, done, exit_failure}
use networking_howto.Prelude.Ends.{Ends}
use networking_howto.Fileshare.Posix.{Posix, Fd}
use networking_howto.FileCopy.Uring.{
  Ring, Cqe, queue_size, BlockStage, block_idle, block_in_read, block_in_write, BlockStatus,
  CopyStatus, finish_write_request, prepare_read_request, prepare_write_request,
}
use networking_howto.FileCopy.Uring.Laws.{Fresh, RingLaws, FullTransfers}
use networking_howto.FileCopy.Uring.Cells.{idle, filled, in_write, cell_at}
use networking_howto.FileCopy.Uring.Steps.{Now, below_queue, read-Cells, write-Cells}
use networking_howto.FileCopy.Uring.Requests.{prepared_write-Cells}
use networking_howto.FileCopy.Uring.Status.{
  busy, weight, cells_of, pending, update-cell_of, total-cell, Copying, busy-bound, prepared_read,
}

-- A completion has reported an error.
abbrev pub Failed : (os : Posix) → Ring os → Type 0
Failed os ring = (w : os.World) × (cqe : Cqe) × ((ring.peek_cqe w).0 ≡ some cqe) × (cqe.res ≡ none)

module _ (os : Posix) (ring : Ring os) (src dst : Fd) (source : ℕ → ℕ)
    (laws : RingLaws os ring src dst source) (src_size : ℕ) (small_file : src_size < 2 ^ 32)
    (full : FullTransfers os ring src dst source laws src_size) (s : CopyStatus) (w : os.World)
    (cqe : Cqe) (found : Fresh laws.unseen ring.peek_cqe w cqe) where
  abbrev cell : ℕ
  cell = cqe.user_data

  abbrev old_block : BlockStatus
  old_block = s.block_statuses cqe.user_data

  abbrev next_world : os.World
  next_world = (ring.peek_cqe w).1

  abbrev WellCopying : ℕ → CopyStatus → os.World → Type 0
  WellCopying k t v = Copying os ring src dst source laws src_size small_file k t v

  module _ (good : WellCopying queue_size s w) where
    pub at_stage :
        (p : BlockStage)
        → old_block.stage ≡ p
        → cells_of s cell ≡ cell_at p old_block.offset old_block.size
    at_stage p at = ap (λ x. cell_at x old_block.offset old_block.size) at

    -- A block that was read is to be written.
    pub read_completed :
        (k : ℕ)
        → cqe.res ≡ some k
        → old_block.stage ≡ block_in_read
        → Ends ⊥
            (λ s' u. WellCopying queue_size s' u × (suc (pending s') ≡ pending s))
            (prepare_write_request os ring s cell next_world)
    unfolding prepare_write_request pending
    read_completed k res at =
        let is_read = at_stage block_in_read at in
        let small =
          below_queue os ring src dst source laws src_size good.cells good.fits cell (λ e. cc) in
        let read =
          read-Cells os ring src dst source laws src_size good.cells good.fits full cqe k
            old_block.offset old_block.size found res is_read in
        let held = update_self (cells_of s) cell (filled old_block.offset old_block.size) in
        let written =
          prepared_write-Cells os ring src dst source laws src_size read good.fits cell
            old_block.offset old_block.size held in
        let fresh : BlockStatus = record old_block { stage = block_in_write } in
        let num = good.counted in
        let sum = total-cell busy s.block_statuses cell fresh small in
        let sum_w = total-cell weight s.block_statuses cell fresh small in
        let old = ap busy is_read in
        let old_w = ap weight is_read in
        (
          record {
            cells =
                subst
                  (λ g.
                    Now os ring src dst source laws src_size s.src_off g
                      (ring.prep_write_fixed s.dst_fd 4096 old_block.offset cell cell next_world))
                  (update-cell_of s.block_statuses
                    (update (cells_of s) cell (filled old_block.offset old_block.size)) cell fresh
                    (in_write old_block.offset old_block.size) refl
                    (λ d ne.
                      update_ne (cells_of s) cell (filled old_block.offset old_block.size) d ne))
                  (subst
                    (λ fd.
                      Now os ring src dst source laws src_size s.src_off
                        (update (update (cells_of s) cell (filled old_block.offset old_block.size))
                          cell (in_write old_block.offset old_block.size))
                        (ring.prep_write_fixed fd 4096 old_block.offset cell cell next_world))
                    (sym good.is_dst) written);
            is_src = good.is_src;
            is_dst = good.is_dst;
            is_size = good.is_size;
            fits = good.fits;
            aligned = good.aligned;
            counted = omega (arith, num, sum, old);
            all_in_use = good.all_in_use;
          },
          omega (arith, sum_w, old_w),
        )

    -- A block that was written leaves its cell, which takes the next block.
    pub write_completed :
        (k : ℕ)
        → cqe.res ≡ some k
        → old_block.stage ≡ block_in_write
        → Ends ⊥
            (λ s' u. WellCopying queue_size s' u × (suc (pending s') ≡ pending s))
            (prepare_read_request os ring (finish_write_request s cell) cell next_world)
    unfolding pending
    write_completed k res at =
        let is_write = at_stage block_in_write at in
        let small =
          below_queue os ring src dst source laws src_size good.cells good.fits cell (λ e. cc) in
        let written =
          write-Cells os ring src dst source laws src_size good.cells good.fits full cqe k
            old_block.offset old_block.size found res is_write in
        let fresh : BlockStatus = record old_block { stage = block_idle } in
        let num = good.counted in
        let bound = busy-bound os ring src dst source laws src_size small_file (cells_of s) in
        let sum = total-cell busy s.block_statuses cell fresh small in
        let sum_w = total-cell weight s.block_statuses cell fresh small in
        let old = ap busy is_write in
        let old_w = ap weight is_write in
        let part = total-part queue_size cell (λ c. busy (cells_of s c)) small in
        let now : s.num_block_in_progress + 2 ^ 16 - 1 ≡ 2 ^ 16 + (s.num_block_in_progress - 1) =
          omega (arith, num, part, old) in
        let one_less : u16 (s.num_block_in_progress + 2 ^ 16 - 1) ≡ s.num_block_in_progress - 1 =
          omega (arith, num, bound, part, old, now) in
        let in_use = good.all_in_use in
        let middle : WellCopying 15 (finish_write_request s cell) next_world = record {
          cells =
              subst (λ g. Now os ring src dst source laws src_size s.src_off g next_world)
                (update-cell_of s.block_statuses (cells_of s) cell fresh idle refl (λ d ne. refl))
                written;
          is_src = good.is_src;
          is_dst = good.is_dst;
          is_size = good.is_size;
          fits = good.fits;
          aligned = good.aligned;
          counted = omega (arith, num, sum, old, one_less, part);
          all_in_use = λ l. let all = in_use l in omega (arith, all, one_less);
        } in
        fewer (prepare_read_request os ring (finish_write_request s cell) cell next_world)
          (prepared_read os ring src dst source laws src_size small_file middle cell small
            (omega arith) (ap (λ b. b.stage) (update_self s.block_statuses cell fresh)))
          (omega (arith, sum_w, old_w))
      where
        fewer :
            (r : Outcome os.World CopyStatus) {m : ℕ}
            → Ends ⊥ (λ s' u. WellCopying 16 s' u × (pending s' ≡ m)) r
            → suc m ≡ pending s
            → Ends ⊥ (λ s' u. WellCopying queue_size s' u × (suc (pending s') ≡ pending s)) r
        fewer (done s' u) h e = (h.0, ap suc h.1 ∙ e)
        fewer (exit_failure u) h e = h
