-- ===== src/FileCopy/Uring/Status.antt =====
-- The status of the copy of 04_async_io/io-uring-cp.c, and the requests that it prepares.
use mathlib.Core.Path.{fun_ext}
use networking_howto.Prelude.{
  update, update_self, update_ne, total, total-bound, total_change, ℕ, suc, ◌+◌, ◌-◌, ◌*◌, ◌/◌, ◌%◌,
  ◌^◌, ◌≤◌, ◌<◌, ◌≡◌, ◌≢◌, ◌⊎◌, inl, inr, ◌==◌, ==_iff, Bool-cases, arith, refl, sym, ap, subst,
}
use networking_howto.Prelude.Ends.{Ends}
use networking_howto.Fileshare.Posix.{Posix, Fd}
use networking_howto.FileCopy.Uring.{
  Ring, queue_size, read_block_size, block_idle, block_in_read, BlockStatus, CopyStatus, bytes_left,
  next_size, prepare_read_request,
}
use networking_howto.FileCopy.Uring.Laws.{RingLaws}
use networking_howto.FileCopy.Uring.Cells.{Cell, idle, in_read, filled, in_write, Block, cell_of}
use networking_howto.FileCopy.Uring.Steps.{Now}
use networking_howto.FileCopy.Uring.Requests.{prepared_read-Cells}

abbrev pub busy : Cell → ℕ
busy idle = 0
busy p = 1

-- The completions that a cell waits for.
abbrev pub weight : Cell → ℕ
weight idle = 0
weight (in_write o z) = 1
weight p = 2

abbrev pub cells_of : CopyStatus → ℕ → Cell
cells_of s c = cell_of (s.block_statuses c)

-- The completions that are still to come: two for each block.
unfoldable pub pending : CopyStatus → ℕ
pending s =
    2 * ((s.src_size - s.src_off + 4095) / 4096) + total queue_size (λ c. weight (cells_of s c))

pub update-cell_of :
    (f : ℕ → BlockStatus) (g : ℕ → Cell) (c : ℕ) (b : BlockStatus) (p : Cell)
    → p ≡ cell_of b
    → ((d : ℕ) → d ≢ c → g d ≡ cell_of (f d))
    → update g c p ≡ (λ d. cell_of (update f c b d))
update-cell_of f g c b p same others = fun_ext (λ d. elim (Bool-cases (d == c)) [
  | inl e ↦ rw e same
  | inr e ↦ rw e (others d (λ h. let yes_same = (==_iff d c).1 h in cc))
])

-- A sum over the cells of which one changes.
pub total-cell :
    (f : Cell → ℕ) (s : ℕ → BlockStatus) (c : ℕ) (b : BlockStatus)
    → c < queue_size
    → total queue_size (λ d. f (cell_of (update s c b d))) + f (cell_of (s c))
      ≡ total queue_size (λ d. f (cell_of (s d))) + f (cell_of b)
total-cell f s c b small =
    let change =
      total_change queue_size c (λ d. f (cell_of (update s c b d))) (λ d. f (cell_of (s d))) small
        (λ u ne. ap (λ x. f (cell_of x)) (update_ne s c b u ne)) in
    let here = ap (λ x. f (cell_of x)) (update_self s c b) in omega (arith, change, here)

module _ (os : Posix) (ring : Ring os) (src dst : Fd) (source : ℕ → ℕ)
    (laws : RingLaws os ring src dst source) (src_size : ℕ) (small_file : src_size < 2 ^ 32) where
  -- `k` cells are in use as long as not every block has been asked for.
  pub record Copying (k : ℕ) (s : CopyStatus) (w : os.World) : Type 0 where
    pub cells : Now os ring src dst source laws src_size s.src_off (cells_of s) w
    pub is_src : s.src_fd ≡ src
    pub is_dst : s.dst_fd ≡ dst
    pub is_size : s.src_size ≡ src_size
    pub fits : s.src_off ≤ src_size
    pub aligned : (s.src_off % 4096 ≡ 0) ⊎ (s.src_off ≡ src_size)
    pub counted : s.num_block_in_progress ≡ total queue_size (λ c. busy (cells_of s c))
    pub all_in_use : s.src_off < src_size → s.num_block_in_progress ≡ k

  pub busy-bound : (f : ℕ → Cell) → total queue_size (λ c. busy (f c)) ≤ queue_size
  busy-bound f = total-bound queue_size (λ c. busy (f c)) (λ c. most (f c))
    where
      most : (p : Cell) → busy p ≤ 1
      most idle = omega arith
      most (in_read o z) = omega arith
      most (filled o z) = omega arith
      most (in_write o z) = omega arith

  module _ {k : ℕ} {s : CopyStatus} {w : os.World} (good : Copying k s w) where
    left_lem : bytes_left s ≡ src_size - s.src_off
    left_lem =
        let size = good.is_size in let fits = good.fits in omega (arith, size, fits, small_file)

    size_lem : bytes_left s ≢ 0 → Block src_size (s.src_off + next_size s) s.src_off (next_size s)
    size_lem some_left =
        let left = left_lem in
        let fits = good.fits in
        let m = multiple good.aligned in ground (arith, left, fits, m, some_left)
      where
        multiple : (s.src_off % 4096 ≡ 0) ⊎ (s.src_off ≡ src_size) → s.src_off % 4096 ≡ 0
        multiple (inl m) = m
        multiple (inr end) = let left = left_lem in absurd (some_left (omega (arith, left, end)))

    -- A cell that is idle takes the next block, if there is one.
    pub prepared_read :
        (c : ℕ)
        → c < queue_size
        → k < queue_size
        → (s.block_statuses c).stage ≡ block_idle
        → Ends ⊥
            (λ s' v. Copying (suc k) s' v × (pending s' ≡ pending s))
            (prepare_read_request os ring s c w)
    unfolding prepare_read_request pending
    prepared_read c small few at = elim (Bool-cases (bytes_left s == 0)) [
      | inl all ↦
          let none_left = left_lem in
          let is_zero = (==_iff (bytes_left s) 0).0 all in
          rw all (
            record {
              cells = good.cells;
              is_src = good.is_src;
              is_dst = good.is_dst;
              is_size = good.is_size;
              fits = good.fits;
              aligned = good.aligned;
              counted = good.counted;
              all_in_use = λ l. absurd (omega (arith, l, none_left, is_zero));
            },
            refl,
          )
      | inr some_left ↦
          let left = left_lem in
          let block = size_lem (λ e. let is_zero = (==_iff (bytes_left s) 0).1 e in cc) in
          let is_idle : cells_of s c ≡ idle =
            ap (λ x. cell_of (record (s.block_statuses c) { stage = x })) at in
          let fresh : BlockStatus = record {
            stage = block_in_read;
            offset = s.src_off;
            size = next_size s;
          } in
          let num = good.counted in
          let bound = busy-bound (cells_of s) in
          let sum = total-cell busy s.block_statuses c fresh small in
          let sum_w = total-cell weight s.block_statuses c fresh small in
          let old = ap busy is_idle in
          let old_w = ap weight is_idle in
          let size = good.is_size in
          let in_use = good.all_in_use (omega (arith, block)) in
          rw some_left (
            record {
              cells =
                  subst
                    (λ g.
                      Now os ring src dst source laws src_size (s.src_off + next_size s) g
                        (ring.prep_read_fixed s.src_fd read_block_size s.src_off c c w))
                    (update-cell_of s.block_statuses (cells_of s) c fresh
                      (in_read s.src_off (next_size s)) refl (λ d ne. refl))
                    (subst
                      (λ fd.
                        Now os ring src dst source laws src_size (s.src_off + next_size s)
                          (update (cells_of s) c (in_read s.src_off (next_size s)))
                          (ring.prep_read_fixed fd read_block_size s.src_off c c w))
                      (sym good.is_src)
                      (prepared_read-Cells os ring src dst source laws src_size good.cells good.fits
                        c (next_size s) small is_idle block));
              is_src = good.is_src;
              is_dst = good.is_dst;
              is_size = size;
              fits = omega (arith, block);
              aligned = still_aligned s.src_off (next_size s) block;
              counted = omega (arith, num, sum, old, bound, few, in_use);
              all_in_use = λ l. omega (arith, in_use, few);
            },
            fewer _ _ (next_size s) block (omega (arith, sum_w, old_w)),
          )
    ]
      where
        still_aligned :
            (o z : ℕ) → Block src_size (o + z) o z → ((o + z) % 4096 ≡ 0) ⊎ (o + z ≡ src_size)
        still_aligned o z (m, _, _, _, _, inl whole) = inl (omega arith)
        still_aligned o z (m, _, _, _, _, inr end) = inr end

        fewer :
            (t t' z : ℕ)
            → Block src_size (s.src_off + z) s.src_off z
            → t' ≡ t + 2
            → 2 * ((s.src_size - (s.src_off + z) + 4095) / 4096) + t'
              ≡ 2 * ((s.src_size - s.src_off + 4095) / 4096) + t
        fewer t t' z (m, _, _, _, below, inl whole) two =
            let size = good.is_size in omega (arith, m, whole, two, size, below)
        fewer t t' z (m, pos, le, _, _, inr end) two =
            let size = good.is_size in omega (arith, m, pos, le, end, two, size)
