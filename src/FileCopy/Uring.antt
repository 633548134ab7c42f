-- ===== src/FileCopy/Uring.antt =====
-- 04_async_io/io-uring-cp.c: a copy that keeps up to sixteen blocks in the queue of the kernel.
pub mod Laws
pub mod Cells
mod Steps
mod Requests
mod Status
mod Completions
mod Reaping
mod Copied
mod WholeFile
mod Tests
use networking_howto.Prelude.{
  update, ℕ, zero, suc, ◌+◌, ◌-◌, ◌%◌, ◌^◌, Bool, true, false, ◌||◌, not, Option, none, some, List,
  if◌then◌else◌, ltb, ◌==◌, u16, u32, sub32,
}
use networking_howto.Prelude.Program.{
  Outcome, done, exit_failure, M, ◌>>=◌, ◌>>◌, pure, exit, call, or_exit,
}
use networking_howto.Fileshare.Posix.{Posix, Fd}
use networking_howto.FileCopy.Common.{open_src_file, open_dst_file, close_src_dst_files}

abbrev pub read_block_size : ℕ
read_block_size = 4096

abbrev pub queue_size : ℕ
queue_size = 16

-- An entry of the completion queue. A `res` below 0 is `none`.
pub record Cqe : Type 0 where
  pub user_data : ℕ
  pub res : Option ℕ

-- What the program calls of liburing. The `prep` calls stand for `io_uring_get_sqe`, the preparation
-- of the entry and the setting of its `user_data`. `cqe_seen` is given what the last peek has found.
pub record Ring (os : Posix) : Type 0 where
  pub queue_init : (entries : ℕ) → os.World → Bool × os.World
  pub register_buffers : (count : ℕ) → os.World → Bool × os.World
  pub prep_read_fixed : Fd → (nbytes offset buf_index user_data : ℕ) → os.World → os.World
  pub prep_write_fixed : Fd → (nbytes offset buf_index user_data : ℕ) → os.World → os.World
  pub submit_and_wait : (wait_nr : ℕ) → os.World → os.World
  pub peek_cqe : os.World → Option Cqe × os.World
  pub cqe_seen : Option Cqe → os.World → os.World
  pub queue_exit : os.World → os.World

pub data BlockStage : Type 0 where
  block_idle : BlockStage
  block_in_read : BlockStage
  block_in_write : BlockStage

pub record BlockStatus : Type 0 where
  pub stage : BlockStage
  pub offset : ℕ
  pub size : ℕ

-- The pointers to the buffers and the ring are left out: they do not change.
pub record CopyStatus : Type 0 where
  pub src_fd : Fd
  pub dst_fd : Fd
  pub src_off : ℕ
  pub src_size : ℕ
  pub num_block_in_progress : ℕ
  pub block_statuses : ℕ → BlockStatus

abbrev pub tell : {W : Type 0} → (W → W) → M W (Unit {0})
tell f w = done tt (f w)

abbrev pub fresh_status : (src_size : ℕ) (src_fd dst_fd : Fd) → CopyStatus
fresh_status src_size src_fd dst_fd = record {
  src_fd = src_fd;
  dst_fd = dst_fd;
  src_off = 0;
  src_size = src_size;
  num_block_in_progress = 0;
  block_statuses = λ cell. record { stage = block_idle; offset = 0; size = 0 };
}

-- `uint32_t bytes_left = status->src_size - status->src_off`
abbrev pub bytes_left : CopyStatus → ℕ
bytes_left s = sub32 s.src_size (u32 s.src_off)

abbrev pub next_size : CopyStatus → ℕ
next_size s = if ltb (bytes_left s) read_block_size then bytes_left s else read_block_size

-- The block of a cell at the offset that is reached, and the status behind it.
abbrev pub reading_block : CopyStatus → (cell : ℕ) → CopyStatus
reading_block s cell = record s {
  src_off = s.src_off + next_size s;
  num_block_in_progress = u16 (s.num_block_in_progress + 1);
  block_statuses =
      update s.block_statuses cell
        (record { stage = block_in_read; offset = s.src_off; size = next_size s });
}

abbrev pub set_stage : CopyStatus → (cell : ℕ) → BlockStage → CopyStatus
set_stage s cell stage = record s {
  block_statuses = update s.block_statuses cell (record (s.block_statuses cell) { stage = stage });
}

abbrev pub finish_write_request : CopyStatus → (cell : ℕ) → CopyStatus
finish_write_request s cell = record (set_stage s cell block_idle) {
  num_block_in_progress = u16 (s.num_block_in_progress + 2 ^ 16 - 1);
}

-- The test of the while loop.
abbrev pub unfinished : CopyStatus → Bool
unfinished s = not (s.src_off == s.src_size) || not (s.num_block_in_progress == 0)

module _ (os : Posix) (ring : Ring os) where
  open os use {World}
  open ring use {
    queue_init, register_buffers, prep_read_fixed, prep_write_fixed, submit_and_wait, peek_cqe,
    cqe_seen, queue_exit,
  }

  unfoldable pub init_copying_status : (src_size : ℕ) (src_fd dst_fd : Fd) → M World CopyStatus
  init_copying_status src_size src_fd dst_fd = do
    or_exit (queue_init queue_size)
    or_exit (register_buffers queue_size)
    pure (fresh_status src_size src_fd dst_fd)

  unfoldable pub prepare_read_request : CopyStatus → (cell : ℕ) → M World CopyStatus
  prepare_read_request s cell =
      if bytes_left s == 0
      then pure s
      else tell (prep_read_fixed s.src_fd read_block_size s.src_off cell cell)
        >> pure (reading_block s cell)

  unfoldable pub prepare_write_request : CopyStatus → (cell : ℕ) → M World CopyStatus
  prepare_write_request s cell =
      tell (prep_write_fixed s.dst_fd read_block_size (s.block_statuses cell).offset cell cell)
      >> pure (set_stage s cell block_in_write)

  -- The completion of the request of `cell`, whose block is at that stage.
  unfoldable pub completed :
      CopyStatus → (cell : ℕ) → (res : Option ℕ) → BlockStage → M World CopyStatus
  unfolding prepare_read_request prepare_write_request
  completed s cell none block_in_read = exit
  completed s cell (some n) block_in_read = prepare_write_request s cell
  completed s cell none block_in_write = exit
  completed s cell (some n) block_in_write = prepare_read_request (finish_write_request s cell) cell
  completed s cell res block_idle = pure s

  -- What the do-while loop does with the result of a peek, before it goes on with `again` or ends.
  unfoldable pub reap_one :
      (again : CopyStatus → M World (Option CopyStatus))
      → CopyStatus
      → Option Cqe
      → M World (Option CopyStatus)
  unfolding completed
  reap_one again s none = tell (cqe_seen none) >> pure (some s)
  reap_one again s (some cqe) =
      completed s cqe.user_data cqe.res (s.block_statuses cqe.user_data).stage >>= λ s'.
      tell (cqe_seen (some cqe)) >> again s'

  -- The do-while loop over the completions that are there; `none` if the fuel runs out.
  unfoldable pub reap : (fuel : ℕ) → CopyStatus → M World (Option CopyStatus)
  unfolding reap_one
  reap zero s = pure none
  reap (suc fuel) s = call peek_cqe >>= reap_one (reap fuel) s

  abbrev pub if_some :
      (CopyStatus → M World (Option CopyStatus)) → Option CopyStatus → M World (Option CopyStatus)
  if_some f none = pure none
  if_some f (some s) = f s

  -- The while loop of `main`, with fuel for its rounds and for the completions of each.
  unfoldable pub copy_blocks : (rounds fuel : ℕ) → CopyStatus → M World (Option CopyStatus)
  unfolding reap
  copy_blocks zero fuel s = pure none
  copy_blocks (suc rounds) fuel s =
      if unfinished s
      then (tell (submit_and_wait 1) >> reap fuel s >>= if_some (copy_blocks rounds fuel))
      else pure (some s)

  -- The first requests: one for each cell below `k`.
  unfoldable pub first_reads : (k : ℕ) → CopyStatus → M World CopyStatus
  unfolding prepare_read_request
  first_reads zero s = pure s
  first_reads (suc k) s = first_reads k s >>= λ s'. prepare_read_request s' k

  unfoldable pub copy_file : (rounds fuel : ℕ) → CopyStatus → M World (Option CopyStatus)
  unfolding first_reads copy_blocks
  copy_file rounds fuel s = first_reads queue_size s >>= λ s'. copy_blocks rounds fuel s'

  -- `main`, past the test of `argc`.
  unfoldable pub io_uring_cp :
      (rounds fuel : ℕ) (src_name dst_name : List ℕ) → M World (Option CopyStatus)
  unfolding copy_file init_copying_status open_src_file open_dst_file close_src_dst_files
  io_uring_cp rounds fuel src_name dst_name = do
    (src_fd, src_size) ← open_src_file os src_name
    dst_fd ← open_dst_file os dst_name src_size
    status ← init_copying_status src_size src_fd dst_fd
    copied ← copy_file rounds fuel status
    if_some (λ s. tell queue_exit >> close_src_dst_files os src_fd src_size dst_fd >> pure (some s))
        copied
