-- ===== src/FileCopy/Sync.antt =====
-- 04_async_io/sync-cp.c: a copy block by block.
mod Copied
mod Tests
use networking_howto.Prelude.{
  ℕ, zero, suc, ◌+◌, ◌%◌, ◌^◌, Bool, true, false, Option, none, some, List, if◌then◌else◌, ltb,
  ◌==◌, length, u32,
}
use networking_howto.Prelude.Program.{M, ◌>>=◌, ◌>>◌, pure, or_exit, value_or_exit}
use networking_howto.Fileshare.Posix.{Posix, Fd}
use networking_howto.FileCopy.Common.{open_src_file, open_dst_file, close_src_dst_files}

abbrev pub sync_block_size : ℕ
sync_block_size = 4096

module _ (os : Posix) where
  open os use {World, read, write}

  abbrev pub is_all : (buf : List ℕ) → Option ℕ → Bool
  is_all buf none = false
  is_all buf (some bytes_written) = bytes_written == length buf

  -- A `write` that fails unless it takes the whole buffer.
  abbrev pub write_whole : Fd → (buf : List ℕ) → World → Bool × World
  write_whole fd buf w = let (r, v) = write fd buf w in (is_all buf r, v)

  -- Behind the read of a round: the write, and the test for a short block. The result says whether
  -- the loop has ended.
  unfoldable pub copy_block :
      (again : ℕ → M World Bool) (dst_fd : Fd) (i : ℕ) → (buf : List ℕ) → M World Bool
  copy_block again dst_fd i buf =
      or_exit (write_whole dst_fd buf)
      >> (if length buf == sync_block_size then again (u32 (i + length buf)) else pure true)

  -- The for loop of `main`, on a number of rounds.
  unfoldable pub copy_loop : (rounds : ℕ) (src_fd dst_fd : Fd) (src_size i : ℕ) → M World Bool
  unfolding copy_block
  copy_loop zero src_fd dst_fd src_size i = pure false
  copy_loop (suc rounds) src_fd dst_fd src_size i =
      if ltb i src_size
      then (value_or_exit (read src_fd sync_block_size)
          >>= copy_block (λ j. copy_loop rounds src_fd dst_fd src_size j) dst_fd i)
      else pure true

  -- `main`, past the test of `argc`. `aligned_alloc` says whether there is memory for the buffer.
  unfoldable pub sync_cp :
      (aligned_alloc : World → Bool × World) (rounds : ℕ) (src_name dst_name : List ℕ)
      → M World Bool
  unfolding copy_loop open_src_file open_dst_file close_src_dst_files
  sync_cp aligned_alloc rounds src_name dst_name = do
    (src_fd, src_size) ← open_src_file os src_name
    dst_fd ← open_dst_file os dst_name src_size
    or_exit aligned_alloc
    ended ← copy_loop rounds src_fd dst_fd src_size 0
    if ended then (close_src_dst_files os src_fd src_size dst_fd >> pure true) else pure false
