-- ===== src/FileCopy/Common.antt =====
-- 04_async_io/common.h: opening and closing the two files of a copy.
use networking_howto.Prelude.{ℕ, List, u32}
use networking_howto.Prelude.Program.{M, ◌>>=◌, ◌>>◌, pure, or_exit, value_or_exit}
use networking_howto.Fileshare.Posix.{Posix, Fd}
use networking_howto.Prelude.{Option, none, some}

-- `*fd == -1`
opened : {W : Type 0} → Fd × W → Option Fd × W
opened (none, w) = (none, w)
opened (some n, w) = (some (some n), w)

module _ (os : Posix) where
  open os use {World, open_read, open_trunc, fstat, fallocate, ftruncate, fsync, close}

  -- The descriptor and the size. `st_size` has 64 bits, and `*file_size` keeps 32 of them. The flag
  -- O_DIRECT, which asks for transfers past the caches of the system, is left out.
  unfoldable pub open_src_file : (filename : List ℕ) → M World (Fd × ℕ)
  unfolding opened
  open_src_file filename = do
    fd ← value_or_exit (λ w. opened (open_read filename w))
    st_size ← value_or_exit (fstat fd)
    pure (fd, u32 st_size)

  unfoldable pub open_dst_file : (filename : List ℕ) (src_size : ℕ) → M World Fd
  unfolding opened
  open_dst_file filename src_size = do
    fd ← value_or_exit (λ w. opened (open_trunc filename w))
    or_exit (fallocate fd src_size)
    pure fd

  unfoldable pub close_src_dst_files :
      (src_fd : Fd) (src_size : ℕ) (dst_fd : Fd) → M World (Unit {0})
  close_src_dst_files src_fd src_size dst_fd = do
    or_exit (ftruncate dst_fd src_size)
    or_exit (fsync dst_fd)
    or_exit (close src_fd)
    or_exit (close dst_fd)
