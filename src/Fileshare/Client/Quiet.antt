-- ===== src/Fileshare/Client/Quiet.antt =====
-- A connection and a disk without errors, as far as the client relies on them.
use networking_howto.Prelude.{
  ℕ, ◌+◌, ◌≤◌, ◌<◌, ◌≡◌, Bool, true, some, List, ◌++◌, length, take, drop,
}
use networking_howto.Fileshare.Posix.{Posix, Fd}

-- `incoming w fd` is what the other side sends over the socket `fd` and has not been received,
-- `written w fd` the content of the file.
module _ (os : Posix) (incoming written : os.World → Fd → List ℕ) where
  -- What a `recv` gives: bytes from the front, at least one, at most `count`, and all of them with
  -- MSG_WAITALL.
  pub record Received (fd : Fd) (count : ℕ) (waitall : Bool) (w : os.World) : Type 0 where
    pub got : List ℕ
    pub result : (os.recv fd count waitall w).0 ≡ some got
    pub some_got : 0 < length got
    pub not_more : length got ≤ count
    pub all_got : waitall ≡ true → count ≤ length (incoming w fd) → length got ≡ count
    pub front : got ≡ take (length got) (incoming w fd)
    pub rest : incoming (os.recv fd count waitall w).1 fd ≡ drop (length got) (incoming w fd)
    pub keeps : (file : Fd) → written (os.recv fd count waitall w).1 file ≡ written w file

  -- A `pwrite` writes all bytes at the offset, and leaves those before it.
  pub record Written (fd : Fd) (buf : List ℕ) (offset : ℕ) (w : os.World) : Type 0 where
    pub result : (os.pwrite fd (some buf) offset w).0 ≡ some (length buf)
    pub reaches : offset + length buf ≤ length (written (os.pwrite fd (some buf) offset w).1 fd)
    pub content :
        take (offset + length buf) (written (os.pwrite fd (some buf) offset w).1 fd)
        ≡ take offset (written w fd) ++ buf
    pub keeps :
        (socket : Fd) → incoming (os.pwrite fd (some buf) offset w).1 socket ≡ incoming w socket

pub record Quiet (os : Posix) : Type 0 where
  pub incoming : os.World → Fd → List ℕ
  pub written : os.World → Fd → List ℕ
  pub recv_works :
      (fd : Fd) (count : ℕ) (waitall : Bool) (w : os.World)
      → 0 < count
      → 0 < length (incoming w fd)
      → Received os incoming written fd count waitall w
  pub pwrite_works :
      (fd : Fd) (buf : List ℕ) (offset : ℕ) (w : os.World)
      → offset ≤ length (written w fd)
      → Written os incoming written fd buf offset w
