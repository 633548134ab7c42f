-- ===== src/Fileshare/Laws.antt =====
-- What the documentation of the system calls says, as far as the file server relies on it.
use networking_howto.Prelude.{ℕ, ◌≤◌, ◌<◌, ◌≡◌, none, some, List, ◌++◌, length, take, drop}
use networking_howto.Fileshare.Posix.{Posix, Fd}

-- `sent w fd` are the bytes that the socket `fd` has taken so far, `content w fd` those of the file.
-- A write takes a prefix of the buffer and reports its length; one that fails takes nothing. A read
-- gives bytes of the file from the offset on, at most as many as asked for, and none only at the end
-- or if none were asked for.
pub record Laws (os : Posix) : Type 0 where
  pub sent : os.World → Fd → List ℕ
  pub content : os.World → Fd → List ℕ
  pub write_some :
      (fd : Fd) (buf : List ℕ) (w : os.World) (n : ℕ)
      → (os.write fd buf w).0 ≡ some n
      → (n ≤ length buf) × (sent (os.write fd buf w).1 fd ≡ sent w fd ++ take n buf)
  pub write_none :
      (fd : Fd) (buf : List ℕ) (w : os.World)
      → (os.write fd buf w).0 ≡ none
      → sent (os.write fd buf w).1 fd ≡ sent w fd
  pub write_keeps :
      (fd : Fd) (buf : List ℕ) (w : os.World) (file : Fd)
      → content (os.write fd buf w).1 file ≡ content w file
  pub pread_some :
      (fd : Fd) (count offset : ℕ) (w : os.World) (got : List ℕ)
      → (os.pread fd count offset w).0 ≡ some got
      → (length got ≤ count)
        × (got ≡ take (length got) (drop offset (content w fd)))
        × (0 < count → length got ≡ 0 → length (content w fd) ≤ offset)
  pub pread_keeps :
      (fd : Fd) (count offset : ℕ) (w : os.World) (other : Fd)
      → (sent (os.pread fd count offset w).1 other ≡ sent w other)
        × (content (os.pread fd count offset w).1 other ≡ content w other)
