-- ===== src/Mutex.antt =====
-- The lock of the system's libraries that 01_blocking_sync and 03_readers_writers/mutex-seqlock.c use:
-- a mutex, or a semaphore that is one at first.
pub mod Plain
use networking_howto.Prelude.{ℕ, ◌≡◌, Option, none, some}

-- What `pthread_mutex_lock` or `sem_wait` comes to: the lock is taken, the caller is blocked,
-- or an error is returned.
pub data LockResult (S : Type 0) : Type 0 where
  acquired : S → LockResult S
  blocked : LockResult S
  refused : LockResult S

-- `unlock` gives `none` on an error.
pub record Mutex : Type 1 where
  pub State : Type 0
  pub initializer : State
  pub lock : (thread : ℕ) → State → LockResult State
  pub unlock : (thread : ℕ) → State → Option State

-- What the documentation says of a mutex, or of a semaphore between one and zero: it is taken only when it is free, and it is then its
-- owner's until the owner gives it back.
pub record MutexLaws (mutex : Mutex) : Type 0 where
  pub owner : mutex.State → Option ℕ
  pub free_at_first : owner mutex.initializer ≡ none
  pub lock_acquired :
      (t : ℕ) (m m' : mutex.State)
      → mutex.lock t m ≡ acquired m'
      → (owner m ≡ none) × (owner m' ≡ some t)
  pub unlock_frees :
      (t : ℕ) (m m' : mutex.State) → owner m ≡ some t → mutex.unlock t m ≡ some m' → owner m' ≡ none
