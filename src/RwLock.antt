-- ===== src/RwLock.antt =====
-- 03_readers_writers/mutex.c and rwlock.c: writers that add to a variable and readers that copy it,
-- all of them under the lock of their program.
mod Invariant
mod Steps
mod Safety
mod Tests
use networking_howto.Mutex.{LockResult, acquired, blocked, refused}
use networking_howto.Prelude.{
  update, ℕ, ◌+◌, ◌*◌, Bool, true, false, Option, none, some, List, [], ◌∷◌, if◌then◌else◌, ltb,
  ◌==◌, u64,
}

-- The lock as a writer and as a reader take it: the two functions of a `pthread_rwlock_t`, or twice
-- the one of a mutex. `unlock` gives `none` on an error.
pub record RwLock : Type 1 where
  pub State : Type 0
  pub initializer : State
  pub wrlock : (thread : ℕ) → State → LockResult State
  pub rdlock : (thread : ℕ) → State → LockResult State
  pub unlock : (thread : ℕ) → State → Option State

-- Where a thread stands: at the head of its loop or trying to take the lock, in the critical section
-- of a writer, which loads and stores, in that of a reader, or past its loop.
pub data RwPc : Type 0 where
  at_loop : RwPc
  add_loading : RwPc
  add_storing : (value : ℕ) → RwPc
  add_unlocking : RwPc
  copying : RwPc
  copy_unlocking : RwPc
  finished : RwPc

module _ (rwlock : RwLock) where
  open rwlock use {State, initializer, wrlock, rdlock, unlock}

  -- The lock and the variable, and for each thread its place, its loop variable and its copy; and
  -- whether `exit` has been called.
  pub record Sharing : Type 0 where
    pub lock_state : State
    pub shared_var : ℕ
    pub pc : ℕ → RwPc
    pub i : ℕ → ℕ
    pub copy : ℕ → ℕ
    pub exited : Bool

  abbrev pub move_to : Sharing → ℕ → RwPc → Sharing
  move_to s t p = record s { pc = update s.pc t p }

  abbrev pub rw_acquired : ℕ → Sharing → RwPc → LockResult State → Sharing
  rw_acquired t s p (acquired m) = move_to (record s { lock_state = m }) t p
  rw_acquired t s p blocked = s
  rw_acquired t s p refused = record s { exited = true }

  -- The lock is given back, the loop variable set and the thread moved on; or the program exits.
  abbrev pub rw_released : ℕ → Sharing → (next_i : ℕ) → RwPc → Option State → Sharing
  rw_released t s next_i p none = record s { exited = true }
  rw_released t s next_i p (some m) =
      move_to (record s { lock_state = m; i = update s.i t next_i }) t p

  module _ (num_writers num_iterations one_increment : ℕ) where
    -- The value at which a reader stops.
    abbrev pub stop_value : ℕ
    stop_value = u64 (num_writers * num_iterations * one_increment)

    -- One step of `thread_writer` of a thread below `num_writers`, or of `thread_reader` of another.
    unfoldable pub rw_at : (t : ℕ) → Sharing → RwPc → Sharing
    rw_at t s at_loop =
        if ltb t num_writers
        then (if ltb (s.i t) num_iterations
            then rw_acquired t s add_loading (wrlock t s.lock_state)
            else move_to s t finished)
        else rw_acquired t s copying (rdlock t s.lock_state)
    rw_at t s add_loading = move_to s t (add_storing s.shared_var)
    rw_at t s (add_storing value) =
        move_to (record s { shared_var = u64 (value + one_increment) }) t add_unlocking
    rw_at t s add_unlocking = rw_released t s (u64 (s.i t + 1)) at_loop (unlock t s.lock_state)
    rw_at t s copying = move_to (record s { copy = update s.copy t s.shared_var }) t copy_unlocking
    rw_at t s copy_unlocking =
        rw_released t s (s.i t) (if s.copy t == stop_value then finished else at_loop)
          (unlock t s.lock_state)
    rw_at t s finished = s

    -- The threads take turns in any order, until one of them calls `exit`.
    unfoldable pub rw_run : List ℕ → Sharing → Sharing
    unfolding rw_at
    rw_run [] s = s
    rw_run (t ∷ ts) s = rw_run ts (if s.exited then s else rw_at t s (s.pc t))

  abbrev pub rw_start : Sharing
  rw_start = record {
    lock_state = initializer;
    shared_var = 0;
    pc = λ t. at_loop;
    i = λ t. 0;
    copy = λ t. 0;
    exited = false;
  }
