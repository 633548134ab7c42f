-- ===== src/Blocking.antt =====
-- The threads of 01_blocking_sync: mutex.c and posixsem.c run the same `thread_func` over the
-- lock of their program, interleaved one access at a time, and race.c runs it over none.
mod Counter
mod Race
mod Tests
use networking_howto.Mutex.{LockResult, acquired, blocked, refused, Mutex}
use networking_howto.Prelude.{
  update, ℕ, ◌+◌, Bool, true, false, Option, none, some, List, [], ◌∷◌, if◌then◌else◌, ltb, u32,
  u64,
}

-- Where a thread stands: at the test of its loop or trying to take the lock, about to load `var`, to
-- store its value plus one, or to give the lock back.
pub data WorkerPc : Type 0 where
  outside : WorkerPc
  loading : WorkerPc
  storing : (value : ℕ) → WorkerPc
  unlocking : WorkerPc

module _ (mutex : Mutex) where
  open mutex use {State, initializer, lock, unlock}

  -- The lock and `var`, the program counter and the loop variable `i` of each thread, and whether
  -- `exit` has been called.
  pub record Workers : Type 0 where
    pub lock_state : State
    pub var : ℕ
    pub pc : ℕ → WorkerPc
    pub i : ℕ → ℕ
    pub exited : Bool

  abbrev pub goes : Workers → ℕ → WorkerPc → Workers
  goes s t p = record s { pc = update s.pc t p }

  abbrev pub after_acquire : ℕ → Workers → LockResult State → Workers
  after_acquire t s (acquired m) = goes (record s { lock_state = m }) t loading
  after_acquire t s blocked = s
  after_acquire t s refused = record s { exited = true }

  abbrev pub after_release : ℕ → Workers → Option State → Workers
  after_release t s none = record s { exited = true }
  after_release t s (some m) =
      goes (record s { lock_state = m; i = update s.i t (u64 (s.i t + 1)) }) t outside

  -- One step of the `thread_func` of thread `t`.
  unfoldable pub worker_at : (num_iterations t : ℕ) → Workers → WorkerPc → Workers
  worker_at num_iterations t s outside =
      if ltb (s.i t) num_iterations then after_acquire t s (lock t s.lock_state) else s
  worker_at num_iterations t s loading = goes s t (storing s.var)
  worker_at num_iterations t s (storing value) =
      goes (record s { var = u32 (value + 1) }) t unlocking
  worker_at num_iterations t s unlocking = after_release t s (unlock t s.lock_state)

  -- The threads take turns in any order, until one of them calls `exit`.
  unfoldable pub work : (num_iterations : ℕ) → List ℕ → Workers → Workers
  unfolding worker_at
  work num_iterations [] s = s
  work num_iterations (t ∷ ts) s =
      work num_iterations ts (if s.exited then s else worker_at num_iterations t s (s.pc t))

  abbrev pub begin_work : Workers
  begin_work = record {
    lock_state = initializer;
    var = 0;
    pc = λ t. outside;
    i = λ t. 0;
    exited = false;
  }
