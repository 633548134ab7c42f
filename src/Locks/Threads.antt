-- ===== src/Locks/Threads.antt =====
-- The threads of spinlock.c, tas-lock.c, ttas-lock.c and ticket-lock.c, which run the same
-- `thread_func` over the lock of their program, interleaved one shared access at a time.
use networking_howto.Prelude.{
  update, ℕ, ◌+◌, Option, none, some, List, [], ◌∷◌, if◌then◌else◌, ltb, u32, u64,
}

-- A lock as its program uses it. `Wait` are the locals of the function that acquires it: `begin` is
-- what that function does before its loop, `attempt` a shared access of the loop with what follows
-- it, and `none` there is the return from the function.
pub record SpinLock : Type 1 where
  pub State : Type 0
  pub Wait : Type 0
  pub init : State
  pub begin : State → State × Wait
  pub attempt : Wait → State → State × Option Wait
  pub release : State → State

-- In the critical section: about to load `var`, to store its value plus one, or to release the lock.
pub data Section : Type 0 where
  loading : Section
  storing : (value : ℕ) → Section
  releasing : Section

-- Where a thread stands: at the test of the for loop or past it, acquiring the lock, or holding it.
pub data Pc (W : Type 0) : Type 0 where
  outside : Pc W
  waiting : W → Pc W
  inside : Section → Pc W

module _ (lock : SpinLock) where
  open lock use {State, Wait, init, begin, attempt, release}

  -- The shared `var`, and the program counter and the loop variable `i` of each thread.
  pub record System : Type 0 where
    pub shared : State
    pub var : ℕ
    pub pc : ℕ → Pc Wait
    pub i : ℕ → ℕ

  abbrev pub go : System → ℕ → Pc Wait → System
  go s t p = record s { pc = update s.pc t p }

  abbrev pub after_attempt : Option Wait → Pc Wait
  after_attempt none = inside loading
  after_attempt (some w) = waiting w

  -- One step of the `thread_func` of thread `t`.
  unfoldable pub thread_at : (num_iterations t : ℕ) → System → Pc Wait → System
  thread_at num_iterations t s outside =
      if ltb (s.i t) num_iterations
      then (let (shared, w) = begin s.shared in go (record s { shared = shared }) t (waiting w))
      else s
  thread_at num_iterations t s (waiting w) =
      let (shared, again) = attempt w s.shared in
      go (record s { shared = shared }) t (after_attempt again)
  thread_at num_iterations t s (inside loading) = go s t (inside (storing s.var))
  thread_at num_iterations t s (inside (storing value)) =
      go (record s { var = u32 (value + 1) }) t (inside releasing)
  thread_at num_iterations t s (inside releasing) =
      go (record s { shared = release s.shared; i = update s.i t (u64 (s.i t + 1)) }) t outside

  -- The threads take turns in any order.
  unfoldable pub run : (num_iterations : ℕ) → List ℕ → System → System
  unfolding thread_at
  run num_iterations [] s = s
  run num_iterations (t ∷ ts) s = run num_iterations ts (thread_at num_iterations t s (s.pc t))

  abbrev pub start : System
  start = record { shared = init; var = 0; pc = λ t. outside; i = λ t. 0 }
