-- ===== src/Locks/ArrayQueue.antt =====
-- 02_nonblocking_sync/arrayqueue-lock.c: the lock whose threads wait each on a flag of its own, and the
-- threads that count under it, one shared access at a time.
pub mod Order
pub mod Hold
pub mod Enter
pub mod Leave
pub mod Turns
pub mod Counter
pub mod Safety
mod Tests
use networking_howto.Prelude.{
  update, ℕ, ◌+◌, ◌%◌, List, [], ◌∷◌, if◌then◌else◌, ◌==◌, ltb, u16, u32, u64,
}
use networking_howto.Locks.Threads.{Section, loading, storing, releasing}

-- `ArrayQueue_Lock`: of a `QueueNode`, the flag `available`.
pub record ArrayQueueLock : Type 0 where
  pub available : ℕ → ℕ
  pub size : ℕ
  pub head : ℕ

abbrev arrayqueue_cycles_to_yield : ℕ
arrayqueue_cycles_to_yield = 10000

-- `AQL_init`, as long as the system gives memory and a key.
abbrev pub aql_init : (size : ℕ) → ArrayQueueLock
aql_init size = record { available = update (λ i. 0) 0 1; size = u16 size; head = 0 }

-- Where a thread stands: at the test of the for loop; in `AQL_acquire`, in its loop; in the critical
-- section; in `AQL_release`, before its second store. `index` and `iteration` are locals.
pub data Pc : Type 0 where
  outside : Pc
  spinning : (index iteration : ℕ) → Pc
  inside : Section → Pc
  to_pass : (index : ℕ) → Pc

-- The lock, the thread-local memory of the index, `var`, and the place and the loop variable `i` of
-- each thread.
pub record System : Type 0 where
  pub lock : ArrayQueueLock
  pub index : ℕ → ℕ
  pub var : ℕ
  pub pc : ℕ → Pc
  pub i : ℕ → ℕ

abbrev pub go : System → ℕ → Pc → System
go s t p = record s { pc = update s.pc t p }

-- A node's flag is set.
abbrev pub set_available : ArrayQueueLock → (node value : ℕ) → ArrayQueueLock
set_available lock node value = record lock { available = update lock.available node value }

-- `AQL_acquire` up to its loop.
unfoldable pub aql_acquire_first : System → ℕ → System
aql_acquire_first s t =
    let index = s.lock.head % s.lock.size in
    go
      (record s {
        lock = record s.lock { head = u16 (s.lock.head + 1) };
        index = update s.index t index;
      })
      t (spinning index 0)

-- The body of the loop; the yield has no effect on the lock.
abbrev pub next_iteration : ℕ → ℕ
next_iteration iteration =
    u32 ((if iteration == arrayqueue_cycles_to_yield then 0 else iteration) + 1)

-- The test of the loop, with what follows it.
unfoldable pub aql_acquire_test : System → (t index iteration : ℕ) → System
aql_acquire_test s t index iteration =
    if s.lock.available index == 0
    then go s t (spinning index (next_iteration iteration))
    else go s t (inside loading)

-- `AQL_release` up to its first store.
unfoldable pub aql_release_first : System → ℕ → System
aql_release_first s t =
    let index = s.index t in go (record s { lock = set_available s.lock index 0 }) t (to_pass index)

-- Its second store, and the end of the round.
unfoldable pub aql_release_second : System → (t index : ℕ) → System
aql_release_second s t index =
    go
      (record s {
        lock = set_available s.lock ((index + 1) % s.lock.size) 1;
        i = update s.i t (u64 (s.i t + 1));
      })
      t outside

-- One step of the `thread_func` of thread `t`.
unfoldable pub thread_at : (num_iterations t : ℕ) → System → Pc → System
thread_at num_iterations t s outside =
    if ltb (s.i t) num_iterations then aql_acquire_first s t else s
thread_at num_iterations t s (spinning index iteration) = aql_acquire_test s t index iteration
thread_at num_iterations t s (inside loading) = go s t (inside (storing s.var))
thread_at num_iterations t s (inside (storing value)) =
    go (record s { var = u32 (value + 1) }) t (inside releasing)
thread_at num_iterations t s (inside releasing) = aql_release_first s t
thread_at num_iterations t s (to_pass index) = aql_release_second s t index

-- The threads take turns in any order.
unfoldable pub run : (num_iterations : ℕ) → List ℕ → System → System
run num_iterations [] s = s
run num_iterations (t ∷ ts) s = run num_iterations ts (thread_at num_iterations t s (s.pc t))

abbrev pub start : (size : ℕ) → System
start size = record { lock = aql_init size; index = λ t. 0; var = 0; pc = λ t. outside; i = λ t. 0 }
