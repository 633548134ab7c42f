-- ===== src/Atomics.antt =====
-- 02_nonblocking_sync/atomics.c: threads that count by an atomic increment.
pub mod Counter
mod Tests
use networking_howto.Prelude.{update, ℕ, ◌+◌, List, [], ◌∷◌, if◌then◌else◌, ltb, u32, u64}

-- The shared `var`, and the loop variable `i` of each thread.
pub record Counting : Type 0 where
  pub var : ℕ
  pub i : ℕ → ℕ

-- A round of the `thread_func` of thread `t`: one atomic access.
unfoldable pub count_once : (num_iterations t : ℕ) → Counting → Counting
count_once num_iterations t s =
    if ltb (s.i t) num_iterations
    then record { var = u32 (s.var + 1); i = update s.i t (u64 (s.i t + 1)) }
    else s

-- The threads take turns in any order.
unfoldable pub count_all : (num_iterations : ℕ) → List ℕ → Counting → Counting
count_all num_iterations [] s = s
count_all num_iterations (t ∷ ts) s = count_all num_iterations ts (count_once num_iterations t s)

abbrev pub zeroed : Counting
zeroed = record { var = 0; i = λ t. 0 }
