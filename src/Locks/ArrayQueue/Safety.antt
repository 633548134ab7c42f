-- ===== src/Locks/ArrayQueue/Safety.antt =====
-- What arrayqueue-lock.c is written to show.
use networking_howto.Prelude.{ℕ, ◌*◌, ◌≤◌, ◌<◌, ◌≡◌, ◌≢◌, ◌^◌, List, ap, u32}
use networking_howto.Locks.Threads.{Section}
use networking_howto.Locks.Counter.{AllBelow}
use networking_howto.Locks.Rounds.{all-Counted}
use networking_howto.Locks.ArrayQueue.{outside, inside, run, start}
use networking_howto.Locks.ArrayQueue.Order.{owns, owner_alone, start-Queue}
use networking_howto.Locks.ArrayQueue.Turns.{run-Queue}
use networking_howto.Locks.ArrayQueue.Counter.{places, reached-Good}

-- Two threads are never in the critical section of arrayqueue-lock.c together, for a queue whose size
-- is a power of two below 2^16, no more threads than nodes, any number of rounds and any order of the
-- accesses: the 16-bit head may wrap.
pub aql_excludes :
    (k num_threads num_iterations : ℕ) (narrow : k < 16) (few : num_threads ≤ 2 ^ k) (ts : List ℕ)
    → AllBelow num_threads ts
    → (t u : ℕ) (c c' : Section)
    → let s = run num_iterations ts (start (2 ^ k)) in
      t < num_threads → u < num_threads → t ≢ u → s.pc t ≡ inside c → s.pc u ≢ inside c'
aql_excludes k num_threads num_iterations narrow few ts below t u c c' l l' ne at at' = ne (
    owner_alone k num_threads narrow few (run num_iterations ts (start (2 ^ k))) t u
      (run-Queue k num_threads narrow few num_iterations ts (start (2 ^ k)) below
        (start-Queue k num_threads narrow few))
      l l' (ap owns at) (ap owns at'))

-- Under the same conditions and for fewer than 2^64 rounds, once all threads have returned, `var` is
-- the number of threads times the number of rounds, reduced to 32 bits.
pub aql_counts :
    (k num_threads num_iterations : ℕ) (narrow : k < 16) (few : num_threads ≤ 2 ^ k)
    (fewer : num_iterations < 2 ^ 64) (ts : List ℕ)
    → AllBelow num_threads ts
    → let s = run num_iterations ts (start (2 ^ k)) in
      ((u : ℕ) → u < num_threads → (s.pc u ≡ outside) × (s.i u ≡ num_iterations))
      → s.var ≡ u32 (num_threads * num_iterations)
aql_counts k num_threads num_iterations narrow few fewer ts below returned =
    all-Counted places num_threads num_iterations fewer
      (reached-Good k num_threads narrow few num_iterations fewer ts below) returned
