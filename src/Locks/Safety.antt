-- ===== src/Locks/Safety.antt =====
-- What spinlock.c, tas-lock.c, ttas-lock.c and ticket-lock.c are written to show.
use networking_howto.Prelude.{ℕ, ◌*◌, ◌<◌, ◌≡◌, ◌≢◌, ◌^◌, List, u32}
use networking_howto.Locks.Threads.{SpinLock, run, start}
use networking_howto.Locks.Insiders.{IsInside}
use networking_howto.Locks.Excludes.{Excludes}
use networking_howto.Locks.Counter.{AllBelow, AllDone, inside_alone, final_var}
use networking_howto.Locks.Flag.{simple_tas_lock, tas_lock, ttas_lock}
use networking_howto.Locks.Flag.Exclusion.{
  simple_tas_lock-Excludes, tas_lock-Excludes, ttas_lock-Excludes,
}
use networking_howto.Locks.Ticket.{ticket_lock}
use networking_howto.Locks.Ticket.Exclusion.{ticket_lock-Excludes}

-- The programs whose lock is a flag.
pub data FlagProgram : Type 0 where
  spinlock tas ttas : FlagProgram

abbrev pub lock_of : FlagProgram → SpinLock
lock_of spinlock = simple_tas_lock
lock_of tas = tas_lock
lock_of ttas = ttas_lock

lock_of-Excludes : (program : FlagProgram) (n : ℕ) → Excludes (lock_of program) n
lock_of-Excludes spinlock n = simple_tas_lock-Excludes n
lock_of-Excludes tas n = tas_lock-Excludes n
lock_of-Excludes ttas n = ttas_lock-Excludes n

module _ (num_threads num_iterations : ℕ) (few : num_iterations < 2 ^ 64) (ts : List ℕ)
    (below : AllBelow num_threads ts) where
  -- Under the locks of spinlock.c, tas-lock.c and ttas-lock.c, two of the threads are never in the
  -- critical section together, for any number of threads, fewer than 2^64 rounds and any order of
  -- their steps.
  pub flag_locks_exclude :
      (program : FlagProgram) (t u : ℕ)
      → let s = run (lock_of program) num_iterations ts (start (lock_of program)) in
        t < num_threads → u < num_threads → t ≢ u → IsInside (s.pc t) → ¬ IsInside (s.pc u)
  flag_locks_exclude program t u l l' ne (c, at) (c', at') = ne (
      inside_alone (lock_of program) num_threads num_iterations
        (lock_of-Excludes program num_threads) few ts t u c c' below l l' at at')

  -- Once all threads have returned, `var` is the number of threads times the number of rounds,
  -- reduced to 32 bits: no increment is lost. The conditions are those of `flag_locks_exclude`.
  pub flag_locks_count :
      (program : FlagProgram)
      → let s = run (lock_of program) num_iterations ts (start (lock_of program)) in
        AllDone (lock_of program) num_threads num_iterations s
        → s.var ≡ u32 (num_threads * num_iterations)
  flag_locks_count program all =
      final_var (lock_of program) num_threads num_iterations (lock_of-Excludes program num_threads)
        few ts below all

  module _ (narrow : num_threads < 2 ^ 32) where
    -- Under the lock of ticket-lock.c, two of the threads are never in the critical section together,
    -- for fewer than 2^32 threads, fewer than 2^64 rounds and any order of their steps: the 32-bit
    -- counters may wrap.
    pub ticket_lock_excludes :
        (t u : ℕ)
        → let s = run ticket_lock num_iterations ts (start ticket_lock) in
          t < num_threads → u < num_threads → t ≢ u → IsInside (s.pc t) → ¬ IsInside (s.pc u)
    ticket_lock_excludes t u l l' ne (c, at) (c', at') = ne (
        inside_alone ticket_lock num_threads num_iterations (ticket_lock-Excludes narrow) few ts t u
          c c' below l l' at at')

    -- Under the same conditions, once all threads have returned, `var` is the number of threads times
    -- the number of rounds, reduced to 32 bits.
    pub ticket_lock_counts :
        let s = run ticket_lock num_iterations ts (start ticket_lock) in
        AllDone ticket_lock num_threads num_iterations s
        → s.var ≡ u32 (num_threads * num_iterations)
    ticket_lock_counts all =
        final_var ticket_lock num_threads num_iterations (ticket_lock-Excludes narrow) few ts below
          all
