-- ===== src/Harness.antt =====
-- The part of `main` that the thread programs of 01_blocking_sync, 02_nonblocking_sync,
-- 03_circular_buffer and 03_readers_writers share: start the threads, each on its hardware thread,
-- and wait for them. Each program's own `main` is in `Mains`.
pub mod Mains
use networking_howto.Prelude.{ℕ, zero, suc, ◌+◌, Bool, true, List, [], ◌∷◌, ◌++◌, if◌then◌else◌}
use networking_howto.Prelude.Program.{Outcome, done, exit_failure, M, ◌>>=◌, ◌>>◌, pure}

-- What the threads run. `thread_func` is that of the program at hand.
pub data Routine : Type 0 where
  thread_func thread_writer thread_reader : Routine

-- Calls that set up or take down what the threads share.
pub data Object : Type 0 where
  ftok semget semctl_setval sem_init queue_init : Object
  key_create key_delete : Object
  mutex_destroy rwlock_destroy : Object

-- The calls of `main`.
pub data Call : Type 0 where
  object : Object → Call
  attr_init : Call
  set_affinity : (hart : ℕ) → Call
  create : Routine → (arg : ℕ) → Call
  attr_destroy : Call
  join : (thread : ℕ) → Call

-- Whether a call, after the calls made before it, returns what the source tests for as an error:
-- not 0 from the pthread functions, -1 from ftok, semget and semctl.
abbrev pub System : Type 0
System = List Call → Call → Bool

-- The world of `main` is the list of the calls that it has made.
abbrev pub Main : Type 0
Main = M (List Call) (Unit {0})

module _ (os : System) where
  -- `if (call() != 0) { fprintf(...); exit(EXIT_FAILURE); }`, or the like with `== -1`.
  unfoldable pub checked : Call → Main
  checked c trace =
      if os trace c then exit_failure (trace ++ (c ∷ [])) else done tt (trace ++ (c ∷ []))

  -- A call whose result is not looked at.
  unfoldable pub unchecked : Call → Main
  unchecked c trace = done tt (trace ++ (c ∷ []))

-- The parameters of a program: its number of threads, and what thread `i` runs, and where.
pub record Bench : Type 0 where
  pub num_threads : ℕ
  pub routine : ℕ → Routine
  pub hart : ℕ → ℕ

module _ (os : System) (b : Bench) where
  -- The loop that starts the threads: `left` rounds, from thread `i` on.
  unfoldable pub spawn_threads : (left i : ℕ) → Main
  spawn_threads zero i = pure tt
  spawn_threads (suc left) i =
      checked os attr_init
      >> (checked os (set_affinity (b.hart i))
          >> (checked os (create (b.routine i) i)
              >> (unchecked os attr_destroy >> spawn_threads left (i + 1))))

  unfoldable pub join_threads : (left i : ℕ) → Main
  join_threads zero i = pure tt
  join_threads (suc left) i = checked os (join i) >> join_threads left (i + 1)

  unfoldable pub run_threads : Main
  run_threads = spawn_threads b.num_threads 0 >> join_threads b.num_threads 0
