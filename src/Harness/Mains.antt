-- ===== src/Harness/Mains.antt =====
-- The `main` of each thread program, over the calls that it makes. What it prints is left out, and so
-- is the initialisation of plain variables and of the threads' arguments. The calls that set up a
-- lock of its own (`TicketLock_init` and the like, `AQL_init` past its key) are those of the lock.
use networking_howto.Prelude.{ℕ, ◌+◌, ◌-◌, ◌%◌, ltb, if◌then◌else◌}
use networking_howto.Prelude.Program.{◌>>◌}
use networking_howto.Harness.{
  thread_func, thread_writer, thread_reader, ftok, semget, semctl_setval, sem_init, queue_init,
  key_create, key_delete, mutex_destroy, rwlock_destroy, object, System, Main, checked, unchecked,
  Bench, run_threads,
}

-- `num_threads` threads that run `thread_func`, thread `i` on hardware thread `i % harts`.
abbrev pub plain_bench : (num_threads harts : ℕ) → Bench
plain_bench num_threads harts = record {
  num_threads = num_threads;
  routine = λ i. thread_func;
  hart = λ i. i % harts;
}

abbrev pub num_readers : ℕ
num_readers = 16

abbrev pub writer_harts : ℕ
writer_harts = 4

abbrev pub reader_harts : ℕ
reader_harts = 4

-- The writers, then the readers, on hardware threads of their own.
abbrev pub readers_writers_bench : (num_writers : ℕ) → Bench
readers_writers_bench num_writers = record {
  num_threads = num_writers + num_readers;
  routine = λ i. if ltb i num_writers then thread_writer else thread_reader;
  hart = λ i.
      if ltb i num_writers
      then i % writer_harts
      else writer_harts + (i - num_writers) % reader_harts;
}

module _ (os : System) where
  unfoldable pub race_main : Main
  race_main = run_threads os (plain_bench 8 8)

  unfoldable pub mutex_main : Main
  mutex_main = do run_threads os (plain_bench 8 8); unchecked os (object mutex_destroy)

  unfoldable pub posixsem_main : Main
  posixsem_main = do unchecked os (object sem_init); run_threads os (plain_bench 8 8)

  unfoldable pub sysvipc_main : Main
  sysvipc_main = do
    checked os (object ftok)
    checked os (object semget)
    checked os (object semctl_setval)
    run_threads os (plain_bench 8 8)

  unfoldable pub atomics_main : Main
  atomics_main = run_threads os (plain_bench 8 8)

  unfoldable pub spinlock_main : Main
  spinlock_main = run_threads os (plain_bench 8 8)

  unfoldable pub tas_lock_main : Main
  tas_lock_main = run_threads os (plain_bench 32 8)

  unfoldable pub ttas_lock_main : Main
  ttas_lock_main = run_threads os (plain_bench 32 8)

  unfoldable pub ticket_lock_main : Main
  ticket_lock_main = run_threads os (plain_bench 8 8)

  unfoldable pub futex_main : Main
  futex_main = run_threads os (plain_bench 8 8)

  unfoldable pub arrayqueue_lock_main : Main
  arrayqueue_lock_main = do
    checked os (object key_create)
    run_threads os (plain_bench 8 8)
    checked os (object key_delete)

  unfoldable pub circular_buffer_main : Main
  circular_buffer_main = do checked os (object queue_init); run_threads os (plain_bench 2 2)

  unfoldable pub readers_writers_mutex_main : Main
  readers_writers_mutex_main = do
    run_threads os (readers_writers_bench 4)
    checked os (object mutex_destroy)

  unfoldable pub rwlock_main : Main
  rwlock_main = do run_threads os (readers_writers_bench 4); checked os (object rwlock_destroy)

  unfoldable pub seqlock_main : Main
  seqlock_main = run_threads os (readers_writers_bench 2)

  unfoldable pub mutex_seqlock_main : Main
  mutex_seqlock_main = do
    run_threads os (readers_writers_bench 4)
    checked os (object mutex_destroy)

-- The thread programs of the repository.
pub data Program : Type 0 where
  race mutex posixsem sysvipc atomics spinlock tas_lock ttas_lock ticket_lock futex arrayqueue_lock
        circular_buffer readers_writers_mutex rwlock seqlock mutex_seqlock :
      Program

abbrev pub main_of : System → Program → Main
main_of os race = race_main os
main_of os mutex = mutex_main os
main_of os posixsem = posixsem_main os
main_of os sysvipc = sysvipc_main os
main_of os atomics = atomics_main os
main_of os spinlock = spinlock_main os
main_of os tas_lock = tas_lock_main os
main_of os ttas_lock = ttas_lock_main os
main_of os ticket_lock = ticket_lock_main os
main_of os futex = futex_main os
main_of os arrayqueue_lock = arrayqueue_lock_main os
main_of os circular_buffer = circular_buffer_main os
main_of os readers_writers_mutex = readers_writers_mutex_main os
main_of os rwlock = rwlock_main os
main_of os seqlock = seqlock_main os
main_of os mutex_seqlock = mutex_seqlock_main os
