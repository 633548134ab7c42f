-- ===== src/Lib.antt =====
-- A verification library for the programs of this repository, which show how threads and processes
-- synchronise and how files and sockets are read and written.
--
-- The parts of the program and the files that model them:
-- * 03_circular_buffer/circular-buffer.c, a bounded queue between one producer and one consumer, in
--   CircularBuffer. `Queue` is the struct QUEUE; `queue_init`, `queue_enqueue`, `queue_dequeue` and
--   their simple variants are the functions of these names, and return the new queue beside the
--   result. CircularBuffer/Threads has `thread_producer` and `thread_consumer` as steps that make one
--   shared access each, and runs them by a schedule, a list that says whose turn it is. Sequential
--   and Refine compare the operations with a bounded sequence; Invariant is what holds between the
--   steps; Safety draws the consequences. The counters are 32-bit and wrap.
-- * 05_stream_mutliplexing/server/server-common-multiplexing.h, the functions of the two servers
--   that serve many clients at once, in Fileshare/Multiplexing, with the switch of server-poll.c and
--   server-epoll.c that chooses between them (`send_at`). `FileshareServer`, `FileshareConnection` and
--   `TransferState` are its types. Multiplexing/Setup has the functions on the file, the signals and
--   the sockets; Transfer, Header and Delivery say what a client is sent, over the
--   calls made for it (History); Header is what a write of the size leaves that takes part of it.
--   The operating system is a parameter (Fileshare/Posix), and Fileshare/Laws is what its documentation
--   says of `pread` and `write`.
--   Fileshare/EventLoop is what the loops of the two servers do with the array of connections and its
--   counters (`Clients`): Table is what they keep, Turns and Steps the single changes, Switch the
--   switch of a connection that can be written to, Stop the test at the head of the loop, and Frame
--   what a call leaves alone. Fileshare/Poll is server-poll.c, with the array of descriptors, and
--   Fileshare/Epoll server-epoll.c, whose interest list Epoll/Interest describes by what the
--   documentation of epoll says. `poll_loop` and `epoll_loop` run for a number of rounds; the theorems
--   hold for any number, and a result says whether the loop has ended.
--   Fileshare/Bytes has `htobe64` and the bytes of a 64-bit number in memory, lowest first.
-- * 05_stream_mutliplexing/server/server-common.h with server-simple.c and the `thread_func` of
--   server-thread-pool.c, in Fileshare/Common: only the functions of the header that differ from
--   server-common-multiplexing.h. The two servers share the loop over the blocks (`send_blocks`) and
--   differ in what they do after an error (`simple_failed`, `thread_failed`). Common/Same compares the
--   two headers, Common/Delivered follows one client; a file of n bytes needs n + 1 rounds at most.
-- * 05_stream_mutliplexing/client/client.c, the client, in Fileshare/Client:
--   `FileshareClient` is its struct, and `recv_file` the loop of `main` over the blocks, on a number of
--   rounds. A file of n bytes needs n + 1 rounds at most. Client/Quiet is what a connection and a disk
--   without errors do; Receive and Delivered say what the client then has. Client/Session has the
--   connecting and `main` (`client_main`), on a number of attempts, and Session/Descriptors counts what
--   a connection leaves open.
-- * The `main` of the programs of 01_blocking_sync, 02_nonblocking_sync, 03_circular_buffer and
--   03_readers_writers, in Harness: the loops that start the threads and wait for them
--   (`run_threads`) and the sixteen programs (Mains), as definitions that run. The system is a function
--   that says which call, after which calls, reports an error.
-- * The spin locks of 02_nonblocking_sync/spinlock.c, tas-lock.c, ttas-lock.c and ticket-lock.c, in
--   Locks. `SpinLock` is a lock as `thread_func` uses it; Flag and Ticket fill it with the functions of
--   the four programs, the loop that acquires a lock one access at a time. Threads has `thread_func` as
--   steps that a schedule runs; Excludes are the laws that a lock has to meet, which Flag/Exclusion and
--   Ticket/Exclusion prove, and Counter draws from the laws what the counter holds.
--   Locks/Rounds is what the programs with a mutex or a lock of another shape share: threads that
--   increment a variable in rounds.
-- * 02_nonblocking_sync/arrayqueue-lock.c, in Locks/ArrayQueue: `AQL_acquire` and `AQL_release` by their
--   shared accesses (`aql_acquire_first`, `aql_acquire_test`, `aql_release_first`,
--   `aql_release_second`), and `thread_func` over them. Order is the invariant, in numbers that do not
--   wrap, and Hold, Enter, Leave and Turns the steps that keep it.
-- * 02_nonblocking_sync/futex.c, in Futex: `lock` and `unlock` as steps of one access or one call each
--   (`lock_first`, `lock_exchange`, `futex_wait`, `unlock_first`, `futex_wake`), and `thread_func` over
--   them. An event is the turn of a thread, with the choice of the kernel of whom to wake, or a signal
--   that ends a sleep. Ownership, Sleepers and Counter hold the three parts of the invariant
--   (Places what each place of a thread means for the last), and Lock and Unlock the steps of the
--   two functions.
-- * 01_blocking_sync, in Blocking: `worker_at` is the `thread_func` that mutex.c and posixsem.c share,
--   over a lock of the system (Mutex); Counter is what it has counted, and Race the `thread_func` of
--   race.c. That of sysvipc.c is left out: its `semop` is told of two operations in an array of one.
-- * 03_readers_writers/mutex.c and rwlock.c, in RwLock: `rw_at` is a step of `thread_writer` or of
--   `thread_reader`, over a lock that both take (`RwLock`, with RwLaws for what its documentation says).
--   Invariant and Steps are what holds of the threads, Safety what the lock gives them.
-- * 03_readers_writers/mutex-seqlock.c, in Seqlock: `thread_writer` and `thread_reader` as steps of one
--   shared access each, over the mutex of the pthread library (Mutex, with `MutexLaws`). Invariant is
--   what holds of the writers, Writers and Readers the steps that keep it, Run whole schedules; Safety
--   and Return are what the readers get, and that they return.
-- * 04_async_io/common.h and io-uring-cp.c, in FileCopy/Common and FileCopy/Uring: `CopyStatus` and
--   `BlockStatus` are the structs, and `reap` and `copy_blocks` the two loops of `main`, on fuel: the
--   number of completions that are to come, two for each block, is enough. The calls of liburing are a
--   parameter (`Ring`), and Laws is what its documentation says: a peek leaves the completion in the
--   queue, where the next peek finds it again until `cqe_seen` takes it out. Cells, Steps and Requests are what
--   each call does to the blocks under way, Status the counters of the program; Completions, Reaping,
--   Copied and WholeFile follow the copy from a completion to the end.
-- * 04_async_io/sync-cp.c, in FileCopy/Sync: `copy_loop` is the loop of `main`, on a number of rounds,
--   and Sync/Copied follows the file through it.
-- * 02_nonblocking_sync/atomics.c, in Atomics, a round of `thread_func` as one step.
--
-- Prelude holds the names that all of them share, lemmas on lists and on powers of two, the machine
-- words, arrays as functions, and a monad for functions that may end the program with a rule for what
-- holds at their ends (Ends).
--
-- Loops are steps that a schedule or a history repeats, or recursion on the number of rounds left;
-- `recv_file`, `send_blocks`, `poll_loop`, `epoll_loop`, `copy_loop`, `copy_blocks` and `client_main`
-- can use up their rounds. Threads interleave at their shared accesses, which are
-- sequentially consistent; weaker orders of memory are not modelled. Output to the console is left
-- out.
--
-- Not modelled: the key and the thread-local memory of the array queue lock, the threads of seqlock.c,
-- `main` of the thread pool server, the parsing of arguments, and the file copies of 04_async_io with a
-- thread pool and with the two libraries for asynchronous input and output.
pub mod Prelude
pub mod CircularBuffer
pub mod Fileshare
pub mod Harness
pub mod Mutex
pub mod Seqlock
pub mod Blocking
pub mod RwLock
pub mod FileCopy
pub mod Locks
pub mod Futex
pub mod Atomics
