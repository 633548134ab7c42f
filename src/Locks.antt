-- ===== src/Locks.antt =====
-- 02_nonblocking_sync: the spin locks, and the threads that count under them.
pub mod Threads
pub mod Excludes
pub mod Rounds
pub mod Counter
pub mod Insiders
pub mod Flag
pub mod Ticket
pub mod ArrayQueue
pub mod Safety
mod Tests
