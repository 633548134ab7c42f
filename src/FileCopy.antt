-- ===== src/FileCopy.antt =====
-- 04_async_io: the programs that copy a file.
pub mod Common
pub mod Uring
pub mod Sync
