-- ===== src/Fileshare.antt =====
-- 05_stream_mutliplexing: the file server in its variants, and the client.
pub mod Posix
pub mod Bytes
pub mod Laws
pub mod Multiplexing
pub mod Client
pub mod EventLoop
pub mod Poll
pub mod Epoll
pub mod Common
mod Tests
