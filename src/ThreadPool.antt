-- ===== src/ThreadPool.antt =====
-- The thread pool of the chat server: chat/include/threadpool.h.
pub mod Pool
pub mod Steps
pub mod Sums
pub mod Invariant
pub mod Starting
pub mod Leaving
pub mod Drained
pub mod Fifo
pub mod Examples
