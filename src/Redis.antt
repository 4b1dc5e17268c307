-- ===== src/Redis.antt =====
-- The Redis client of the chat server (chat/src/server/redis.cpp): its queue of commands.
pub mod Client
pub mod Steps
pub mod Serving
pub mod Queue
pub mod Calls
mod Examples
