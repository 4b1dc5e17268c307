-- ===== src/ConnectPool.antt =====
-- The pool of MySQL connections: chat/src/server/ConnectPool.cpp, and its older copy in
-- mysql连接池/src/ConnectPool.cpp.
pub mod Pool
pub mod Steps
pub mod Conservation
pub mod Reaper
pub mod Copy
pub mod Examples
