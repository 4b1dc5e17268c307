-- ===== src/Storage.antt =====
-- The storage component: rocks_engine.h and rocks_engine.cpp over the RocksDB library.
pub mod Rocks
pub mod Engine
pub mod Scans
pub mod Memory
pub mod Examples
