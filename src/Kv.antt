-- ===== src/Kv.antt =====
-- The key-value service: the messages of kv_rpc.proto, and the request handlers of kv_service.cpp.
pub mod Messages
pub mod Service
pub mod Answers
pub mod Plain
pub mod Examples
