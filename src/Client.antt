-- ===== src/Client.antt =====
-- KvClient (client_sdk/kv_client.cpp): its calls, the redirects that it follows, and its calls of a
-- data node that runs alone.
pub mod Link
pub mod KvClient
pub mod Tries
pub mod Redirects
pub mod Addresses
pub mod Alone
pub mod ReadBack
pub mod Examples
