-- ===== src/Pd.antt =====
-- The placement driver and the routing of keys: pd_server/shard_manager.cpp, common/shard_router.cpp
-- and client_sdk/router.cpp.
pub mod Manager
pub mod Rebalance
pub mod Router
pub mod Coverage
pub mod Balance
pub mod Initial
pub mod Service
pub mod Examples
