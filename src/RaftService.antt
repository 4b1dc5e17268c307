-- ===== src/RaftService.antt =====
-- RaftService (raft_service.h, raft_service.cpp): the node's state on disk and its recovery, the
-- commands it applies, and the messages it dispatches.
pub mod Keys
pub mod Recovery
pub mod Loss
pub mod Numbers
pub mod Restart
pub mod Host
pub mod Machine
pub mod Examples
