-- ===== src/Raft/Cluster.antt =====
-- Several nodes of raft_node.cpp and the messages between them.
pub mod System
pub mod Counts
pub mod Effects
pub mod Following
pub mod Ballots
pub mod Invariant
pub mod Quietly
pub mod Granting
pub mod Counting
pub mod Requests
pub mod Electing
pub mod Steps
pub mod Election
mod Examples
