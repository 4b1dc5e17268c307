-- ===== src/Raft.antt =====
-- The consensus component: raft_node.h and raft_node.cpp of the distributed store.
-- `Raft.Types` has the data, `Raft.Log` the log, `Raft.Node` the operations of RaftNode; the other
-- children prove properties of them. The node is the one RaftService builds: all three callbacks
-- are set, and a call of one is recorded in the field `events`, newest first. One operation runs
-- under the node's mutex, so operations are atomic steps. The clock and the random timeout drawn
-- in an operation are its argument `Env`; one reading of the clock serves a whole operation.
-- Positions in the log are sizes of a vector and do not wrap; terms and numbers that come from
-- the network wrap at 2^64.
pub mod Types
pub mod Log
pub mod Node
pub mod Replica
pub mod Durability
pub mod Persistence
pub mod Votes
pub mod Applied
pub mod Applying
pub mod Commit
pub mod Append
pub mod Replication
pub mod Proposing
pub mod Indices
pub mod Hazards
pub mod Cluster
pub mod Examples
