-- ===== src/Raft/Types.antt =====
-- raft_node.h: the roles, the members of RaftNode, and the messages of raft_rpc.proto.
use learn_git.Base.{ℕ, List, [], Bool, true, false, Bytes}

pub record LogEntry : Type 0 where
  pub term : ℕ
  pub index : ℕ
  pub command : Bytes

-- A default-constructed entry: the sentinel, and what getLogEntry returns out of range.
abbrev pub empty_entry : LogEntry
empty_entry = record { term = 0; index = 0; command = [] }

pub record RequestVoteRequest : Type 0 where
  pub term : ℕ
  pub candidate_id : ℕ
  pub last_log_index : ℕ
  pub last_log_term : ℕ

pub record RequestVoteResponse : Type 0 where
  pub term : ℕ
  pub vote_granted : Bool

pub record AppendEntriesRequest : Type 0 where
  pub term : ℕ
  pub leader_id : ℕ
  pub prev_log_index : ℕ
  pub prev_log_term : ℕ
  pub leader_commit : ℕ
  pub entries : List LogEntry

pub record AppendEntriesResponse : Type 0 where
  pub term : ℕ
  pub success : Bool
  pub match_index : ℕ

-- `other` is a message of the two snapshot types, which no code reads.
pub data RaftMessage : Type 0 where
  request_vote : RequestVoteRequest → RaftMessage
  request_vote_resp : RequestVoteResponse → RaftMessage
  append_entries : AppendEntriesRequest → RaftMessage
  append_entries_resp : AppendEntriesResponse → RaftMessage
  other : RaftMessage

pub data State : Type 0 where
  follower candidate leader : State

abbrev pub is_leader : State → Bool
is_leader leader = true
is_leader _ = false

abbrev pub is_candidate : State → Bool
is_candidate candidate = true
is_candidate _ = false

-- What the persist callback reads from the node and writes to disk.
pub record Persistent : Type 0 where
  pub current_term : ℕ
  pub voted_for : ℕ
  pub log : List LogEntry

-- The calls of the three callbacks.
pub data Event : Type 0 where
  persisted : Persistent → Event
  applied : ℕ → Bytes → Event
  sent : ℕ → RaftMessage → Event

-- `next_index` and `match_index` are read by operator[], and nothing iterates over them.
pub record RaftNode : Type 0 where
  pub current_term : ℕ
  pub voted_for : ℕ
  pub log : List LogEntry
  pub state : State
  pub commit_index : ℕ
  pub last_applied : ℕ
  pub leader_id : ℕ
  pub next_index : ℕ → ℕ
  pub match_index : ℕ → ℕ
  pub last_heartbeat : ℕ
  pub election_timeout_ms : ℕ
  pub votes_received : ℕ
  pub node_id : ℕ
  pub peer_ids : List ℕ
  pub events : List Event

-- The readings that an operation takes from outside: steady_clock::now in milliseconds, and what
-- randomTimeout draws.
pub record Env : Type 0 where
  pub now : ℕ
  pub timeout : ℕ
