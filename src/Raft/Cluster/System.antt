-- ===== src/Raft/Cluster/System.antt =====
-- A cluster of RaftNodes (raft_node.cpp) on a network that loses and reorders messages, but does not
-- duplicate them, as connections of TCP do.
use learn_git.Base.{
  ℕ, suc, ◌<◌, ◌≡◌, List, [], ◌∷◌, ◌++◌, u64, ◌==◌, if◌then◌else◌, update, Bytes, true, Bool, false,
  ◌||◌,
}
use learn_git.Raft.Types.{
  RaftMessage, request_vote, request_vote_resp, append_entries, append_entries_resp, other, Event,
  persisted, applied, sent, LogEntry, RaftNode, Env,
}
use learn_git.Raft.Node.{
  init, handle_request_vote, process_request_vote_response, process_append_entries_response,
  propose,
}
use learn_git.Raft.Replica.{handle_append_entries, load_persisted_state, tick, reset_election_timer}

pub record Packet : Type 0 where
  pub from : ℕ
  pub to : ℕ
  pub message : RaftMessage

pub record Cluster : Type 0 where
  pub nodes : ℕ → RaftNode
  pub net : List Packet

-- The configuration of a node: all ids but its own.
unfoldable pub peers_of : ℕ → List ℕ → List ℕ
peers_of i [] = []
peers_of i (j ∷ js) = let rest = peers_of i js in if j == i then rest else j ∷ rest

-- What a node hands to its connections.
unfoldable pub packets : ℕ → List Event → List Packet
packets i [] = []
packets i (persisted p ∷ es) = packets i es
packets i (applied index cmd ∷ es) = packets i es
packets i (sent peer msg ∷ es) = record { from = i; to = peer; message = msg } ∷ packets i es

-- The node after an operation, its messages, and the answer that it returns.
abbrev pub act : ℕ → RaftNode → List Packet → Cluster → Cluster
act i m answer s = record {
  nodes = update s.nodes i (record m { events = [] });
  net = answer ++ (packets i m.events ++ s.net);
}

abbrev pub answer_to : Packet → RaftMessage → List Packet
answer_to p msg = record { from = p.to; to = p.from; message = msg } ∷ []

-- The receiver's handler. A request is answered on the connection that it came on.
unfoldable pub receive : Env → Packet → RaftMessage → Cluster → Cluster
unfolding packets
receive env p (request_vote req) s =
    let done = handle_request_vote env req (s.nodes p.to) in
    act p.to done.0 (answer_to p (request_vote_resp done.1)) s
receive env p (request_vote_resp resp) s =
    act p.to (process_request_vote_response env p.from resp.term resp.vote_granted (s.nodes p.to))
      [] s
receive env p (append_entries req) s =
    let done = handle_append_entries env req (s.nodes p.to) in
    act p.to done.0 (answer_to p (append_entries_resp done.1)) s
receive env p (append_entries_resp resp) s =
    act p.to
      (process_append_entries_response p.from resp.term resp.success resp.match_index
        (s.nodes p.to))
      [] s
receive env p other s = s

-- A node after a crash: its term and vote are on disk, its log may not be.
abbrev pub restarted : Env → List LogEntry → RaftNode → RaftNode
restarted env log n =
    load_persisted_state n.current_term n.voted_for log (init env n.node_id n.peer_ids)

abbrev pub member : ℕ → List ℕ → Bool
member i [] = false
member i (j ∷ js) = (j == i) || member i js

pub data Step (ids : List ℕ) (s : Cluster) : Cluster → Type 0 where
  proposes :
      (i : ℕ) (command : Bytes)
      → member i ids ≡ true
      → Step ids s (act i (propose command (s.nodes i)).0 [] s)
  ticks :
      (i : ℕ) (env : Env)
      → member i ids ≡ true
      → suc (s.nodes i).current_term < u64
      → Step ids s (act i (tick env (s.nodes i)) [] s)
  reconnects :
      (i : ℕ) (env : Env)
      → member i ids ≡ true
      → Step ids s (act i (reset_election_timer env (s.nodes i)) [] s)
  delivers :
      (env : Env) (before after : List Packet) (p : Packet)
      → s.net ≡ before ++ p ∷ after
      → Step ids s (receive env p p.message (record s { net = before ++ after }))
  loses :
      (before after : List Packet) (p : Packet)
      → s.net ≡ before ++ p ∷ after
      → Step ids s (record s { net = before ++ after })
  restarts :
      (i : ℕ) (env : Env) (log : List LogEntry)
      → member i ids ≡ true
      → Step ids s (act i (restarted env log (s.nodes i)) [] s)

-- Each node has been constructed with all the others as its peers.
abbrev pub fresh : List ℕ → (ℕ → Env) → Cluster
fresh ids envs = record { nodes = λ i. init (envs i) i (peers_of i ids); net = [] }

pub data Reach (ids : List ℕ) : Cluster → Type 0 where
  starts : (envs : ℕ → Env) → Reach ids (fresh ids envs)
  later : {s t : Cluster} → Reach ids s → Step ids s t → Reach ids t

-- What happens after a state.
pub data Run (ids : List ℕ) (s : Cluster) : Cluster → Type 0 where
  stays : Run ids s s
  goes : {r t : Cluster} → Run ids s r → Step ids r t → Run ids s t
