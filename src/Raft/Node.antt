-- ===== src/Raft/Node.antt =====
-- The operations of RaftNode (raft_node.cpp), each with the helpers it calls.
use learn_git.Base.{
  ℕ, ◌+◌, ◌-◌, ◌/◌, List, [], ◌∷◌, ◌++◌, Bool, true, false, ◌&&◌, ◌||◌, not, ltb, leb, ◌==◌,
  if◌then◌else◌, length, drop, Bytes, update, add64, sub64,
}
use learn_git.Raft.Types.{
  LogEntry, empty_entry, RequestVoteRequest, RequestVoteResponse, AppendEntriesRequest, RaftMessage,
  request_vote, append_entries, follower, candidate, leader, is_leader, is_candidate, Persistent,
  Event, persisted, sent, RaftNode, Env,
}
use learn_git.Raft.Log.{get_log_entry, last_log_index, last_log_term}

-- A log that holds only the sentinel.
abbrev pub empty_log : List LogEntry
empty_log = empty_entry ∷ []

-- The constructor.
unfoldable pub init : Env → ℕ → List ℕ → RaftNode
init env node_id peer_ids = record {
  current_term = 0;
  voted_for = 0;
  log = empty_log;
  state = follower;
  commit_index = 0;
  last_applied = 0;
  leader_id = 0;
  next_index = λ _. 0;
  match_index = λ _. 0;
  last_heartbeat = env.now;
  election_timeout_ms = env.timeout;
  votes_received = 0;
  node_id = node_id;
  peer_ids = peer_ids;
  events = [];
}

abbrev pub persistent : RaftNode → Persistent
persistent n = record { current_term = n.current_term; voted_for = n.voted_for; log = n.log }

unfoldable pub persist : RaftNode → RaftNode
persist n = record n { events = persisted (persistent n) ∷ n.events }

unfoldable pub become_follower : Env → ℕ → RaftNode → RaftNode
unfolding persist
become_follower env term n = persist (record n {
  state = follower;
  current_term = term;
  voted_for = 0;
  last_heartbeat = env.now;
  election_timeout_ms = env.timeout;
})

-- The AppendEntries message for one peer. The entries from `next_index` to the end of the log.
unfoldable pub append_request : Bool → RaftNode → ℕ → AppendEntriesRequest
append_request heartbeat_only n peer =
    let next_idx = n.next_index peer in
    record {
      term = n.current_term;
      leader_id = n.node_id;
      prev_log_index = sub64 next_idx 1;
      prev_log_term = (get_log_entry n.log (sub64 next_idx 1)).term;
      leader_commit = n.commit_index;
      entries =
          if not heartbeat_only && leb next_idx (last_log_index n.log)
          then drop next_idx n.log
          else [];
    }

-- The calls of the RPC sender for each peer in turn.
unfoldable pub send_each : (ℕ → RaftMessage) → List ℕ → List Event → List Event
send_each msg [] events = events
send_each msg (p ∷ ps) events = send_each msg ps (sent p (msg p) ∷ events)

unfoldable pub send_append_entries : Bool → RaftNode → RaftNode
send_append_entries heartbeat_only n = record n {
  events = send_each (λ p. append_entries (append_request heartbeat_only n p)) n.peer_ids n.events;
}

unfoldable pub vote_request : RaftNode → RequestVoteRequest
vote_request n = record {
  term = n.current_term;
  candidate_id = n.node_id;
  last_log_index = last_log_index n.log;
  last_log_term = last_log_term n.log;
}

unfoldable pub start_election : RaftNode → RaftNode
start_election n = record n {
  votes_received = 1;
  events = send_each (λ p. request_vote (vote_request n)) n.peer_ids n.events;
}

unfoldable pub become_candidate : Env → RaftNode → RaftNode
unfolding persist start_election
become_candidate env n = start_election (
    persist (record n {
      state = candidate;
      current_term = add64 n.current_term 1;
      voted_for = n.node_id;
      leader_id = 0;
      votes_received = 1;
      last_heartbeat = env.now;
      election_timeout_ms = env.timeout;
    }))

-- One assignment for each peer of becomeLeader's loop.
unfoldable pub set_each : List ℕ → ℕ → (ℕ → ℕ) → ℕ → ℕ
set_each [] v f = f
set_each (p ∷ ps) v f = set_each ps v (update f p v)

unfoldable pub become_leader : Env → RaftNode → RaftNode
unfolding send_append_entries
become_leader env n =
    let last_idx = last_log_index n.log in
    send_append_entries true (record n {
      state = leader;
      leader_id = n.node_id;
      next_index =
          update (set_each n.peer_ids (last_idx + 1) n.next_index) n.node_id (last_idx + 1);
      match_index = update (set_each n.peer_ids 0 n.match_index) n.node_id last_idx;
      last_heartbeat = env.now;
    })

-- The entry that `propose` appends.
unfoldable pub proposed_entry : Bytes → RaftNode → LogEntry
proposed_entry command n = record {
  term = n.current_term;
  index = last_log_index n.log + 1;
  command = command;
}

unfoldable pub propose : Bytes → RaftNode → RaftNode × Bool
unfolding persist send_append_entries proposed_entry
propose command n = if not (is_leader n.state) then (n, false) else (
  send_append_entries false (
      persist (record n {
        log = n.log ++ proposed_entry command n ∷ [];
        match_index = update n.match_index n.node_id (last_log_index n.log + 1);
        next_index = update n.next_index n.node_id (last_log_index n.log + 1 + 1);
      })),
  true,
)

-- A larger term turns the node into a follower of that term.
unfoldable pub observe_term : Env → ℕ → RaftNode → RaftNode
observe_term env term n = if ltb n.current_term term then become_follower env term n else n

-- The candidate's log is at least as up to date.
unfoldable pub up_to_date : RequestVoteRequest → List LogEntry → Bool
up_to_date req log =
    ltb (last_log_term log) req.last_log_term
    || ((req.last_log_term == last_log_term log) && leb (last_log_index log) req.last_log_index)

unfoldable pub may_grant : RequestVoteRequest → RaftNode → Bool
may_grant req n =
    leb n.current_term req.term
    && ((n.voted_for == 0 || n.voted_for == req.candidate_id) && up_to_date req n.log)

unfoldable pub decide_vote : Env → RequestVoteRequest → RaftNode → RaftNode × RequestVoteResponse
unfolding persist
decide_vote env req n =
    if may_grant req n
    then (
      persist (record n { voted_for = req.candidate_id; last_heartbeat = env.now }),
      record { term = n.current_term; vote_granted = true },
    )
    else (n, record { term = n.current_term; vote_granted = false })

unfoldable pub handle_request_vote :
    Env → RequestVoteRequest → RaftNode → RaftNode × RequestVoteResponse
handle_request_vote env req n = decide_vote env req (observe_term env req.term n)

-- `(int)(peerIds_.size() + 1) / 2 + 1`
abbrev pub majority : RaftNode → ℕ
majority n = (length n.peer_ids + 1) / 2 + 1

unfoldable pub count_vote : Env → Bool → RaftNode → RaftNode
count_vote env vote_granted n =
    let votes = if vote_granted then n.votes_received + 1 else n.votes_received in
    let counted = record n { votes_received = votes } in
    if leb (majority n) votes then become_leader env counted else counted

unfoldable pub process_request_vote_response : Env → ℕ → ℕ → Bool → RaftNode → RaftNode
process_request_vote_response env from_peer resp_term vote_granted n =
    if ltb n.current_term resp_term
    then become_follower env resp_term n
    else if not (resp_term == n.current_term) || not (is_candidate n.state)
    then n
    else count_vote env vote_granted n

-- A reported match moves the peer's progress forward only.
unfoldable pub record_match : ℕ → ℕ → RaftNode → RaftNode
record_match peer matched n =
    if ltb (n.match_index peer) matched
    then record n {
      match_index = update n.match_index peer matched;
      next_index = update n.next_index peer (add64 matched 1);
    }
    else n

unfoldable pub back_off : ℕ → RaftNode → RaftNode
back_off peer n =
    if ltb 1 (n.next_index peer)
    then record n { next_index = update n.next_index peer (n.next_index peer - 1) }
    else n

unfoldable pub process_append_entries_response : ℕ → ℕ → Bool → ℕ → RaftNode → RaftNode
process_append_entries_response from_peer term success matched n =
    if not (is_leader n.state) || not (term == n.current_term)
    then n
    else if success
    then record_match from_peer matched n
    else send_append_entries false (back_off from_peer n)
