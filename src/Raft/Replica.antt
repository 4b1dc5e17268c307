-- ===== src/Raft/Replica.antt =====
-- raft_node.cpp: handleAppendEntries, applyEntries, advanceCommitIndex, tick, the recovery of the
-- persistent state, and one step of the node on an input.
use learn_git.Base.{
  ℕ, zero, suc, ◌+◌, ◌-◌, ◌/◌, List, [], ◌∷◌, ◌++◌, Bool, true, false, ◌&&◌, not, ltb, leb, ◌==◌,
  if◌then◌else◌, length, min, Bytes,
}
use learn_git.Raft.Types.{
  LogEntry, RequestVoteRequest, AppendEntriesRequest, AppendEntriesResponse, is_leader, Event,
  applied, RaftNode, Env,
}
use learn_git.Raft.Log.{get_log_entry, last_log_index, merge_entries}
use learn_git.Raft.Node.{
  empty_log, persist, become_candidate, send_append_entries, propose, observe_term,
  handle_request_vote, process_request_vote_response, process_append_entries_response,
}

-- The loop of applyEntries over `last_applied` and the calls made; it ends when `last_applied` has
-- reached the commit index, and `rounds` bounds the rounds.
unfoldable pub apply_loop : ℕ → List LogEntry → ℕ → ℕ → List Event → ℕ × List Event
apply_loop zero log commit last events = (last, events)
apply_loop (suc rounds) log commit last events =
    let call = applied (suc last) (get_log_entry log (suc last)).command in
    let rest = apply_loop rounds log commit (suc last) (call ∷ events) in
    if ltb last commit then rest else (last, events)

-- As many rounds as positions lie between the two indices.
unfoldable pub apply_entries : RaftNode → RaftNode
apply_entries n =
    let done =
      apply_loop (n.commit_index - n.last_applied) n.log n.commit_index n.last_applied n.events in
    record n { last_applied = done.0; events = done.1 }

unfoldable pub follow_commit : ℕ → RaftNode → RaftNode
follow_commit leader_commit n =
    if ltb n.commit_index leader_commit
    then record n { commit_index = min leader_commit (last_log_index n.log) }
    else n

unfoldable pub append_success : AppendEntriesRequest → RaftNode → RaftNode × AppendEntriesResponse
unfolding persist
append_success req n =
    let merged = record n { log = merge_entries req.prev_log_index req.entries n.log } in
    let done = apply_entries (persist (follow_commit req.leader_commit merged)) in
    (
      done,
      record { term = done.current_term; success = true; match_index = last_log_index done.log },
    )

-- A refusal; a match index that the code does not set is 0 in the message.
abbrev pub append_refusal : RaftNode → ℕ → AppendEntriesResponse
append_refusal n matched = record { term = n.current_term; success = false; match_index = matched }

unfoldable pub check_append : AppendEntriesRequest → RaftNode → RaftNode × AppendEntriesResponse
check_append req n =
    if ltb (last_log_index n.log) req.prev_log_index
    then (n, append_refusal n (last_log_index n.log))
    else if ltb 0 req.prev_log_index
        && not ((get_log_entry n.log req.prev_log_index).term == req.prev_log_term)
    then (n, append_refusal n (req.prev_log_index - 1))
    else append_success req n

-- What handleAppendEntries does to the node before it checks the log.
unfoldable pub follow_leader : Env → AppendEntriesRequest → RaftNode → RaftNode
follow_leader env req n =
    record (observe_term env req.term (record n { last_heartbeat = env.now })) {
      leader_id = req.leader_id;
    }

unfoldable pub handle_append_entries :
    Env → AppendEntriesRequest → RaftNode → RaftNode × AppendEntriesResponse
handle_append_entries env req n =
    if ltb req.term n.current_term
    then (n, append_refusal n 0)
    else check_append req (follow_leader env req n)

-- The votes for position `k`, the leader's own included.
unfoldable pub count_matches : (ℕ → ℕ) → ℕ → List ℕ → ℕ
count_matches matched k [] = 1
count_matches matched k (p ∷ ps) =
    let rest = count_matches matched k ps in if leb k (matched p) then rest + 1 else rest

abbrev pub has_quorum : RaftNode → ℕ → Bool
has_quorum n k = ltb ((length n.peer_ids + 1) / 2) (count_matches n.match_index k n.peer_ids)

-- The loop of advanceCommitIndex, downwards from a position; the result is the commit index.
unfoldable pub scan_commit : RaftNode → ℕ → ℕ
scan_commit n zero = n.commit_index
scan_commit n (suc k) =
    let rest = scan_commit n k in
    if not (ltb n.commit_index (suc k))
    then n.commit_index
    else if not ((get_log_entry n.log (suc k)).term == n.current_term)
    then rest
    else if has_quorum n (suc k)
    then suc k
    else rest

unfoldable pub advance_commit_index : RaftNode → RaftNode
advance_commit_index n =
    if not (is_leader n.state)
    then n
    else record n { commit_index = scan_commit n (last_log_index n.log) }

-- tick's part for a leader.
unfoldable pub heartbeat : Env → RaftNode → RaftNode
heartbeat env n =
    if leb 50 (env.now - n.last_heartbeat)
    then send_append_entries true (record n { last_heartbeat = env.now })
    else n

unfoldable pub tick : Env → RaftNode → RaftNode
tick env n =
    if is_leader n.state
    then apply_entries (advance_commit_index (heartbeat env n))
    else if leb n.election_timeout_ms (env.now - n.last_heartbeat)
    then become_candidate env n
    else n

unfoldable pub load_persisted_state : ℕ → ℕ → List LogEntry → RaftNode → RaftNode
load_persisted_state term voted_for log n = record n {
  current_term = term;
  voted_for = voted_for;
  log = empty_log ++ log;
}

unfoldable pub reset_election_timer : Env → RaftNode → RaftNode
reset_election_timer env n = record n { last_heartbeat = env.now }

-- The public operations of a running node.
pub data Input : Type 0 where
  proposes : Bytes → Input
  asks_vote : RequestVoteRequest → Input
  answers_vote : ℕ → ℕ → Bool → Input
  appends : AppendEntriesRequest → Input
  answers_append : ℕ → ℕ → Bool → ℕ → Input
  ticks : Input
  reconnects : Input

unfoldable pub step : RaftNode → Env × Input → RaftNode
step n (env, proposes command) = (propose command n).0
step n (env, asks_vote req) = (handle_request_vote env req n).0
step n (env, answers_vote peer term granted) = process_request_vote_response env peer term granted n
step n (env, appends req) = (handle_append_entries env req n).0
step n (env, answers_append peer term success matched) =
    process_append_entries_response peer term success matched n
step n (env, ticks) = tick env n
step n (env, reconnects) = reset_election_timer env n

unfoldable pub run : RaftNode → List (Env × Input) → RaftNode
run n [] = n
run n (i ∷ is) = run (step n i) is
