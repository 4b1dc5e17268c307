-- ===== src/Raft/Hazards.antt =====
-- Where RaftNode departs from the rules of the Raft paper's figure 2, which its comments cite, and
-- what follows.
use learn_git.Raft.Cluster.Counts.{count}
use learn_git.Raft.Proposing.{propose-Proposed}
use learn_git.Raft.Commit.{CanCommit, has_quorum-holders, holders}
use learn_git.Raft.Append.{term_at, last-length}
use learn_git.Raft.Log.{merge_entries, last_log_index}
use learn_git.Raft.Replica.{
  run, step, handle_append_entries, Input, check_append, answers_vote, follow_leader,
  append_success, apply_entries, follow_commit, tick, reset_election_timer, proposes, asks_vote,
  advance_commit_index, scan_commit, heartbeat, appends, answers_append, ticks, reconnects,
}
use learn_git.Raft.Node.{
  process_request_vote_response, process_append_entries_response, propose, become_follower,
  handle_request_vote, init, decide_vote, observe_term, become_candidate, send_append_entries,
  proposed_entry,
}
use learn_git.Base.{
  List, ℕ, Bytes, Bool, ◌≡◌, true, false, [], ◌<◌, ◌∷◌, ◌≢◌, length, arith, ◌≤◌, ◌+◌, refl, suc, ap,
  ◌∙◌, ◌++◌, length-append, get_or-append_last, subst, sym, ◌*◌, leb,
}
use learn_git.Raft.Types.{
  AppendEntriesRequest, RaftNode, Env, is_leader, follower, candidate, LogEntry, empty_entry,
}

-- A successful AppendEntries with no entries reports the whole log of the follower as matching,
-- whatever stands beyond the one position that was compared.
pub heartbeat_overreports :
    (env : Env) (req : AppendEntriesRequest) (n : RaftNode)
    → req.entries ≡ []
    → (handle_append_entries env req n).1.success ≡ true
    → ((handle_append_entries env req n).0.log ≡ n.log)
      × ((handle_append_entries env req n).1.match_index ≡ last_log_index n.log)
unfolding handle_append_entries check_append follow_leader append_success observe_term
    become_follower apply_entries follow_commit merge_entries
heartbeat_overreports env req n e h = ground arith

-- A successful AppendEntries with no entries makes a follower commit every position of its log up to
-- leader_commit, also one where its entry has another term than that of the leader's log L.
pub heartbeat_commits_conflict :
    (env : Env) (req : AppendEntriesRequest) (n : RaftNode) (L : List LogEntry) (k : ℕ)
    → req.entries ≡ []
    → (handle_append_entries env req n).1.success ≡ true
    → n.commit_index < k
    → k ≤ req.leader_commit
    → k ≤ last_log_index n.log
    → term_at n.log k ≢ term_at L k
    → (k ≤ (handle_append_entries env req n).0.commit_index)
      × (term_at (handle_append_entries env req n).0.log k ≢ term_at L k)
unfolding handle_append_entries check_append follow_leader append_success observe_term
    become_follower apply_entries follow_commit merge_entries
heartbeat_commits_conflict env req n L k e h a b c d = ground arith

scan_commit_top :
    (n : RaftNode) (k : ℕ)
    → n.commit_index < suc k
    → CanCommit n (suc k)
    → scan_commit n (suc k) ≡ suc k
unfolding scan_commit
scan_commit_top n k h g =
    let quorum = (has_quorum-holders n (suc k)).1 g.1 in ground (arith, quorum, g.0)

-- The fields that advanceCommitIndex reads are the same before and after the heartbeat.
record SameProgress (n m : RaftNode) : Type 0 where
  term : m.current_term ≡ n.current_term
  log : m.log ≡ n.log
  commit : m.commit_index ≡ n.commit_index
  matches : m.match_index ≡ n.match_index
  peers : m.peer_ids ≡ n.peer_ids
  role : m.state ≡ n.state

heartbeat-SameProgress : (env : Env) (n : RaftNode) → SameProgress n (heartbeat env n)
unfolding heartbeat send_append_entries
heartbeat-SameProgress env n = ground arith

tick-commits_top :
    (env : Env) (m : RaftNode) (k : ℕ)
    → is_leader m.state ≡ true
    → last_log_index m.log ≡ suc k
    → m.commit_index < suc k
    → CanCommit m (suc k)
    → (tick env m).commit_index ≡ suc k
unfolding tick advance_commit_index apply_entries
tick-commits_top env m k l e c g =
    let s = heartbeat-SameProgress env m in
    let last : last_log_index (heartbeat env m).log ≡ suc k = ap last_log_index s.log ∙ e in
    let top =
      scan_commit_top (heartbeat env m) k (omega (arith, s.commit))
        (rw (s.log, s.term, s.peers, s.matches) g) in
    ground (arith, s.role, last, top)

two_of_three :
    (m : RaftNode) (k p q : ℕ)
    → m.peer_ids ≡ p ∷ q ∷ []
    → k ≤ m.match_index p
    → length m.peer_ids + 1 < 2 * (holders m k + 1)
two_of_three m k p q e h =
    subst (λ ps. length ps + 1 < 2 * (count (λ i. leb k (m.match_index i)) ps + 1)) (sym e)
      (ground (arith, h))

last-append_one :
    (log : List LogEntry) (e : LogEntry)
    → 0 < length log
    → last_log_index (log ++ e ∷ []) ≡ suc (last_log_index log)
last-append_one log e h = omega (
  arith,
  last-length log h,
  length-append log (e ∷ []),
  last-length (log ++ e ∷ []) (omega (arith, length-append log (e ∷ []))),
)

term-append_one :
    (log : List LogEntry) (e : LogEntry)
    → 0 < length log
    → term_at (log ++ e ∷ []) (suc (last_log_index log)) ≡ e.term
term-append_one log e h =
    rw (last-length log h) (ap (λ (x : LogEntry). x.term) (get_or-append_last log e empty_entry))

-- A leader of three nodes that has recorded, for another node, a match index beyond its own log
-- commits the next command in the tick after `propose`, before any peer has answered. Its log is not
-- empty, and its commit index lies in it.
pub commit_without_replication :
    (env : Env) (n : RaftNode) (p q : ℕ) (command : Bytes)
    → is_leader n.state ≡ true
    → n.peer_ids ≡ p ∷ q ∷ []
    → p ≢ n.node_id
    → 0 < length n.log
    → n.commit_index ≤ last_log_index n.log
    → last_log_index n.log < n.match_index p
    → (tick env (propose command n).0).commit_index ≡ last_log_index n.log + 1
commit_without_replication env n p q command l ps ne nonempty c over =
    let s = propose-Proposed command n l in
    let e = proposed_entry command n in
    tick-commits_top env (propose command n).0 (last_log_index n.log) (rw s.role l)
      (ap last_log_index s.log ∙ last-append_one n.log e nonempty) (omega (arith, s.commit))
      (
        rw (s.log, s.term) (unfold proposed_entry in term-append_one n.log e nonempty),
        two_of_three (propose command n).0 (suc (last_log_index n.log)) p q (s.peers ∙ ps)
            (omega (arith, s.others p ne)),
      )
    ∙ omega arith

-- Of the two handlers of responses only the one for votes steps down on a larger term: a leader
-- that learns of it from an AppendEntries response stays leader of its old term.
pub larger_term_in_response :
    (env : Env) (n : RaftNode) (peer term : ℕ) (answer : Bool) (matched : ℕ)
    → is_leader n.state ≡ true
    → n.current_term < term
    → ((process_request_vote_response env peer term answer n).state ≡ follower)
      × ((process_request_vote_response env peer term answer n).current_term ≡ term)
      × (process_append_entries_response peer term answer matched n ≡ n)
unfolding process_request_vote_response process_append_entries_response become_follower
larger_term_in_response env n peer term answer matched l h = ground arith

-- A candidate that accepts AppendEntries of its own term takes the sender for the leader and stays
-- a candidate.
pub candidate_stays :
    (env : Env) (req : AppendEntriesRequest) (n : RaftNode)
    → req.term ≡ n.current_term
    → n.state ≡ candidate
    → ((handle_append_entries env req n).0.state ≡ candidate)
      × ((handle_append_entries env req n).0.leader_id ≡ req.leader_id)
unfolding handle_append_entries check_append follow_leader append_success observe_term
    become_follower apply_entries follow_commit
candidate_stays env req n e h = ground arith

-- Inputs among which is no answer to a vote request.
abbrev pub NoVoteAnswer : List (Env × Input) → Type 0
NoVoteAnswer [] = Unit {0}
NoVoteAnswer ((env, answers_vote peer term granted) ∷ is) = ⊥
NoVoteAnswer ((env, i) ∷ is) = NoVoteAnswer is

-- A node becomes leader only in the handler of vote answers.
step-not_leader :
    (n : RaftNode) (env : Env) (i : Input) (is : List (Env × Input))
    → NoVoteAnswer ((env, i) ∷ is)
    → is_leader n.state ≡ false
    → (is_leader (step n (env, i)).state ≡ false) × NoVoteAnswer is
unfolding step propose handle_request_vote decide_vote observe_term become_follower
    handle_append_entries check_append follow_leader append_success apply_entries follow_commit
    process_append_entries_response tick become_candidate reset_election_timer
step-not_leader n env (proposes c) is h s = ground arith
step-not_leader n env (asks_vote req) is h s = ground arith
step-not_leader n env (answers_vote peer term granted) is h s = absurd h
step-not_leader n env (appends req) is h s = ground arith
step-not_leader n env (answers_append peer term success matched) is h s = ground arith
step-not_leader n env ticks is h s = ground arith
step-not_leader n env reconnects is h s = (s, h)

run-not_leader :
    (n : RaftNode) (is : List (Env × Input))
    → NoVoteAnswer is
    → is_leader n.state ≡ false
    → is_leader (run n is).state ≡ false
unfolding run
run-not_leader n [] h s = s
run-not_leader n ((env, i) ∷ is) h s =
    let next = step-not_leader n env i is h s in run-not_leader (step n (env, i)) is next.1 next.0

-- A node without peers that gets no answer to a vote request is not leader after any inputs, and
-- refuses the command that is then proposed.
pub lone_node-refuses :
    (env : Env) (node_id : ℕ) (is : List (Env × Input)) (command : Bytes)
    → NoVoteAnswer is
    → (is_leader (run (init env node_id []) is).state ≡ false)
      × ((propose command (run (init env node_id []) is)).1 ≡ false)
lone_node-refuses env node_id is command h =
    let s = run-not_leader (init env node_id []) is h (unfold init in refl) in
    (s, unfold propose in rw s)
