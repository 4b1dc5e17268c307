-- ===== src/Raft/Examples.antt =====
-- The theorems about RaftNode at concrete nodes and messages.
use learn_git.Raft.Node.{
  process_append_entries_response, process_request_vote_response, become_candidate, count_vote,
  become_leader, back_off, set_each,
}
use learn_git.Raft.Indices.{run-append_request}
use learn_git.Raft.Replica.{answers_append, Input}
use learn_git.Raft.Replication.{handle_append_entries-succeeds, replicate_to_peer}
use learn_git.Raft.Votes.{one_vote_per_term, handle_request_vote-grants}
use learn_git.Raft.Commit.{IsLargest, advance_commit_index-IsLargest}
use learn_git.Raft.Hazards.{lone_node-refuses, commit_without_replication}
use learn_git.Raft.Log.{merge_entries, last_log_index}
use learn_git.Raft.Persistence.{run-init-IsDurable}
use learn_git.Raft.Durability.{IsDurable}
use learn_git.Raft.Append.{Matching, HasTerms, merge_entries_twice}
use learn_git.Raft.Applying.{run-init-IsApplied}
use learn_git.Raft.Applied.{IsApplied}
use learn_git.Base.{
  ℕ, zero, suc, [], ◌∷◌, true, false, if◌then◌else◌, take, ◌≤◌, ◌≡◌, ◌==◌, arith, refl, ◌+◌, ◌↔◌,
  ◌<◌, ◌⊎◌, List,
}
use learn_git.Raft.Types.{
  LogEntry, empty_entry, RequestVoteRequest, AppendEntriesRequest, RaftNode, Env, leader, candidate,
  is_leader,
}
use learn_git.Raft.Node.{
  init, handle_request_vote, propose, observe_term, become_follower, append_request, decide_vote,
  may_grant, up_to_date,
}
use learn_git.Raft.Replica.{
  proposes, answers_vote, appends, ticks, step, run, tick, handle_append_entries, check_append,
  follow_leader, append_success, advance_commit_index,
}

abbrev at_time : ℕ → Env
at_time t = record { now = t; timeout = 150 }

-- Node 1 of three, just constructed.
abbrev fresh : RaftNode
unfolding init
fresh = init (at_time 0) 1 (2 ∷ 3 ∷ [])

abbrev entry : ℕ → ℕ → LogEntry
entry t i = record { term = t; index = i; command = 7 ∷ [] }

-- A candidate's request for a vote.
abbrev asking : ℕ → ℕ → RequestVoteRequest
asking term id = record { term = term; candidate_id = id; last_log_index = 0; last_log_term = 0 }

-- A leader of term 3 that knows nothing of its peers.
abbrev leading : RaftNode
unfolding init
leading = record fresh {
  current_term = 3;
  state = leader;
  leader_id = 1;
  log = empty_entry ∷ entry 3 1 ∷ [];
  next_index = λ _. 1;
}

-- A follower with two entries of an older term.
abbrev lagging : RaftNode
unfolding init
lagging = record fresh {
  node_id = 2;
  current_term = 2;
  log = empty_entry ∷ entry 2 1 ∷ entry 2 2 ∷ [];
}

abbrev heartbeat_message : AppendEntriesRequest
heartbeat_message = record {
  term = 3;
  leader_id = 1;
  prev_log_index = 0;
  prev_log_term = 0;
  leader_commit = 2;
  entries = [];
}

run-init-IsDurable_example : IsDurable (
    run (init (at_time 0) 1 (2 ∷ 3 ∷ [])) (
      (at_time 200, ticks)
      ∷ (at_time 210, answers_vote 2 1 true)
      ∷ (at_time 220, proposes (5 ∷ []))
      ∷ []))
run-init-IsDurable_example = run-init-IsDurable (at_time 0) 1 (2 ∷ 3 ∷ []) _

one_vote_per_term_example : ◌≡◌ {A = ℕ} 2 2
unfolding handle_request_vote step run tick decide_vote may_grant observe_term become_follower
    up_to_date init
one_vote_per_term_example =
    one_vote_per_term fresh (at_time 1) (at_time 3) (asking 1 2) (asking 1 2)
      ((at_time 2, ticks) ∷ []) (omega arith) (omega arith, tt) refl refl refl

handle_request_vote-grants_example :
    ((handle_request_vote (at_time 1) (asking 1 2) fresh).1.vote_granted ≡ true) ↔ (
      (0 ≤ 1)
      × ((0 < 1) ⊎ ((◌≡◌ {A = ℕ} 0 0) ⊎ (◌≡◌ {A = ℕ} 0 2)))
      × ((0 < 0) ⊎ ((◌≡◌ {A = ℕ} 0 0) × (0 ≤ 0))))
unfolding init
handle_request_vote-grants_example = handle_request_vote-grants (at_time 1) (asking 1 2) fresh

lagging-Matching : Matching lagging.log leading.log
unfolding init
lagging-Matching zero a b e = refl
lagging-Matching (suc zero) a b e = absurd (omega arith)
lagging-Matching (suc (suc i)) a b e = absurd (omega arith)

replicate_to_peer_example :
    (take 2 (handle_append_entries (at_time 5) (append_request false leading 2) lagging).0.log
      ≡ leading.log)
    × Matching
        (handle_append_entries (at_time 5) (append_request false leading 2) lagging).0.log
        leading.log
unfolding init handle_append_entries check_append follow_leader append_success observe_term
    become_follower append_request
replicate_to_peer_example =
    replicate_to_peer (at_time 5) leading lagging 2 (omega arith) (omega arith) (omega arith)
      (omega arith) refl lagging-Matching refl

merge_entries_twice_example :
    (take 1 (merge_entries 0 (entry 3 1 ∷ []) lagging.log) ≡ empty_entry ∷ [])
    × HasTerms 0 (entry 3 1 ∷ []) (merge_entries 0 (entry 3 1 ∷ []) lagging.log)
    × (merge_entries 0 (entry 3 1 ∷ []) (merge_entries 0 (entry 3 1 ∷ []) lagging.log)
        ≡ merge_entries 0 (entry 3 1 ∷ []) lagging.log)
unfolding init
merge_entries_twice_example = merge_entries_twice 0 (entry 3 1 ∷ []) lagging.log (omega arith)

handle_append_entries-succeeds_example :
    ((handle_append_entries (at_time 5) heartbeat_message lagging).1.success ≡ true)
    ↔ ((2 ≤ 3) × (0 ≤ 2) × ((◌≡◌ {A = ℕ} 0 0) ⊎ (◌≡◌ {A = ℕ} 0 0)))
unfolding init
handle_append_entries-succeeds_example =
    handle_append_entries-succeeds (at_time 5) heartbeat_message lagging

run-init-IsApplied_example :
    IsApplied (run (init (at_time 0) 1 (2 ∷ 3 ∷ [])) ((at_time 5, appends heartbeat_message) ∷ []))
run-init-IsApplied_example = run-init-IsApplied (at_time 0) 1 (2 ∷ 3 ∷ []) _

advance_commit_index-IsLargest_example :
    (is_leader leading.state ≡ true
      → IsLargest leading (last_log_index leading.log) (advance_commit_index leading).commit_index)
    × (is_leader leading.state ≡ false
        → (advance_commit_index leading).commit_index ≡ leading.commit_index)
advance_commit_index-IsLargest_example = advance_commit_index-IsLargest leading

abbrev misled : RaftNode
unfolding init
misled = record leading { match_index = λ p. if p == 2 then 2 else 0 }

commit_without_replication_example :
    (tick (at_time 9) (propose (7 ∷ []) misled).0).commit_index ≡ 1 + 1
unfolding init
commit_without_replication_example =
    commit_without_replication (at_time 9) misled 2 3 (7 ∷ []) refl refl (omega arith) (omega arith)
      (omega arith) (omega arith)

abbrev standing : RaftNode
unfolding init
standing = record fresh { current_term = 3; state = candidate }

lone_node-refuses_example :
    (is_leader (run (init (at_time 0) 1 []) ((at_time 400, ticks) ∷ [])).state ≡ false)
    × ((propose (5 ∷ []) (run (init (at_time 0) 1 []) ((at_time 400, ticks) ∷ []))).1 ≡ false)
lone_node-refuses_example = lone_node-refuses (at_time 0) 1 ((at_time 400, ticks) ∷ []) (5 ∷ []) tt

-- Node 1 is elected, and node 2 refuses its first message.
abbrev led : List (Env × Input)
led =
    (at_time 150, ticks)
    ∷ (at_time 151, answers_vote 2 1 true)
    ∷ (at_time 152, answers_append 2 1 false 0)
    ∷ []

run-append_request_example :
    let n = run (init (at_time 0) 1 (2 ∷ 3 ∷ [])) led in
    (1 ≤ n.next_index 2) × ((append_request false n 2).prev_log_index < n.next_index 2)
unfolding run step process_append_entries_response process_request_vote_response tick init
    become_candidate count_vote become_leader back_off set_each
run-append_request_example =
    run-append_request (at_time 0) 1 (2 ∷ 3 ∷ []) led false 2 (tt, (tt, (omega arith, tt))) refl
      refl
