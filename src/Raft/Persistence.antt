-- ===== src/Raft/Persistence.antt =====
-- The state on disk through the operations of Raft/Replica, a step and a run (raft_node.cpp).
use learn_git.Base.{ℕ, zero, suc, ◌≡◌, refl, ◌∙◌, List, [], ◌∷◌, arith, true}
use learn_git.Raft.Types.{LogEntry, AppendEntriesRequest, Event, applied, RaftNode, Env}
use learn_git.Raft.Log.{get_log_entry}
use learn_git.Raft.Node.{init}
use learn_git.Raft.Replica.{
  apply_loop, apply_entries, follow_commit, append_success, check_append, follow_leader,
  handle_append_entries, advance_commit_index, heartbeat, tick, reset_election_timer, Input,
  proposes, asks_vote, answers_vote, appends, answers_append, ticks, reconnects, step, run,
}
use learn_git.Raft.Durability.{
  stored, AllBacked, IsDurable, send_append_entries-IsDurable, persist-IsDurable,
  observe_term-IsDurable, become_candidate-IsDurable, propose-IsDurable,
  handle_request_vote-IsDurable, answers_vote-IsDurable, answers_append-IsDurable,
}

-- Applying entries writes nothing and sends nothing.
apply_loop-stored :
    (rounds : ℕ) (log : List LogEntry) (commit last : ℕ) (es : List Event)
    → stored (apply_loop rounds log commit last es).1 ≡ stored es
unfolding apply_loop
apply_loop-stored zero log commit last es = refl
apply_loop-stored (suc r) log commit last es = ground (
  arith,
  apply_loop-stored r log commit (suc last)
      (applied (suc last) (get_log_entry log (suc last)).command ∷ es),
)

apply_loop-AllBacked :
    (rounds : ℕ) (log : List LogEntry) (commit last : ℕ) (es : List Event)
    → AllBacked es
    → AllBacked (apply_loop rounds log commit last es).1
unfolding apply_loop
apply_loop-AllBacked zero log commit last es b = b
apply_loop-AllBacked (suc r) log commit last es b = ground (
  arith,
  apply_loop-AllBacked r log commit (suc last)
      (applied (suc last) (get_log_entry log (suc last)).command ∷ es) b,
)

apply_entries-IsDurable : (n : RaftNode) → IsDurable n → IsDurable (apply_entries n)
unfolding apply_entries
apply_entries-IsDurable n d = record {
  on_disk = apply_loop-stored _ n.log n.commit_index n.last_applied n.events ∙ d.on_disk;
  backed = apply_loop-AllBacked _ n.log n.commit_index n.last_applied n.events d.backed;
}

follow_commit-events : (c : ℕ) (n : RaftNode) → (follow_commit c n).events ≡ n.events
unfolding follow_commit
follow_commit-events c n = ground arith

append_success-IsDurable :
    (req : AppendEntriesRequest) (n : RaftNode)
    → AllBacked n.events
    → IsDurable (append_success req n).0
unfolding append_success
append_success-IsDurable req n b =
    apply_entries-IsDurable _ (persist-IsDurable _ (rw follow_commit-events b))

check_append-IsDurable :
    (req : AppendEntriesRequest) (n : RaftNode) → IsDurable n → IsDurable (check_append req n).0
unfolding check_append
check_append-IsDurable req n d = ground (arith, append_success-IsDurable req n d.backed)

handle_append_entries-IsDurable :
    (env : Env) (req : AppendEntriesRequest) (n : RaftNode)
    → IsDurable n
    → IsDurable (handle_append_entries env req n).0
unfolding handle_append_entries follow_leader
handle_append_entries-IsDurable env req n d =
    let seen =
      observe_term-IsDurable env req.term (record n { last_heartbeat = env.now })
        (record { on_disk = d.on_disk; backed = d.backed }) in
    ground (
      arith,
      check_append-IsDurable req (follow_leader env req n)
          (record { on_disk = seen.on_disk; backed = seen.backed }),
    )

advance-IsDurable : (n : RaftNode) → IsDurable n → IsDurable (advance_commit_index n)
unfolding advance_commit_index
advance-IsDurable n d = ground (arith, d.on_disk, d.backed)

heartbeat-IsDurable : (env : Env) (n : RaftNode) → IsDurable n → IsDurable (heartbeat env n)
unfolding heartbeat
heartbeat-IsDurable env n d = ground (
  arith,
  send_append_entries-IsDurable true (record n { last_heartbeat = env.now })
      (record { on_disk = d.on_disk; backed = d.backed }),
)

tick-IsDurable : (env : Env) (n : RaftNode) → IsDurable n → IsDurable (tick env n)
unfolding tick
tick-IsDurable env n d = ground (
  arith,
  become_candidate-IsDurable env n d,
  apply_entries-IsDurable _ (advance-IsDurable _ (heartbeat-IsDurable env n d)),
)

-- Every operation leaves the term, the vote and the log on disk as they are in memory, and sends
-- no vote request and no AppendEntries that the disk does not back at that moment.
pub step-IsDurable : (n : RaftNode) (i : Env × Input) → IsDurable n → IsDurable (step n i)
unfolding step reset_election_timer
step-IsDurable n (env, proposes c) d = propose-IsDurable c n d
step-IsDurable n (env, asks_vote req) d = handle_request_vote-IsDurable env req n d
step-IsDurable n (env, answers_vote peer term granted) d =
    answers_vote-IsDurable env peer term granted n d
step-IsDurable n (env, appends req) d = handle_append_entries-IsDurable env req n d
step-IsDurable n (env, answers_append peer term success matched) d =
    answers_append-IsDurable peer term success matched n d
step-IsDurable n (env, ticks) d = tick-IsDurable env n d
step-IsDurable n (env, reconnects) d = record { on_disk = d.on_disk; backed = d.backed }

run-IsDurable : (n : RaftNode) (is : List (Env × Input)) → IsDurable n → IsDurable (run n is)
unfolding run
run-IsDurable n [] d = d
run-IsDurable n (i ∷ is) d = run-IsDurable (step n i) is (step-IsDurable n i d)

-- After any inputs to a node that has just been constructed, the newest state given to the persist
-- callback is the node's term, vote and log. Every vote request sent so far had the term, the vote and
-- the last position and term of the state that was persisted when it was sent; and every AppendEntries
-- message had that state's term, the term of its log at prev_log_index, and as entries none, or those
-- of its log from a position on that prev_log_index is one before (as a uint64_t).
pub run-init-IsDurable :
    (env : Env) (node_id : ℕ) (peers : List ℕ) (is : List (Env × Input))
    → IsDurable (run (init env node_id peers) is)
run-init-IsDurable env node_id peers is =
    run-IsDurable _ is (unfold init in record { on_disk = refl; backed = tt })
