-- ===== src/Raft/Applying.antt =====
-- The calls of the apply callback: applyEntries in raft_node.cpp, and who calls it.
use learn_git.Raft.Applied.{
  IsApplied, SameApplied, positions, down_from, SameApplied-keeps, observe_term-SameApplied,
  send_append_entries-SameApplied, propose-SameApplied, become_candidate-SameApplied,
  handle_request_vote-SameApplied, answers_vote-SameApplied, answers_append-SameApplied,
}
use learn_git.Raft.Log.{get_log_entry, last_log_index, merge_entries}
use learn_git.Raft.Replica.{
  step, heartbeat, tick, follow_commit, run, advance_commit_index, handle_append_entries, Input,
  apply_entries, append_success, apply_loop, reset_election_timer, check_append, follow_leader,
  proposes, asks_vote, answers_vote, appends, answers_append, ticks, reconnects,
}
use native.Mathlib.Decide.{dec_le}
use learn_git.Base.{
  ℕ, zero, suc, ◌≤◌, ◌≡◌, refl, ◌∙◌, List, [], ◌∷◌, arith, ap, sym, ◌+◌, ◌<◌, ◌-◌, true,
}
use learn_git.Raft.Types.{Event, applied, RaftNode, Env, LogEntry, AppendEntriesRequest}
use learn_git.Raft.Node.{init, persist}

-- The loop reaches the commit index, and calls for each position on the way.
apply_loop_lem :
    (rounds : ℕ) (log : List LogEntry) (commit last : ℕ) (es : List Event)
    → positions es ≡ down_from last
    → last + rounds ≡ commit
    → ((apply_loop rounds log commit last es).0 ≡ commit)
      × (positions (apply_loop rounds log commit last es).1
          ≡ down_from (apply_loop rounds log commit last es).0)
unfolding apply_loop
apply_loop_lem zero log commit last es e h = (omega arith, e)
apply_loop_lem (suc r) log commit last es e h = ground (
  arith,
  apply_loop_lem r log commit (suc last)
      (applied (suc last) (get_log_entry log (suc last)).command ∷ es) (ap (◌∷◌ (suc last)) e)
      (omega arith),
)

-- After applyEntries nothing committed is left to apply, and every position was called once.
pub apply_entries-IsApplied :
    (n : RaftNode) → positions n.events ≡ down_from n.last_applied → IsApplied (apply_entries n)
unfolding apply_entries
apply_entries-IsApplied n e = elim (dec_le n.last_applied n.commit_index) [
  | yes h ↦
      let end =
        apply_loop_lem (n.commit_index - n.last_applied) n.log n.commit_index n.last_applied
          n.events e (omega arith) in
      record { in_order = end.1; settled = omega arith }
  | no h ↦
      let none_left : n.commit_index - n.last_applied ≡ 0 = omega arith in
      rw none_left (unfold apply_loop in record { in_order = e; settled = omega arith })
]

append_success-IsApplied :
    (req : AppendEntriesRequest) (n : RaftNode) → IsApplied n → IsApplied (append_success req n).0
unfolding append_success
append_success-IsApplied req n v =
    apply_entries-IsApplied
      (persist (
        follow_commit req.leader_commit
          (record n { log = merge_entries req.prev_log_index req.entries n.log })))
      (unfold persist follow_commit in ground (arith, v.in_order))

handle_append_entries-IsApplied :
    (env : Env) (req : AppendEntriesRequest) (n : RaftNode)
    → IsApplied n
    → IsApplied (handle_append_entries env req n).0
unfolding handle_append_entries check_append follow_leader
handle_append_entries-IsApplied env req n v =
    let seen = observe_term-SameApplied env req.term (record n { last_heartbeat = env.now }) in
    let same : SameApplied n (follow_leader env req n) = record {
      calls = seen.calls;
      last = seen.last;
      commit = seen.commit;
    } in
    ground (
      arith,
      SameApplied-keeps same v,
      append_success-IsApplied req (follow_leader env req n) (SameApplied-keeps same v),
    )

heartbeat-SameApplied : (env : Env) (n : RaftNode) → SameApplied n (heartbeat env n)
unfolding heartbeat
heartbeat-SameApplied env n =
    ground (arith, send_append_entries-SameApplied true (record n { last_heartbeat = env.now }))

advance-same :
    (n : RaftNode)
    → ((advance_commit_index n).events ≡ n.events)
      × ((advance_commit_index n).last_applied ≡ n.last_applied)
unfolding advance_commit_index
advance-same n = ground arith

tick-IsApplied : (env : Env) (n : RaftNode) → IsApplied n → IsApplied (tick env n)
unfolding tick
tick-IsApplied env n v =
    let beat = heartbeat-SameApplied env n in
    let moved = advance-same (heartbeat env n) in
    ground (
      arith,
      SameApplied-keeps (become_candidate-SameApplied env n) v,
      apply_entries-IsApplied (advance_commit_index (heartbeat env n)) (
          ap positions moved.0
          ∙ beat.calls
          ∙ v.in_order
          ∙ ap down_from (sym (moved.1 ∙ beat.last))),
    )

-- Every operation applies the positions that it finds committed, in order and each once.
pub step-IsApplied : (n : RaftNode) (i : Env × Input) → IsApplied n → IsApplied (step n i)
unfolding step reset_election_timer
step-IsApplied n (env, proposes c) v = SameApplied-keeps (propose-SameApplied c n) v
step-IsApplied n (env, asks_vote req) v =
    SameApplied-keeps (handle_request_vote-SameApplied env req n) v
step-IsApplied n (env, answers_vote peer term granted) v =
    SameApplied-keeps (answers_vote-SameApplied env peer term granted n) v
step-IsApplied n (env, appends req) v = handle_append_entries-IsApplied env req n v
step-IsApplied n (env, answers_append peer term success matched) v =
    SameApplied-keeps (answers_append-SameApplied peer term success matched n) v
step-IsApplied n (env, ticks) v = tick-IsApplied env n v
step-IsApplied n (env, reconnects) v = record { in_order = v.in_order; settled = v.settled }

run-IsApplied : (n : RaftNode) (is : List (Env × Input)) → IsApplied n → IsApplied (run n is)
unfolding run
run-IsApplied n [] v = v
run-IsApplied n (i ∷ is) v = run-IsApplied (step n i) is (step-IsApplied n i v)

-- After any inputs to a node that has just been constructed, the apply callback has been called for
-- the positions 1 to `last_applied`, each once and in order, and the commit index is not above
-- `last_applied`.
pub run-init-IsApplied :
    (env : Env) (node_id : ℕ) (peers : List ℕ) (is : List (Env × Input))
    → IsApplied (run (init env node_id peers) is)
run-init-IsApplied env node_id peers is =
    run-IsApplied _ is (unfold init in record { in_order = refl; settled = omega arith })

-- When a follower that has applied all it knew committed goes on to apply, every position that it
-- reads lies in its log.
pub append_reads_in_log :
    (leader_commit : ℕ) (n : RaftNode) (k : ℕ)
    → n.commit_index ≤ n.last_applied
    → n.last_applied < k
    → k ≤ (follow_commit leader_commit n).commit_index
    → k ≤ last_log_index n.log
unfolding follow_commit
append_reads_in_log leader_commit n k s a b = ground arith
