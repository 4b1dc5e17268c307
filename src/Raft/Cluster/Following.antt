-- ===== src/Raft/Cluster/Following.antt =====
-- What a follower does with the leader's messages, none of which is about votes (raft_node.cpp).
use learn_git.Raft.Log.{merge_entries}
use learn_git.Raft.Cluster.Effects.{
  Quiet, observe_term-Quiet, apply_entries-Quiet, Quiet-refl, Quiet-trans,
}
use learn_git.Raft.Node.{persist}
use learn_git.Base.{ℕ, Bool-cases, arith, inl, ltb, ◌∙◌, inr}
use learn_git.Raft.Replica.{
  follow_leader, follow_commit, handle_append_entries, check_append, append_success,
}
use learn_git.Raft.Types.{RaftNode, Env, AppendEntriesRequest}

follow_commit-Quiet : (c : ℕ) (n : RaftNode) → Quiet n (follow_commit c n)
unfolding follow_commit
follow_commit-Quiet c n = record {
  same_id = ground arith;
  same_peers = ground arith;
  silent = ground arith;
  view = inl (ground arith, ground arith, inl (ground arith, ground arith));
}

append_success-Quiet :
    (req : AppendEntriesRequest) (n : RaftNode) → Quiet n (append_success req n).0
unfolding append_success persist
append_success-Quiet req n =
    let merged = record n { log = merge_entries req.prev_log_index req.entries n.log } in
    let followed = follow_commit-Quiet req.leader_commit merged in
    let stored = persist (follow_commit req.leader_commit merged) in
    let done = apply_entries-Quiet stored in
    record {
      same_id = done.same_id ∙ followed.same_id;
      same_peers = done.same_peers ∙ followed.same_peers;
      silent = done.silent ∙ followed.silent;
      view = ground (arith, done.view, followed.view);
    }

check_append-Quiet : (req : AppendEntriesRequest) (n : RaftNode) → Quiet n (check_append req n).0
unfolding check_append
check_append-Quiet req n =
    let done = append_success-Quiet req n in
    record {
      same_id = ground (arith, done.same_id);
      same_peers = ground (arith, done.same_peers);
      silent = ground (arith, done.silent);
      view = ground (arith, done.view);
    }

follow_leader-Quiet :
    (env : Env) (req : AppendEntriesRequest) (n : RaftNode) → Quiet n (follow_leader env req n)
unfolding follow_leader
follow_leader-Quiet env req n =
    let seen = observe_term-Quiet env req.term (record n { last_heartbeat = env.now }) in
    record {
      same_id = seen.same_id;
      same_peers = seen.same_peers;
      silent = seen.silent;
      view = seen.view;
    }

pub handle_append_entries-Quiet :
    (env : Env) (req : AppendEntriesRequest) (n : RaftNode)
    → Quiet n (handle_append_entries env req n).0
unfolding handle_append_entries
handle_append_entries-Quiet env req n = elim (Bool-cases (ltb req.term n.current_term)) [
  | inl t ↦ rw t (Quiet-refl n)
  | inr f ↦ rw f (
      Quiet-trans (follow_leader-Quiet env req n)
        (check_append-Quiet req (follow_leader env req n)))
]
