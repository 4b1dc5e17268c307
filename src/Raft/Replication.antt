-- ===== src/Raft/Replication.antt =====
-- AppendEntries from the leader's message to the follower's log: sendAppendEntries and
-- handleAppendEntries of raft_node.cpp together.
use learn_git.Raft.Log.{merge_entries, last_log_index}
use learn_git.Raft.Append.{term_at, Matching, last-length, merge_entries-copies}
use learn_git.Raft.Replica.{
  handle_append_entries, check_append, follow_leader, append_success, apply_entries, follow_commit,
}
use learn_git.Raft.Node.{append_request, observe_term, become_follower}
use learn_git.Base.{
  ℕ, List, ◌<◌, length, ◌≤◌, u64, ◌≡◌, drop, false, [], sub64, suc, ◌∷◌, true, ◌-◌, arith, ◌↔◌,
  zero, take, ◌⊎◌, inl, subst, sym, refl, inr, ◌∙◌,
}
use learn_git.Raft.Types.{AppendEntriesRequest, RaftNode, Env, LogEntry}

-- handleAppendEntries succeeds exactly when the sender's term is not behind, the position before
-- the new entries is in the log, and its term is the sender's (position 0 is not compared).
pub handle_append_entries-succeeds :
    (env : Env) (req : AppendEntriesRequest) (n : RaftNode)
    → ((handle_append_entries env req n).1.success ≡ true) ↔ (
        (n.current_term ≤ req.term)
        × (req.prev_log_index ≤ last_log_index n.log)
        × ((req.prev_log_index ≡ 0) ⊎ (term_at n.log req.prev_log_index ≡ req.prev_log_term)))
unfolding handle_append_entries check_append follow_leader append_success observe_term
    become_follower
handle_append_entries-succeeds env req n = (λ h. ground arith, λ h. ground arith)

-- The log after a request: merged on success, and otherwise as it was.
log-handle_append_entries :
    (env : Env) (req : AppendEntriesRequest) (n : RaftNode)
    → (handle_append_entries env req n).1.success ≡ true
    → (handle_append_entries env req n).0.log ≡ merge_entries req.prev_log_index req.entries n.log
unfolding handle_append_entries check_append follow_leader append_success observe_term
    become_follower apply_entries follow_commit
log-handle_append_entries env req n h = ground arith

pub log-handle_append_entries_refused :
    (env : Env) (req : AppendEntriesRequest) (n : RaftNode)
    → (handle_append_entries env req n).1.success ≡ false
    → (handle_append_entries env req n).0.log ≡ n.log
unfolding handle_append_entries check_append follow_leader append_success observe_term
    become_follower
log-handle_append_entries_refused env req n h = ground arith

-- The message describes the leader's log: where it starts, the term there, and all that follows.
record Describes (req : AppendEntriesRequest) (L : List LogEntry) : Type 0 where
  inside : req.prev_log_index < length L
  prev_term : req.prev_log_term ≡ term_at L req.prev_log_index
  rest : drop (suc req.prev_log_index) L ≡ req.entries

drop_all : (n : ℕ) (xs : List LogEntry) → length xs ≤ n → drop n xs ≡ []
drop_all zero [] h = refl
drop_all zero (x ∷ xs) h = absurd (omega arith)
drop_all (suc n) [] h = refl
drop_all (suc n) (x ∷ xs) h = drop_all n xs (omega arith)

append_request-Describes :
    (m : RaftNode) (peer : ℕ)
    → 0 < m.next_index peer
    → m.next_index peer ≤ length m.log
    → length m.log < u64
    → Describes (append_request false m peer) m.log
unfolding append_request
append_request-Describes m peer lo hi fit =
    let prev : sub64 (m.next_index peer) 1 ≡ m.next_index peer - 1 = omega arith in
    let next : suc (m.next_index peer - 1) ≡ m.next_index peer = omega arith in
    let size = last-length m.log (omega arith) in
    record {
      inside = rw prev (omega arith);
      prev_term = refl;
      rest = rw (prev, next) (ground (arith, drop_all (m.next_index peer) m.log));
    }

-- A follower that accepts a leader's replication message then has the leader's whole log as a
-- prefix of its own, and any two entries of one term at one position still agree with all before
-- them, if they did so before. The leader's next index for the peer lies in its log or just past
-- its end, and both logs start with an entry of one term (the sentinel).
pub replicate_to_peer :
    (env : Env) (m n : RaftNode) (peer : ℕ)
    → 0 < m.next_index peer
    → m.next_index peer ≤ length m.log
    → length m.log < u64
    → 0 < length n.log
    → term_at n.log 0 ≡ term_at m.log 0
    → Matching n.log m.log
    → (handle_append_entries env (append_request false m peer) n).1.success ≡ true
    → (take (length m.log) (handle_append_entries env (append_request false m peer) n).0.log
        ≡ m.log)
      × Matching (handle_append_entries env (append_request false m peer) n).0.log m.log
replicate_to_peer env m n peer lo hi fit nonempty sentinel matching ok =
    rw (log-handle_append_entries env req n ok) (
      merge_entries-copies req.prev_log_index req.entries n.log m.log inside d.inside d.rest
        (matching req.prev_log_index inside d.inside same_term) matching)
  where
    req : AppendEntriesRequest
    req = append_request false m peer

    d : Describes (append_request false m peer) m.log
    d = append_request-Describes m peer lo hi fit

    accepted :
        (n.current_term ≤ req.term)
        × (req.prev_log_index ≤ last_log_index n.log)
        × ((req.prev_log_index ≡ 0) ⊎ (term_at n.log req.prev_log_index ≡ req.prev_log_term))
    accepted = (handle_append_entries-succeeds env req n).0 ok

    inside : req.prev_log_index < length n.log
    inside = omega (arith, accepted.1, last-length n.log nonempty)

    same_term : term_at n.log req.prev_log_index ≡ term_at m.log req.prev_log_index
    same_term = elim accepted.2 [
      | inl z ↦ subst (λ i. term_at n.log i ≡ term_at m.log i) (sym z) sentinel
      | inr t ↦ t ∙ d.prev_term
    ]
