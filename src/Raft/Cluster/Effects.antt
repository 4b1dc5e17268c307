-- ===== src/Raft/Cluster/Effects.antt =====
-- What each operation of raft_node.cpp does to the term, the vote, the role and the count of votes.
use learn_git.Raft.Log.{get_log_entry}
use learn_git.Base.{
  Bool, ◌≡◌, ℕ, inl, ◌∙◌, arith, Bytes, ◌⊎◌, List, ◌<◌, refl, inr, Bool-cases, suc, leb, ◌∷◌, ◌-◌,
  [], true, zero, false, sym,
}
use learn_git.Raft.Replica.{
  apply_entries, apply_loop, advance_commit_index, load_persisted_state, heartbeat,
  reset_election_timer,
}
use learn_git.Raft.Node.{
  send_append_entries, send_each, become_follower, observe_term, propose, persist, append_request,
  process_append_entries_response, init, record_match, back_off,
}
use learn_git.Raft.Types.{
  RaftNode, Env, follower, AppendEntriesRequest, LogEntry, append_entries, applied, sent, is_leader,
  Event,
}
use learn_git.Raft.Cluster.Counts.{vote_events}
use learn_git.Raft.Cluster.System.{restarted}

-- The node votes for nobody, and counts nothing: the four fields stay, or it follows a larger term.
pub record Quiet (n m : RaftNode) : Type 0 where
  pub same_id : m.node_id ≡ n.node_id
  pub same_peers : m.peer_ids ≡ n.peer_ids
  pub silent : vote_events m.events ≡ vote_events n.events
  pub view :
      ((m.current_term ≡ n.current_term)
        × (m.voted_for ≡ n.voted_for)
        × (((m.state ≡ n.state) × (m.votes_received ≡ n.votes_received)) ⊎ (m.state ≡ follower)))
      ⊎ ((n.current_term < m.current_term) × (m.state ≡ follower))

pub Quiet-refl : (n : RaftNode) → Quiet n n
Quiet-refl n = record {
  same_id = refl;
  same_peers = refl;
  silent = refl;
  view = inl (refl, refl, inl (refl, refl));
}

pub Quiet-trans : {a b c : RaftNode} → Quiet a b → Quiet b c → Quiet a c
Quiet-trans p q = record {
  same_id = q.same_id ∙ p.same_id;
  same_peers = q.same_peers ∙ p.same_peers;
  silent = q.silent ∙ p.silent;
  view = ground (arith, p.view, q.view);
}

send_each-silent :
    (req : ℕ → AppendEntriesRequest) (ps : List ℕ) (es : List Event)
    → vote_events (send_each (λ p. append_entries (req p)) ps es) ≡ vote_events es
unfolding send_each
send_each-silent req [] es = refl
send_each-silent req (p ∷ ps) es =
    omega (arith, send_each-silent req ps (sent p (append_entries (req p)) ∷ es))

pub send_append_entries-Quiet : (hb : Bool) (n : RaftNode) → Quiet n (send_append_entries hb n)
unfolding send_append_entries
send_append_entries-Quiet hb n = record {
  same_id = refl;
  same_peers = refl;
  silent = send_each-silent (append_request hb n) n.peer_ids n.events;
  view = inl (refl, refl, inl (refl, refl));
}

apply_loop-silent :
    (rounds : ℕ) (log : List LogEntry) (commit last : ℕ) (es : List Event)
    → vote_events (apply_loop rounds log commit last es).1 ≡ vote_events es
unfolding apply_loop
apply_loop-silent zero log commit last es = refl
apply_loop-silent (suc r) log commit last es = ground (
  arith,
  apply_loop-silent r log commit (suc last)
      (applied (suc last) (get_log_entry log (suc last)).command ∷ es),
)

pub apply_entries-Quiet : (n : RaftNode) → Quiet n (apply_entries n)
unfolding apply_entries
apply_entries-Quiet n = record {
  same_id = refl;
  same_peers = refl;
  silent = apply_loop-silent _ n.log n.commit_index n.last_applied n.events;
  view = inl (refl, refl, inl (refl, refl));
}

pub propose-Quiet : (c : Bytes) (n : RaftNode) → Quiet n (propose c n).0
unfolding propose persist
propose-Quiet c n = elim (Bool-cases (is_leader n.state)) [
  | inl t ↦ rw t (record {
    same_id = refl;
    same_peers = refl;
    silent = send_each-silent _ n.peer_ids _;
    view = inl (refl, refl, inl (refl, refl));
  })
  | inr f ↦ rw f (Quiet-refl n)
]

pub become_follower-Quiet :
    (env : Env) (t : ℕ) (n : RaftNode) → n.current_term < t → Quiet n (become_follower env t n)
unfolding become_follower persist
become_follower-Quiet env t n h = record {
  same_id = refl;
  same_peers = refl;
  silent = refl;
  view = inr (h, refl);
}

pub observe_term-Quiet : (env : Env) (t : ℕ) (n : RaftNode) → Quiet n (observe_term env t n)
unfolding observe_term become_follower persist
observe_term-Quiet env t n = record {
  same_id = ground arith;
  same_peers = ground arith;
  silent = ground arith;
  view = ground arith;
}

-- The same six facts for a change of the other fields only.
pub answers_append-Quiet :
    (peer term : ℕ) (success : Bool) (matched : ℕ) (n : RaftNode)
    → Quiet n (process_append_entries_response peer term success matched n)
unfolding process_append_entries_response record_match back_off
answers_append-Quiet peer term success matched n =
    let resent = send_append_entries-Quiet false (back_off peer n) in
    record {
      same_id = ground (arith, resent.same_id);
      same_peers = ground (arith, resent.same_peers);
      silent = ground (arith, resent.silent);
      view = ground (arith, resent.view);
    }

pub reset_election_timer-Quiet : (env : Env) (n : RaftNode) → Quiet n (reset_election_timer env n)
unfolding reset_election_timer
reset_election_timer-Quiet env n = record {
  same_id = refl;
  same_peers = refl;
  silent = refl;
  view = inl (refl, refl, inl (refl, refl));
}

pub restarted-Quiet :
    (env : Env) (log : List LogEntry) (n : RaftNode)
    → vote_events n.events ≡ 0
    → Quiet n (restarted env log n)
unfolding load_persisted_state init
restarted-Quiet env log n e = record {
  same_id = refl;
  same_peers = refl;
  silent = sym e;
  view = inl (refl, refl, inr refl);
}

touched-Quiet : (env : Env) (n : RaftNode) → Quiet n (record n { last_heartbeat = env.now })
touched-Quiet env n = record {
  same_id = refl;
  same_peers = refl;
  silent = refl;
  view = inl (refl, refl, inl (refl, refl));
}

pub heartbeat-Quiet : (env : Env) (n : RaftNode) → Quiet n (heartbeat env n)
unfolding heartbeat
heartbeat-Quiet env n = elim (Bool-cases (leb 50 (env.now - n.last_heartbeat))) [
  | inl t ↦ rw t (
      Quiet-trans (touched-Quiet env n)
        (send_append_entries-Quiet true (record n { last_heartbeat = env.now })))
  | inr f ↦ rw f (Quiet-refl n)
]

pub advance_commit_index-Quiet : (n : RaftNode) → Quiet n (advance_commit_index n)
unfolding advance_commit_index
advance_commit_index-Quiet n = record {
  same_id = ground arith;
  same_peers = ground arith;
  silent = ground arith;
  view = inl (ground arith, ground arith, inl (ground arith, ground arith));
}
