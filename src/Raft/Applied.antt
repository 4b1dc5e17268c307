-- ===== src/Raft/Applied.antt =====
-- Which entries a node of raft_node.cpp has applied, and the operations that leave that as it is.
use learn_git.Raft.Types.{RequestVoteRequest}
use learn_git.Base.{
  ℕ, List, ◌≡◌, ◌∙◌, Bool, [], ◌∷◌, ap, ◌≤◌, Bool-cases, arith, refl, sym, suc, false, zero, inl,
  if◌then◌else◌, inr, ◌+◌,
}
use learn_git.Raft.Node.{
  become_leader, observe_term, become_candidate, process_request_vote_response, handle_request_vote,
  propose, send_append_entries, send_each, process_append_entries_response, become_follower,
  decide_vote, record_match, back_off, count_vote,
}
use learn_git.Raft.Types.{RaftNode, Env, Event, RaftMessage, persisted, sent, is_leader, applied}

-- The positions given to the apply callback, newest first.
abbrev pub positions : List Event → List ℕ
positions [] = []
positions (persisted p ∷ es) = positions es
positions (applied i c ∷ es) = i ∷ positions es
positions (sent p m ∷ es) = positions es

-- k, k - 1, ..., 1.
abbrev pub down_from : ℕ → List ℕ
down_from zero = []
down_from (suc k) = suc k ∷ down_from k

-- Positions 1 to `last_applied` were applied, each once and in order, and nothing that is known to
-- be committed waits.
pub record IsApplied (n : RaftNode) : Type 0 where
  pub in_order : positions n.events ≡ down_from n.last_applied
  pub settled : n.commit_index ≤ n.last_applied

pub positions-send_each :
    (msg : ℕ → RaftMessage) (ps : List ℕ) (es : List Event)
    → positions (send_each msg ps es) ≡ positions es
unfolding send_each
positions-send_each msg [] es = refl
positions-send_each msg (p ∷ ps) es = positions-send_each msg ps (sent p (msg p) ∷ es)

-- Nothing that the property speaks of has changed.
pub record SameApplied (n m : RaftNode) : Type 0 where
  pub calls : positions m.events ≡ positions n.events
  pub last : m.last_applied ≡ n.last_applied
  pub commit : m.commit_index ≡ n.commit_index

pub SameApplied-keeps : {n m : RaftNode} → SameApplied n m → IsApplied n → IsApplied m
SameApplied-keeps s v = record {
  in_order = s.calls ∙ v.in_order ∙ ap down_from (sym s.last);
  settled = omega arith;
}

pub send_append_entries-SameApplied :
    (hb : Bool) (n : RaftNode) → SameApplied n (send_append_entries hb n)
unfolding send_append_entries
send_append_entries-SameApplied hb n = record {
  calls = positions-send_each _ n.peer_ids n.events;
  last = refl;
  commit = refl;
}

pub propose-SameApplied : (c : List ℕ) (n : RaftNode) → SameApplied n (propose c n).0
unfolding propose
propose-SameApplied c n = elim (Bool-cases (is_leader n.state)) [
  | inl e ↦
      rw (e, propose)
        (record { calls = positions-send_each _ n.peer_ids _; last = refl; commit = refl })
  | inr e ↦ rw (e, propose) (record { calls = refl; last = refl; commit = refl })
]

pub observe_term-SameApplied :
    (env : Env) (t : ℕ) (n : RaftNode) → SameApplied n (observe_term env t n)
unfolding observe_term become_follower
observe_term-SameApplied env t n = ground arith

pub handle_request_vote-SameApplied :
    (env : Env) (req : RequestVoteRequest) (n : RaftNode)
    → SameApplied n (handle_request_vote env req n).0
unfolding handle_request_vote decide_vote
handle_request_vote-SameApplied env req n = ground (arith, observe_term-SameApplied env req.term n)

pub become_leader-SameApplied : (env : Env) (n : RaftNode) → SameApplied n (become_leader env n)
unfolding become_leader
become_leader-SameApplied env n = record {
  calls = positions-send_each _ n.peer_ids n.events;
  last = refl;
  commit = refl;
}

pub become_candidate-SameApplied :
    (env : Env) (n : RaftNode) → SameApplied n (become_candidate env n)
unfolding become_candidate
become_candidate-SameApplied env n = record {
  calls = positions-send_each _ n.peer_ids _;
  last = refl;
  commit = refl;
}

pub answers_vote-SameApplied :
    (env : Env) (peer term : ℕ) (granted : Bool) (n : RaftNode)
    → SameApplied n (process_request_vote_response env peer term granted n)
unfolding process_request_vote_response become_follower count_vote
answers_vote-SameApplied env peer term granted n =
    let votes : ℕ = if granted then n.votes_received + 1 else n.votes_received in
    ground (arith, become_leader-SameApplied env (record n { votes_received = votes }))

pub answers_append-SameApplied :
    (peer term : ℕ) (success : Bool) (matched : ℕ) (n : RaftNode)
    → SameApplied n (process_append_entries_response peer term success matched n)
unfolding process_append_entries_response record_match back_off
answers_append-SameApplied peer term success matched n =
    ground (arith, send_append_entries-SameApplied false (back_off peer n))
