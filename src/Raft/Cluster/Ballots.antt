-- ===== src/Raft/Cluster/Ballots.antt =====
-- What the operations of raft_node.cpp that ask for votes, grant and count them do.
use learn_git.Raft.Replica.{tick, heartbeat, advance_commit_index}
use learn_git.Base.{
  ℕ, ◌≡◌, suc, false, ◌⊎◌, Bool, ◌∷◌, ◌<◌, ◌+◌, Bool-cases, ◌≤◌, inl, u64, inr, refl, arith,
  if◌then◌else◌, true, ltb, leb, ltb→lt, not, leb→le, ◌==◌, ◌||◌, ◌-◌, subst, sym,
}
use learn_git.Raft.Cluster.Effects.{
  Quiet, observe_term-Quiet, Quiet-trans, heartbeat-Quiet, become_follower-Quiet,
  send_append_entries-Quiet, advance_commit_index-Quiet, apply_entries-Quiet, Quiet-refl,
}
use learn_git.Raft.Cluster.Counts.{vote_events, one_if}
use learn_git.Raft.Types.{
  RequestVoteRequest, RequestVoteResponse, RaftNode, Env, follower, candidate, leader, persisted,
  request_vote, Persistent, is_candidate, is_leader, State,
}
use learn_git.Raft.Node.{
  handle_request_vote, decide_vote, may_grant, observe_term, become_follower, persist,
  process_request_vote_response, count_vote, become_leader, become_candidate, start_election,
  send_each, vote_request, majority,
}

-- A vote is granted: the term is the request's, and the vote the candidate's.
pub record Granted (req : RequestVoteRequest) (n m : RaftNode) (resp : RequestVoteResponse)
    : Type 0 where
  pub same_id : m.node_id ≡ n.node_id
  pub same_peers : m.peer_ids ≡ n.peer_ids
  pub silent : vote_events m.events ≡ vote_events n.events
  pub term_now : m.current_term ≡ req.term
  pub yes : resp.vote_granted ≡ true
  pub term_said : resp.term ≡ req.term
  pub vote_now : m.voted_for ≡ req.candidate_id
  pub before :
      ((n.current_term ≡ req.term)
        × ((n.voted_for ≡ 0) ⊎ (n.voted_for ≡ req.candidate_id))
        × (m.state ≡ n.state)
        × (m.votes_received ≡ n.votes_received))
      ⊎ ((n.current_term < req.term) × (m.state ≡ follower))

may_grant-view :
    (env : Env) (req : RequestVoteRequest) (n : RaftNode)
    → may_grant req (observe_term env req.term n) ≡ true
    → let m = observe_term env req.term n in
      (m.current_term ≡ req.term)
      × (((n.current_term ≡ req.term)
            × ((n.voted_for ≡ 0) ⊎ (n.voted_for ≡ req.candidate_id))
            × (m.state ≡ n.state)
            × (m.votes_received ≡ n.votes_received))
          ⊎ ((n.current_term < req.term) × (m.state ≡ follower)))
unfolding may_grant observe_term become_follower persist
may_grant-view env req n t = ground arith

pub handle_request_vote_lem :
    (env : Env) (req : RequestVoteRequest) (n : RaftNode)
    → let done = handle_request_vote env req n in
      (Quiet n done.0 × (done.1.vote_granted ≡ false)) ⊎ Granted req n done.0 done.1
unfolding handle_request_vote decide_vote persist
handle_request_vote_lem env req n =
    elim (Bool-cases (may_grant req (observe_term env req.term n))) [
      | inl t ↦ rw t (
          inr (record {
            same_id = (observe_term-Quiet env req.term n).same_id;
            same_peers = (observe_term-Quiet env req.term n).same_peers;
            silent = (observe_term-Quiet env req.term n).silent;
            term_now = (may_grant-view env req n t).0;
            yes = refl;
            term_said = (may_grant-view env req n t).0;
            vote_now = refl;
            before = (may_grant-view env req n t).1;
          }))
      | inr f ↦ rw f (inl (observe_term-Quiet env req.term n, refl))
    ]

-- A vote is counted, which may make a leader.
pub record Counted (term : ℕ) (granted : Bool) (n m : RaftNode) : Type 0 where
  pub was_candidate : n.state ≡ candidate
  pub of_term : term ≡ n.current_term
  pub same_id : m.node_id ≡ n.node_id
  pub same_peers : m.peer_ids ≡ n.peer_ids
  pub silent : vote_events m.events ≡ vote_events n.events
  pub same_term : m.current_term ≡ n.current_term
  pub same_vote : m.voted_for ≡ n.voted_for
  pub votes : m.votes_received ≡ n.votes_received + one_if granted
  pub role : (m.state ≡ candidate) ⊎ ((m.state ≡ leader) × (majority n ≤ m.votes_received))

candidates : (state : State) → is_candidate state ≡ true → state ≡ candidate
candidates follower h = cc
candidates candidate h = refl
candidates leader h = cc

count_vote_lem :
    (env : Env) (granted : Bool) (n : RaftNode)
    → n.state ≡ candidate
    → Counted n.current_term granted n (count_vote env granted n)
unfolding count_vote become_leader
count_vote_lem env granted n c =
    let votes = if granted then n.votes_received + 1 else n.votes_received in
    let sum : votes ≡ n.votes_received + one_if granted = ground arith in
    elim (Bool-cases (leb (majority n) votes)) [
      | inl t ↦ rw t (record {
        was_candidate = c;
        of_term = refl;
        same_id = refl;
        same_peers = refl;
        silent = (send_append_entries-Quiet true _).silent;
        same_term = refl;
        same_vote = refl;
        votes = sum;
        role = inr (refl, leb→le (majority n) votes t);
      })
      | inr f ↦ rw f (record {
        was_candidate = c;
        of_term = refl;
        same_id = refl;
        same_peers = refl;
        silent = refl;
        same_term = refl;
        same_vote = refl;
        votes = sum;
        role = inl c;
      })
    ]

pub answers_vote_lem :
    (env : Env) (peer term : ℕ) (granted : Bool) (n : RaftNode)
    → let m = process_request_vote_response env peer term granted n in
      Quiet n m ⊎ Counted term granted n m
unfolding process_request_vote_response
answers_vote_lem env peer term granted n = elim (Bool-cases (ltb n.current_term term)) [
  | inl t ↦ rw t (inl (become_follower-Quiet env term n (ltb→lt n.current_term term t)))
  | inr f ↦ elim (Bool-cases (not (term == n.current_term) || not (is_candidate n.state))) [
    | inl t ↦ rw (f, t) (inl (Quiet-refl n))
    | inr g ↦
        let now : term ≡ n.current_term = ground arith in
        let c : n.state ≡ candidate = candidates n.state (ground arith) in
        rw (f, g)
          (inr (
            subst (λ t. Counted t granted n (count_vote env granted n)) (sym now)
              (count_vote_lem env granted n c)))
  ]
]

-- An election is started.
pub record Elects (n m : RaftNode) : Type 0 where
  pub request : RequestVoteRequest
  pub on_disk : Persistent
  pub was_no_leader : is_leader n.state ≡ false
  pub same_id : m.node_id ≡ n.node_id
  pub same_peers : m.peer_ids ≡ n.peer_ids
  pub next_term : m.current_term ≡ suc n.current_term
  pub own_vote : m.voted_for ≡ n.node_id
  pub role : m.state ≡ candidate
  pub one_vote : m.votes_received ≡ 1
  pub of_term : request.term ≡ suc n.current_term
  pub for_itself : request.candidate_id ≡ n.node_id
  pub asked :
      m.events ≡ send_each (λ _. request_vote request) n.peer_ids (persisted on_disk ∷ n.events)

become_candidate_lem :
    (env : Env) (n : RaftNode)
    → is_leader n.state ≡ false
    → suc n.current_term < u64
    → Elects n (become_candidate env n)
unfolding become_candidate start_election persist vote_request
become_candidate_lem env n f fit = record {
  request = vote_request (become_candidate env n);
  on_disk = _;
  was_no_leader = f;
  same_id = refl;
  same_peers = refl;
  next_term = omega arith;
  own_vote = refl;
  role = refl;
  one_vote = refl;
  of_term = omega arith;
  for_itself = refl;
  asked = refl;
}

pub tick_lem :
    (env : Env) (n : RaftNode)
    → suc n.current_term < u64
    → Quiet n (tick env n) ⊎ Elects n (tick env n)
unfolding tick
tick_lem env n fit = elim (Bool-cases (is_leader n.state)) [
  | inl t ↦ rw t (
      inl (
        Quiet-trans (heartbeat-Quiet env n) (
          Quiet-trans (advance_commit_index-Quiet (heartbeat env n))
            (apply_entries-Quiet (advance_commit_index (heartbeat env n))))))
  | inr f ↦ elim (Bool-cases (leb n.election_timeout_ms (env.now - n.last_heartbeat))) [
    | inl t ↦ rw (f, t) (inr (become_candidate_lem env n f fit))
    | inr g ↦ rw (f, g) (inl (Quiet-refl n))
  ]
]
