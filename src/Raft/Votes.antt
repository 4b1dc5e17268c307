-- ===== src/Raft/Votes.antt =====
-- One vote per term: RequestVote handling in raft_node.cpp across any sequence of operations.
use learn_git.Base.{
  ℕ, suc, ◌≤◌, ◌<◌, ◌≡◌, ◌≢◌, refl, ◌⊎◌, ◌↔◌, inr, List, [], ◌∷◌, Bool, true, arith, u64,
}
use learn_git.Raft.Types.{RequestVoteRequest, AppendEntriesRequest, RaftNode, Env}
use learn_git.Raft.Log.{last_log_index, last_log_term}
use learn_git.Raft.Node.{
  become_follower, send_append_entries, become_candidate, become_leader, propose, observe_term,
  up_to_date, may_grant, decide_vote, handle_request_vote, count_vote,
  process_request_vote_response, record_match, back_off, process_append_entries_response,
}
use learn_git.Raft.Replica.{
  apply_entries, follow_commit, append_success, check_append, follow_leader, handle_append_entries,
  advance_commit_index, heartbeat, tick, reset_election_timer, Input, proposes, asks_vote,
  answers_vote, appends, answers_append, ticks, reconnects, step, run,
}

-- The term grows, or it stays and a vote that was cast stays too.
abbrev pub VoteLe : RaftNode → RaftNode → Type 0
VoteLe n m =
    (n.current_term < m.current_term)
    ⊎ ((n.current_term ≡ m.current_term) × ((n.voted_for ≡ 0) ⊎ (n.voted_for ≡ m.voted_for)))

VoteLe-refl : (n : RaftNode) → VoteLe n n
VoteLe-refl n = inr (refl, inr refl)

VoteLe-trans : (a b c : RaftNode) → VoteLe a b → VoteLe b c → VoteLe a c
VoteLe-trans a b c h k = ground arith

-- The two fields are as they were.
abbrev SameVote : RaftNode → RaftNode → Type 0
SameVote n m = (n.current_term ≡ m.current_term) × (n.voted_for ≡ m.voted_for)

observe_term-VoteLe : (env : Env) (t : ℕ) (n : RaftNode) → VoteLe n (observe_term env t n)
unfolding observe_term become_follower
observe_term-VoteLe env t n = ground arith

send_append_entries-SameVote : (hb : Bool) (n : RaftNode) → SameVote n (send_append_entries hb n)
unfolding send_append_entries
send_append_entries-SameVote hb n = (refl, refl)

propose-SameVote : (c : List ℕ) (n : RaftNode) → SameVote n (propose c n).0
unfolding propose
propose-SameVote c n = ground arith

handle_request_vote-VoteLe :
    (env : Env) (req : RequestVoteRequest) (n : RaftNode)
    → VoteLe n (handle_request_vote env req n).0
unfolding handle_request_vote decide_vote may_grant
handle_request_vote-VoteLe env req n = ground (arith, observe_term-VoteLe env req.term n)

answers_vote-VoteLe :
    (env : Env) (peer term : ℕ) (granted : Bool) (n : RaftNode)
    → VoteLe n (process_request_vote_response env peer term granted n)
unfolding process_request_vote_response become_follower count_vote become_leader
answers_vote-VoteLe env peer term granted n = ground arith

answers_append-SameVote :
    (peer term : ℕ) (success : Bool) (matched : ℕ) (n : RaftNode)
    → SameVote n (process_append_entries_response peer term success matched n)
unfolding process_append_entries_response record_match back_off send_append_entries
answers_append-SameVote peer term success matched n = ground arith

apply_entries-SameVote : (n : RaftNode) → SameVote n (apply_entries n)
unfolding apply_entries
apply_entries-SameVote n = (refl, refl)

check_append-SameVote :
    (req : AppendEntriesRequest) (n : RaftNode) → SameVote n (check_append req n).0
unfolding check_append append_success apply_entries follow_commit
check_append-SameVote req n = ground arith

handle_append_entries-VoteLe :
    (env : Env) (req : AppendEntriesRequest) (n : RaftNode)
    → VoteLe n (handle_append_entries env req n).0
unfolding handle_append_entries follow_leader
handle_append_entries-VoteLe env req n = ground (
  arith,
  check_append-SameVote req (follow_leader env req n),
  observe_term-VoteLe env req.term (record n { last_heartbeat = env.now }),
)

tick-VoteLe : (env : Env) (n : RaftNode) → suc n.current_term < u64 → VoteLe n (tick env n)
unfolding tick become_candidate advance_commit_index heartbeat apply_entries send_append_entries
tick-VoteLe env n h = ground arith

-- No operation loses a vote within a term, and no term goes down, while the term stays below 2^64.
pub step-VoteLe : (n : RaftNode) (i : Env × Input) → suc n.current_term < u64 → VoteLe n (step n i)
unfolding step reset_election_timer
step-VoteLe n (env, proposes c) h = ground (arith, propose-SameVote c n)
step-VoteLe n (env, asks_vote req) h = handle_request_vote-VoteLe env req n
step-VoteLe n (env, answers_vote peer term granted) h = answers_vote-VoteLe env peer term granted n
step-VoteLe n (env, appends req) h = handle_append_entries-VoteLe env req n
step-VoteLe n (env, answers_append peer term success matched) h =
    ground (arith, answers_append-SameVote peer term success matched n)
step-VoteLe n (env, ticks) h = tick-VoteLe env n h
step-VoteLe n (env, reconnects) h = VoteLe-refl n

-- The term stays below 2^64 - 1 along the run.
abbrev pub TermsFit : RaftNode → List (Env × Input) → Type 0
TermsFit n [] = Unit {0}
TermsFit n (i ∷ is) = (suc n.current_term < u64) × TermsFit (step n i) is

pub run-VoteLe : (n : RaftNode) (is : List (Env × Input)) → TermsFit n is → VoteLe n (run n is)
unfolding run
run-VoteLe n [] h = VoteLe-refl n
run-VoteLe n (i ∷ is) h =
    VoteLe-trans n (step n i) (run (step n i) is) (step-VoteLe n i h.0)
      (run-VoteLe (step n i) is h.1)

-- A vote is granted exactly when the request's term is not behind, no other candidate has this
-- node's vote for that term, and the candidate's log is at least as up to date.
pub handle_request_vote-grants :
    (env : Env) (req : RequestVoteRequest) (n : RaftNode)
    → ((handle_request_vote env req n).1.vote_granted ≡ true) ↔ (
        (n.current_term ≤ req.term)
        × ((n.current_term < req.term) ⊎ ((n.voted_for ≡ 0) ⊎ (n.voted_for ≡ req.candidate_id)))
        × ((last_log_term n.log < req.last_log_term)
            ⊎ ((req.last_log_term ≡ last_log_term n.log)
                × (last_log_index n.log ≤ req.last_log_index))))
unfolding handle_request_vote decide_vote may_grant up_to_date observe_term become_follower
handle_request_vote-grants env req n = (λ h. ground arith, λ h. ground arith)

-- After a grant the node's term is the one answered, and its vote is the candidate's.
granted_vote :
    (env : Env) (req : RequestVoteRequest) (n : RaftNode)
    → (handle_request_vote env req n).1.vote_granted ≡ true
    → ((handle_request_vote env req n).0.voted_for ≡ req.candidate_id)
      × ((handle_request_vote env req n).0.current_term ≡ (handle_request_vote env req n).1.term)
unfolding handle_request_vote decide_vote
granted_vote env req n h = ground arith

-- A node that has voted in its term grants no other candidate a vote of that term.
vote_taken :
    (env : Env) (req : RequestVoteRequest) (n : RaftNode)
    → (handle_request_vote env req n).1.vote_granted ≡ true
    → (handle_request_vote env req n).1.term ≡ n.current_term
    → n.voted_for ≢ 0
    → n.voted_for ≡ req.candidate_id
unfolding handle_request_vote decide_vote may_grant observe_term become_follower
vote_taken env req n h e v = ground arith

response_term-le :
    (env : Env) (req : RequestVoteRequest) (n : RaftNode)
    → n.current_term ≤ (handle_request_vote env req n).1.term
unfolding handle_request_vote decide_vote observe_term become_follower
response_term-le env req n = ground arith

-- Two votes that a node grants in one term, whatever inputs it gets in between, go to one candidate.
-- The first candidate's number is not 0, and the term does not pass 2^64 - 1 in between.
pub one_vote_per_term :
    (n : RaftNode) (env env' : Env) (req req' : RequestVoteRequest) (is : List (Env × Input))
    → req.candidate_id ≢ 0
    → TermsFit (handle_request_vote env req n).0 is
    → (handle_request_vote env req n).1.vote_granted ≡ true
    → (handle_request_vote env' req' (run (handle_request_vote env req n).0 is)).1.vote_granted
      ≡ true
    → (handle_request_vote env req n).1.term
      ≡ (handle_request_vote env' req' (run (handle_request_vote env req n).0 is)).1.term
    → req.candidate_id ≡ req'.candidate_id
one_vote_per_term n env env' req req' is nz fit g g' e =
    let m = run (handle_request_vote env req n).0 is in
    ground (
      arith,
      granted_vote env req n g,
      run-VoteLe (handle_request_vote env req n).0 is fit,
      response_term-le env' req' m,
      vote_taken env' req' m g',
    )
