-- ===== src/Raft/Indices.antt =====
-- A leader's messages start at a position that exists (nextIndex_ of raft_node.cpp).
use learn_git.Raft.Cluster.System.{member}
use learn_git.Raft.Log.{last_log_index}
use learn_git.Base.{
  ◌+◌, inl, ◌≡◌, List, ◌<◌, ℕ, inr, false, ◌⊎◌, u64, arith, ◌≤◌, ap, Bytes, ◌∷◌, Bool-cases, ◌∙◌,
  Bool, update, [], subst, sym, ltb, not, true, ◌==◌, ◌||◌, ==_iff, if◌then◌else◌, leb, refl,
}
use learn_git.Raft.Node.{
  init, handle_request_vote, process_append_entries_response, become_leader, set_each,
  process_request_vote_response, propose, record_match, become_follower, persist,
  send_append_entries, decide_vote, back_off, observe_term, count_vote, become_candidate,
  start_election, append_request, majority,
}
use learn_git.Raft.Types.{
  RaftNode, Env, is_leader, is_candidate, AppendEntriesRequest, RequestVoteRequest,
}
use learn_git.Raft.Replica.{
  Input, proposes, asks_vote, answers_vote, appends, answers_append, ticks, reconnects, step, run,
  tick, handle_append_entries, heartbeat, advance_commit_index, apply_entries, reset_election_timer,
  check_append, append_success, follow_commit, follow_leader,
}

abbrev AllPositive : List ℕ → (ℕ → ℕ) → Type 0
AllPositive [] f = Unit {0}
AllPositive (p ∷ ps) f = (1 ≤ f p) × AllPositive ps f

-- A node that leads has a next position of one or more for each of its peers.
abbrev pub IsPlaced : RaftNode → Type 0
IsPlaced n = (is_leader n.state ≡ false) ⊎ AllPositive n.peer_ids n.next_index

-- A reported match whose successor is a uint64_t.
abbrev pub Reports : Input → Type 0
Reports (answers_append peer term success matched) = matched + 1 < u64
Reports _ = Unit {0}

abbrev pub AllReport : List (Env × Input) → Type 0
AllReport [] = Unit {0}
AllReport ((env, i) ∷ is) = Reports i × AllReport is

AllPositive-update :
    (ps : List ℕ) (f : ℕ → ℕ) (k v : ℕ) → 1 ≤ v → AllPositive ps f → AllPositive ps (update f k v)
AllPositive-update [] f k v h a = tt
AllPositive-update (p ∷ ps) f k v h (a, more) =
    (ground (arith, a), AllPositive-update ps f k v h more)

set_each-keeps : (ps : List ℕ) (v : ℕ) (f : ℕ → ℕ) (q : ℕ) → 1 ≤ v → 1 ≤ f q → 1 ≤ set_each ps v f q
unfolding set_each
set_each-keeps [] v f q h a = a
set_each-keeps (p ∷ ps) v f q h a = set_each-keeps ps v (update f p v) q h (ground (arith, a))

set_each-AllPositive : (ps : List ℕ) (v : ℕ) (f : ℕ → ℕ) → 1 ≤ v → AllPositive ps (set_each ps v f)
unfolding set_each
set_each-AllPositive [] v f h = tt
set_each-AllPositive (p ∷ ps) v f h = (
  set_each-keeps ps v (update f p v) p h (ground arith),
  set_each-AllPositive ps v (update f p v) h,
)

propose-IsPlaced : (c : Bytes) (n : RaftNode) → IsPlaced n → IsPlaced (propose c n).0
unfolding propose persist send_append_entries
propose-IsPlaced c n (inl f) = rw f (inl f)
propose-IsPlaced c n (inr a) = elim (Bool-cases (is_leader n.state)) [
  | inl t ↦ rw t (inr (AllPositive-update n.peer_ids n.next_index n.node_id _ (omega arith) a))
  | inr f ↦ rw f (inl f)
]

-- An operation that leads to no leader, or leaves role, peers and next positions.
abbrev Idle : RaftNode → RaftNode → Type 0
Idle n m =
    (is_leader m.state ≡ false)
    ⊎ ((m.state ≡ n.state) × (m.peer_ids ≡ n.peer_ids) × (m.next_index ≡ n.next_index))

Idle-IsPlaced : (n m : RaftNode) → Idle n m → IsPlaced n → IsPlaced m
Idle-IsPlaced n m (inl f) p = inl f
Idle-IsPlaced n m (inr (s, ps, x)) (inl f) = inl (ap is_leader s ∙ f)
Idle-IsPlaced n m (inr (s, ps, x)) (inr a) =
    inr (
      subst (λ qs. AllPositive qs m.next_index) (sym ps) (subst (AllPositive n.peer_ids) (sym x) a))

become_leader-IsPlaced : (env : Env) (n : RaftNode) → IsPlaced (become_leader env n)
unfolding become_leader send_append_entries
become_leader-IsPlaced env n = inr (
    AllPositive-update n.peer_ids _ n.node_id _ (omega arith)
      (set_each-AllPositive n.peer_ids (last_log_index n.log + 1) n.next_index (omega arith)))

asks_vote-Idle :
    (env : Env) (req : RequestVoteRequest) (n : RaftNode) → Idle n (handle_request_vote env req n).0
unfolding handle_request_vote decide_vote observe_term become_follower persist
asks_vote-Idle env req n = ground arith

answers_vote-IsPlaced :
    (env : Env) (peer term : ℕ) (granted : Bool) (n : RaftNode)
    → IsPlaced n
    → IsPlaced (process_request_vote_response env peer term granted n)
unfolding process_request_vote_response become_follower persist count_vote
answers_vote-IsPlaced env peer term granted n p = elim (Bool-cases (ltb n.current_term term)) [
  | inl t ↦ rw t (inl refl)
  | inr f ↦ elim (Bool-cases (not (term == n.current_term) || not (is_candidate n.state))) [
    | inl t ↦ rw (f, t) p
    | inr g ↦
        let votes : ℕ = if granted then n.votes_received + 1 else n.votes_received in
        elim (Bool-cases (leb (majority n) votes)) [
          | inl t ↦ rw (f, g, t) (become_leader-IsPlaced env (record n { votes_received = votes }))
          | inr h ↦ rw (f, g, h) p
        ]
  ]
]

answers_append-IsPlaced :
    (peer term : ℕ) (success : Bool) (matched : ℕ) (n : RaftNode)
    → matched + 1 < u64
    → IsPlaced n
    → IsPlaced (process_append_entries_response peer term success matched n)
unfolding process_append_entries_response record_match back_off send_append_entries
answers_append-IsPlaced peer term success matched n fit (inl f) = rw f (inl f)
answers_append-IsPlaced peer term success matched n fit (inr a) =
    let up = AllPositive-update n.peer_ids n.next_index peer in
    elim (Bool-cases (not (is_leader n.state) || not (term == n.current_term))) [
      | inl t ↦ rw t (inr a)
      | inr f ↦ elim (Bool-cases success) [
        | inl t ↦ elim (Bool-cases (ltb (n.match_index peer) matched)) [
          | inl l ↦ rw (f, t, l) (inr (up _ (omega arith) a))
          | inr g ↦ rw (f, t, g) (inr a)
        ]
        | inr g ↦ elim (Bool-cases (ltb 1 (n.next_index peer))) [
          | inl l ↦ rw (f, g, l) (inr (up _ (ground (arith, l)) a))
          | inr h ↦ rw (f, g, h) (inr a)
        ]
      ]
    ]

tick-IsPlaced : (env : Env) (n : RaftNode) → IsPlaced n → IsPlaced (tick env n)
unfolding tick heartbeat send_append_entries advance_commit_index apply_entries become_candidate
    start_election persist
tick-IsPlaced env n p = Idle-IsPlaced n (tick env n) (ground arith) p

handle_append_entries-IsPlaced :
    (env : Env) (req : AppendEntriesRequest) (n : RaftNode)
    → IsPlaced n
    → IsPlaced (handle_append_entries env req n).0
unfolding handle_append_entries check_append append_success follow_commit follow_leader observe_term
    become_follower persist apply_entries
handle_append_entries-IsPlaced env req n p =
    Idle-IsPlaced n (handle_append_entries env req n).0 (ground arith) p

step-IsPlaced :
    (n : RaftNode) (env : Env) (i : Input) → Reports i → IsPlaced n → IsPlaced (step n (env, i))
unfolding step reset_election_timer
step-IsPlaced n env (proposes c) r p = propose-IsPlaced c n p
step-IsPlaced n env (asks_vote req) r p =
    Idle-IsPlaced n (handle_request_vote env req n).0 (asks_vote-Idle env req n) p
step-IsPlaced n env (answers_vote peer term granted) r p =
    answers_vote-IsPlaced env peer term granted n p
step-IsPlaced n env (appends req) r p = handle_append_entries-IsPlaced env req n p
step-IsPlaced n env (answers_append peer term success matched) r p =
    answers_append-IsPlaced peer term success matched n r p
step-IsPlaced n env ticks r p = tick-IsPlaced env n p
step-IsPlaced n env reconnects r p = p

run-IsPlaced :
    (n : RaftNode) (is : List (Env × Input)) → AllReport is → IsPlaced n → IsPlaced (run n is)
unfolding run
run-IsPlaced n [] r p = p
run-IsPlaced n ((env, i) ∷ is) (r, rs) p =
    run-IsPlaced (step n (env, i)) is rs (step-IsPlaced n env i r p)

AllPositive-each :
    (ps : List ℕ) (f : ℕ → ℕ) (q : ℕ) → AllPositive ps f → member q ps ≡ true → 1 ≤ f q
AllPositive-each [] f q a h = cc
AllPositive-each (p ∷ ps) f q (a, more) h = elim (Bool-cases (p == q)) [
  | inl t ↦ subst (λ k. 1 ≤ f k) ((==_iff p q).0 t) a
  | inr g ↦ AllPositive-each ps f q more (ground (arith, h, g))
]

-- After any inputs to a node that has just been constructed, with reported matches below 2^64 - 1, a
-- node that leads has a next position of one or more for each of its peers, so that the position before
-- it, which its AppendEntries message names, is below it: the subtraction does not wrap.
pub run-append_request :
    (env : Env) (node_id : ℕ) (peers : List ℕ) (is : List (Env × Input)) (hb : Bool) (peer : ℕ)
    → AllReport is
    → let n = run (init env node_id peers) is in
      is_leader n.state ≡ true
      → member peer n.peer_ids ≡ true
      → (1 ≤ n.next_index peer) × ((append_request hb n peer).prev_log_index < n.next_index peer)
unfolding append_request
run-append_request env node_id peers is hb peer r leads m =
    let n = run (init env node_id peers) is in
    let start : IsPlaced (init env node_id peers) = unfold init in inl refl in
    let one : 1 ≤ n.next_index peer = elim (run-IsPlaced (init env node_id peers) is r start) [
      | inl f ↦ cc
      | inr a ↦ AllPositive-each n.peer_ids n.next_index peer a m
    ] in
    (one, omega (arith, one))
