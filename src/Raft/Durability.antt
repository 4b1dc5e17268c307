-- ===== src/Raft/Durability.antt =====
-- What the persist callback has been given, compared with the node's state, through the operations
-- of Raft/Node (raft_node.cpp: every method that changes currentTerm_, votedFor_ or log_ calls
-- persist()).
use learn_git.Base.{
  ℕ, ◌+◌, ◌≡◌, refl, ◌∙◌, List, [], ◌∷◌, Bool, arith, if◌then◌else◌, Bytes, Bool-cases, inl, inr,
  true, false, ◌⊎◌, sub64, drop, not, ◌&&◌, leb,
}
use learn_git.Raft.Types.{
  RequestVoteRequest, RaftMessage, request_vote, append_entries, Persistent, Event, persisted,
  applied, sent, RaftNode, Env, is_leader,
}
use learn_git.Raft.Log.{get_log_entry, last_log_index, last_log_term}
use learn_git.Raft.Node.{
  empty_log, persistent, persist, become_follower, append_request, send_each, vote_request,
  send_append_entries, become_candidate, become_leader, propose, observe_term, decide_vote,
  handle_request_vote, count_vote, process_request_vote_response, record_match, back_off,
  process_append_entries_response,
}

-- The newest state given to the persist callback; a node that never called it has an empty disk.
abbrev pub stored : List Event → Persistent
stored [] = record { current_term = 0; voted_for = 0; log = empty_log }
stored (persisted p ∷ es) = p
stored (applied i c ∷ es) = stored es
stored (sent p m ∷ es) = stored es

-- The message is what the stored state entitles the node to send.
abbrev pub Backed : Persistent → RaftMessage → Type 0
Backed p (request_vote r) =
    (r.term ≡ p.current_term)
    × (r.candidate_id ≡ p.voted_for)
    × (r.last_log_index ≡ last_log_index p.log)
    × (r.last_log_term ≡ last_log_term p.log)
Backed p (append_entries r) =
    (r.term ≡ p.current_term)
    × (r.prev_log_term ≡ (get_log_entry p.log r.prev_log_index).term)
    × ((r.entries ≡ [])
        ⊎ ((next : ℕ) × (r.prev_log_index ≡ sub64 next 1) × (r.entries ≡ drop next p.log)))
Backed p _ = Unit {0}

-- Every message was backed by what was stored when it was sent.
abbrev pub AllBacked : List Event → Type 0
AllBacked [] = Unit {0}
AllBacked (persisted p ∷ es) = AllBacked es
AllBacked (applied i c ∷ es) = AllBacked es
AllBacked (sent p m ∷ es) = Backed (stored es) m × AllBacked es

-- The disk holds the node's term, vote and log, and no message ran ahead of the disk.
pub record IsDurable (n : RaftNode) : Type 0 where
  pub on_disk : stored n.events ≡ persistent n
  pub backed : AllBacked n.events

stored-send_each :
    (msg : ℕ → RaftMessage) (ps : List ℕ) (es : List Event)
    → stored (send_each msg ps es) ≡ stored es
unfolding send_each
stored-send_each msg [] es = refl
stored-send_each msg (p ∷ ps) es = stored-send_each msg ps (sent p (msg p) ∷ es)

send_each-AllBacked :
    (s : Persistent) (msg : ℕ → RaftMessage) (ps : List ℕ) (es : List Event)
    → stored es ≡ s
    → ((p : ℕ) → Backed s (msg p))
    → AllBacked es
    → AllBacked (send_each msg ps es)
unfolding send_each
send_each-AllBacked s msg [] es e h b = b
send_each-AllBacked s msg (p ∷ ps) es e h b =
    send_each-AllBacked s msg ps (sent p (msg p) ∷ es) e h (rw e (h p), b)

-- A message has no entries, or all of the log from the peer's next position on.
append_request-entries :
    (hb : Bool) (n : RaftNode) (p : ℕ)
    → let r = append_request hb n p in
      (r.entries ≡ [])
      ⊎ ((next : ℕ) × (r.prev_log_index ≡ sub64 next 1) × (r.entries ≡ drop next n.log))
unfolding append_request
append_request-entries hb n p =
    elim (Bool-cases (not hb && leb (n.next_index p) (last_log_index n.log))) [
      | inl t ↦ rw t (inr (n.next_index p, refl, refl))
      | inr f ↦ rw f (inl refl)
    ]

pub send_append_entries-IsDurable :
    (hb : Bool) (n : RaftNode) → IsDurable n → IsDurable (send_append_entries hb n)
unfolding send_append_entries append_request
send_append_entries-IsDurable hb n d = record {
  on_disk = stored-send_each _ n.peer_ids n.events ∙ d.on_disk;
  backed =
      send_each-AllBacked (persistent n) _ n.peer_ids n.events d.on_disk
        (λ p. (refl, refl, append_request-entries hb n p)) d.backed;
}

pub persist-IsDurable : (n : RaftNode) → AllBacked n.events → IsDurable (persist n)
unfolding persist
persist-IsDurable n b = record { on_disk = refl; backed = b }

become_follower-IsDurable :
    (env : Env) (t : ℕ) (n : RaftNode) → IsDurable n → IsDurable (become_follower env t n)
unfolding become_follower
become_follower-IsDurable env t n d = record { on_disk = refl; backed = d.backed }

pub observe_term-IsDurable :
    (env : Env) (t : ℕ) (n : RaftNode) → IsDurable n → IsDurable (observe_term env t n)
unfolding observe_term
observe_term-IsDurable env t n d = grind (arith, become_follower-IsDurable)

pub become_candidate-IsDurable :
    (env : Env) (n : RaftNode) → IsDurable n → IsDurable (become_candidate env n)
unfolding become_candidate vote_request
become_candidate-IsDurable env n d = record {
  on_disk = stored-send_each _ n.peer_ids _;
  backed = send_each-AllBacked _ _ n.peer_ids _ refl (λ p. (refl, refl, refl, refl)) d.backed;
}

-- Progress counters, roles and timers are not on disk.
become_leader-IsDurable : (env : Env) (n : RaftNode) → IsDurable n → IsDurable (become_leader env n)
unfolding become_leader
become_leader-IsDurable env n d =
    send_append_entries-IsDurable true _ (record { on_disk = d.on_disk; backed = d.backed })

pub propose-IsDurable : (c : Bytes) (n : RaftNode) → IsDurable n → IsDurable (propose c n).0
unfolding propose
propose-IsDurable c n d = elim (Bool-cases (is_leader n.state)) [
  | inl e ↦
      rw (e, propose)
        (send_append_entries-IsDurable false _ (record { on_disk = refl; backed = d.backed }))
  | inr e ↦ rw (e, propose) d
]

pub handle_request_vote-IsDurable :
    (env : Env) (req : RequestVoteRequest) (n : RaftNode)
    → IsDurable n
    → IsDurable (handle_request_vote env req n).0
unfolding handle_request_vote decide_vote
handle_request_vote-IsDurable env req n d =
    let seen = observe_term-IsDurable env req.term n d in ground (arith, seen.on_disk, seen.backed)

count_vote-IsDurable :
    (env : Env) (granted : Bool) (n : RaftNode) → IsDurable n → IsDurable (count_vote env granted n)
unfolding count_vote
count_vote-IsDurable env granted n d =
    let votes : ℕ = if granted then n.votes_received + 1 else n.votes_received in
    ground (
      arith,
      become_leader-IsDurable env (record n { votes_received = votes })
          (record { on_disk = d.on_disk; backed = d.backed }),
    )

pub answers_vote-IsDurable :
    (env : Env) (peer term : ℕ) (granted : Bool) (n : RaftNode)
    → IsDurable n
    → IsDurable (process_request_vote_response env peer term granted n)
unfolding process_request_vote_response
answers_vote-IsDurable env peer term granted n d =
    ground (arith, become_follower-IsDurable env term n d, count_vote-IsDurable env granted n d)

record_match-IsDurable :
    (peer matched : ℕ) (n : RaftNode) → IsDurable n → IsDurable (record_match peer matched n)
unfolding record_match
record_match-IsDurable peer matched n d = ground (arith, d.on_disk, d.backed)

back_off-IsDurable : (peer : ℕ) (n : RaftNode) → IsDurable n → IsDurable (back_off peer n)
unfolding back_off
back_off-IsDurable peer n d = ground (arith, d.on_disk, d.backed)

pub answers_append-IsDurable :
    (peer term : ℕ) (success : Bool) (matched : ℕ) (n : RaftNode)
    → IsDurable n
    → IsDurable (process_append_entries_response peer term success matched n)
unfolding process_append_entries_response
answers_append-IsDurable peer term success matched n d = ground (
  arith,
  record_match-IsDurable peer matched n d,
  send_append_entries-IsDurable false (back_off peer n) (back_off-IsDurable peer n d),
)
