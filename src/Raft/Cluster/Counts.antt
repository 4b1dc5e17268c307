-- ===== src/Raft/Cluster/Counts.antt =====
-- Counting: the elements of a list that pass a test, the votes that were cast, and the messages that
-- carry votes.
use learn_git.Base.{
  ℕ, ◌+◌, ◌≤◌, ◌≡◌, List, [], ◌∷◌, ◌++◌, Bool, false, if◌then◌else◌, arith, ◌==◌, ◌&&◌, not, ◌<◌,
  Bool-cases, inl, inr,
}
use learn_git.Raft.Types.{
  RaftMessage, request_vote, request_vote_resp, Event, sent, persisted, applied,
}
use learn_git.Raft.Cluster.System.{Packet, packets}

abbrev pub one_if : Bool → ℕ
one_if b = if b then 1 else 0

module _ {ℓ} {A : Type ℓ} where
  abbrev pub count : (A → Bool) → List A → ℕ
  count f [] = 0
  count f (x ∷ xs) = one_if (f x) + count f xs

  pub count-append : (f : A → Bool) (xs ys : List A) → count f (xs ++ ys) ≡ count f xs + count f ys
  count-append f [] ys = omega arith
  count-append f (x ∷ xs) ys = omega (arith, count-append f xs ys)

  pub count_le :
      (f g : A → Bool) (xs : List A)
      → ((x : A) → one_if (f x) ≤ one_if (g x))
      → count f xs ≤ count g xs
  count_le f g [] h = omega arith
  count_le f g (x ∷ xs) h = omega (arith, h x, count_le f g xs h)

-- A vote that a node has cast, for itself or another.
pub record Vote : Type 0 where
  pub voter : ℕ
  pub candidate : ℕ
  pub term : ℕ

abbrev pub by_voter : ℕ → ℕ → Vote → Bool
by_voter p t v = (v.voter == p) && (v.term == t)

abbrev pub for_candidate : ℕ → ℕ → Vote → Bool
for_candidate c t v = (v.candidate == c) && (v.term == t)

abbrev pub exactly : ℕ → ℕ → ℕ → Vote → Bool
exactly p c t v = (v.voter == p) && for_candidate c t v

abbrev pub at_term : ℕ → Vote → Bool
at_term t v = v.term == t

abbrev pub is_request : ℕ → RaftMessage → Bool
is_request t (request_vote req) = req.term == t
is_request t _ = false

abbrev pub is_grant : ℕ → RaftMessage → Bool
is_grant t (request_vote_resp resp) = (resp.term == t) && resp.vote_granted
is_grant t _ = false

abbrev pub is_foreign : ℕ → RaftMessage → Bool
is_foreign from (request_vote req) = not (req.candidate_id == from)
is_foreign from _ = false

-- A request of `c` to `p` for a vote of term `t`.
abbrev pub asks : ℕ → ℕ → ℕ → Packet → Bool
asks p c t m = (m.to == p) && ((m.from == c) && is_request t m.message)

-- An answer that grants `c` a vote of term `t`.
abbrev pub grants : ℕ → ℕ → Packet → Bool
grants c t m = (m.to == c) && is_grant t m.message

-- A request on behalf of another node.
abbrev pub foreign : Packet → Bool
foreign m = is_foreign m.from m.message

-- The requests and answers about votes among the events of a node.
abbrev pub about_votes : RaftMessage → ℕ
about_votes (request_vote req) = 1
about_votes (request_vote_resp resp) = 1
about_votes _ = 0

abbrev pub vote_events : List Event → ℕ
vote_events [] = 0
vote_events (persisted p ∷ es) = vote_events es
vote_events (applied index cmd ∷ es) = vote_events es
vote_events (sent peer msg ∷ es) = about_votes msg + vote_events es

-- A node that sends nothing about votes adds nothing to the counts.
pub packets-silent :
    (i : ℕ) (es : List Event) (f : Packet → Bool)
    → ((m : Packet) → one_if (f m) ≤ about_votes m.message)
    → count f (packets i es) ≤ vote_events es
unfolding packets
packets-silent i [] f h = omega arith
packets-silent i (persisted p ∷ es) f h = packets-silent i es f h
packets-silent i (applied index cmd ∷ es) f h = packets-silent i es f h
packets-silent i (sent peer msg ∷ es) f h =
    omega (arith, h (record { from = i; to = peer; message = msg }), packets-silent i es f h)

pub asks-about : (p c t : ℕ) (m : Packet) → one_if (asks p c t m) ≤ about_votes m.message
asks-about p c t m = ground arith

pub grants-about : (c t : ℕ) (m : Packet) → one_if (grants c t m) ≤ about_votes m.message
grants-about c t m = ground arith

pub foreign-about : (m : Packet) → one_if (foreign m) ≤ about_votes m.message
foreign-about m = ground arith

-- A vote by a voter is one for some candidate.
pub voter_known :
    (p t : ℕ) (cast : List Vote)
    → 0 < count (by_voter p t) cast
    → (c : ℕ) × (0 < count (exactly p c t) cast)
voter_known p t [] h = absurd (omega arith)
voter_known p t (v ∷ cast) h = elim (Bool-cases (by_voter p t v)) [
  | inl e ↦ (v.candidate, ground arith)
  | inr f ↦ let rest = voter_known p t cast (ground arith) in (rest.0, omega (arith, rest.1))
]

-- A vote for a candidate is one by some voter.
pub candidate_known :
    (c t : ℕ) (cast : List Vote)
    → 0 < count (for_candidate c t) cast
    → (p : ℕ) × (0 < count (exactly p c t) cast)
candidate_known c t [] h = absurd (omega arith)
candidate_known c t (v ∷ cast) h = elim (Bool-cases (for_candidate c t v)) [
  | inl e ↦ (v.voter, ground arith)
  | inr f ↦ let rest = candidate_known c t cast (ground arith) in (rest.0, omega (arith, rest.1))
]
