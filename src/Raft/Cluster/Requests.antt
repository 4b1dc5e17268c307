-- ===== src/Raft/Cluster/Requests.antt =====
-- The requests for votes that a candidate sends to the other nodes (start_election of raft_node.cpp).
use learn_git.Raft.Cluster.System.{Packet}
use learn_git.Raft.Cluster.Counts.{count, asks, one_if, count_le}
use learn_git.Raft.Node.{send_each}
use learn_git.Raft.Cluster.System.{peers_of, packets, member}
use learn_git.Base.{
  Bool, ℕ, List, ◌<◌, ◌≡◌, false, ◌==◌, ◌∷◌, ◌≤◌, true, arith, ◌&&◌, Bool-cases, not, [], inl, ◌*◌,
  refl, inr, ◌+◌,
}
use learn_git.Raft.Types.{RequestVoteRequest, request_vote, Event, sent, RaftMessage}

-- No id occurs twice.
abbrev pub Distinct : List ℕ → Type 0
Distinct ids = (p : ℕ) → count (λ j. j == p) ids ≤ 1

pub requests-count :
    (f : Packet → Bool) (i : ℕ) (msg : RaftMessage) (ps : List ℕ) (es : List Event)
    → count f (packets i (send_each (λ _. msg) ps es))
      ≡ count (λ p. f (record { from = i; to = p; message = msg })) ps + count f (packets i es)
unfolding send_each packets
requests-count f i msg [] es = omega arith
requests-count f i msg (p ∷ ps) es = omega (arith, requests-count f i msg ps (sent p msg ∷ es))

pub count_none {ℓ} :
    {A : Type ℓ} → (f : A → Bool) (xs : List A) → ((x : A) → f x ≡ false) → count f xs ≡ 0
count_none f [] h = refl
count_none f (x ∷ xs) h = ground (arith, h x, count_none f xs h)

-- A node is a peer of the others only.
peers-count :
    (i q : ℕ) (ids : List ℕ)
    → count (λ j. j == q) (peers_of i ids) ≤ one_if (not (q == i)) * count (λ j. j == q) ids
unfolding peers_of
peers-count i q [] = omega arith
peers-count i q (j ∷ js) = ground (arith, peers-count i q js)

member-count : (q : ℕ) (ids : List ℕ) → 0 < count (λ j. j == q) ids → member q ids ≡ true
member-count q [] h = absurd (omega arith)
member-count q (j ∷ js) h = elim (Bool-cases (j == q)) [
  | inl t ↦ rw t refl
  | inr f ↦ rw f (member-count q js (ground arith))
]

peers-member :
    (i q : ℕ) (ids : List ℕ)
    → Distinct ids
    → count (λ j. j == q) (peers_of i ids) ≤ one_if (member q ids && not (q == i))
peers-member i q ids d = ground (arith, peers-count i q ids, member-count q ids, d q)

-- The requests of a candidate to one node.
pub asks-count :
    (i q d u : ℕ) (req : RequestVoteRequest) (ids : List ℕ)
    → Distinct ids
    → {t : ℕ} → req.term ≡ t
    → count
        (λ p. asks q d u (record { from = i; to = p; message = request_vote req }))
        (peers_of i ids)
      ≤ one_if ((member q ids && not (q == i)) && ((i == d) && (t == u)))
asks-count i q d u req ids distinct {t} e =
    let one = peers-member i q ids distinct in
    elim (Bool-cases ((i == d) && (req.term == u))) [
      | inl y ↦ ground (
        arith,
        one,
        e,
        count_le (λ p. asks q d u (record { from = i; to = p; message = request_vote req }))
            (λ p. p == q) (peers_of i ids) (λ p. ground arith),
      )
      | inr f ↦ omega (
        arith,
        count_none (λ p. asks q d u (record { from = i; to = p; message = request_vote req }))
            (peers_of i ids) (λ p. ground arith),
      )
    ]
