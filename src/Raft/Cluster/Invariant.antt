-- ===== src/Raft/Cluster/Invariant.antt =====
-- The invariant of a cluster, relative to the votes that its nodes have cast so far, and the steps in
-- which no vote is cast or counted.
use learn_git.Base.{
  ℕ, List, ◌∙◌, ◌≡◌, ◌≤◌, update, Bool-cases, arith, ◌<◌, true, ◌==◌, ◌+◌, inl, subst, ==_iff, inr,
  length, ◌/◌,
}
use learn_git.Raft.Cluster.System.{Packet, Cluster, peers_of, member}
use learn_git.Raft.Cluster.Counts.{
  count, Vote, by_voter, for_candidate, exactly, asks, grants, foreign, vote_events,
}
use learn_git.Raft.Cluster.Effects.{Quiet}
use learn_git.Raft.Types.{RaftNode, candidate, leader}

-- The votes that a leader needs, its own included.
abbrev pub quorum : ℕ → List ℕ → ℕ
quorum c ids = (length (peers_of c ids) + 1) / 2 + 1

pub record Inv (ids : List ℕ) (s : Cluster) (cast : List Vote) : Type 0 where
  pub same_id : (i : ℕ) → (s.nodes i).node_id ≡ i
  pub same_peers : (i : ℕ) → (s.nodes i).peer_ids ≡ peers_of i ids
  pub silent : (i : ℕ) → vote_events (s.nodes i).events ≡ 0
  -- A vote is one of a known node for a candidate, and its node remembers it.
  pub voted :
      (p c t : ℕ)
      → 0 < count (exactly p c t) cast
      → (member p ids ≡ true)
        × (0 < c)
        × (t ≤ (s.nodes p).current_term)
        × (t ≡ (s.nodes p).current_term → (s.nodes p).voted_for ≡ c)
        × (t ≤ (s.nodes c).current_term)
  pub once : (p t : ℕ) → count (by_voter p t) cast ≤ 1
  pub own : count foreign s.net ≡ 0
  pub asked :
      (p c t : ℕ)
      → 0 < count (asks p c t) s.net
      → (member p ids ≡ true) × (0 < c) × (t ≤ (s.nodes c).current_term)
  pub asked_once : (p c t : ℕ) → count (asks p c t) s.net + count (exactly p c t) cast ≤ 1
  pub granted : (c t : ℕ) → count (grants c t) s.net ≤ count (for_candidate c t) cast
  pub tallied :
      (c t : ℕ)
      → (s.nodes c).state ≡ candidate
      → (s.nodes c).current_term ≡ t
      → (s.nodes c).votes_received + count (grants c t) s.net ≤ count (for_candidate c t) cast
  pub elected :
      (c t : ℕ)
      → (s.nodes c).state ≡ leader
      → (s.nodes c).current_term ≡ t
      → quorum c ids ≤ count (for_candidate c t) cast

-- What holds of each node and its successor when one node is replaced.
pub updated :
    (P : ℕ → RaftNode → RaftNode → Type 0) (f : ℕ → RaftNode) (i : ℕ) (m : RaftNode)
    → P i (f i) m
    → ((j : ℕ) (n : RaftNode) → P j n n)
    → (j : ℕ) → P j (f j) (update f i m j)
updated P f i m h same j = elim (Bool-cases (i == j)) [
  | inl t ↦ rw t (subst (λ k. P k (f k) m) ((==_iff i j).0 t) h)
  | inr g ↦ rw g (same j (f j))
]

-- The network has no more messages about votes than before.
pub record NetLe (net' net : List Packet) : Type 0 where
  pub fewer_asks : (p c t : ℕ) → count (asks p c t) net' ≤ count (asks p c t) net
  pub fewer_grants : (c t : ℕ) → count (grants c t) net' ≤ count (grants c t) net
  pub fewer_foreign : count foreign net' ≤ count foreign net

-- The nodes do nothing about votes.
pub quietly :
    (ids : List ℕ) (s s' : Cluster) (cast : List Vote)
    → ((j : ℕ) → Quiet (s.nodes j) (s'.nodes j))
    → NetLe s'.net s.net
    → Inv ids s cast
    → Inv ids s' cast
quietly ids s s' cast q le v = record {
  same_id = λ i. (q i).same_id ∙ v.same_id i;
  same_peers = λ i. (q i).same_peers ∙ v.same_peers i;
  silent = λ i. (q i).silent ∙ v.silent i;
  voted = λ p c t h. ground (arith, v.voted p c t h, (q p).view, (q c).view);
  once = v.once;
  own = omega (arith, v.own, le.fewer_foreign);
  asked = λ p c t h. ground (arith, v.asked p c t (omega (arith, le.fewer_asks p c t)), (q c).view);
  asked_once = λ p c t. omega (arith, v.asked_once p c t, le.fewer_asks p c t);
  granted = λ c t. omega (arith, v.granted c t, le.fewer_grants c t);
  tallied = λ c t h e. ground (arith, v.tallied c t, le.fewer_grants c t, (q c).view);
  elected = λ c t h e. ground (arith, v.elected c t, (q c).view);
}
