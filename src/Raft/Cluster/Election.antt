-- ===== src/Raft/Cluster/Election.antt =====
-- Raft's election safety, for the nodes of raft_node.cpp.
use learn_git.Raft.Cluster.Steps.{Reach-Inv, Run-Inv}
use native.Mathlib.Decide.{ℕ_discrete}
use learn_git.Raft.Cluster.Counts.{Vote, count, one_if, by_voter, exactly, for_candidate, at_term}
use learn_git.Raft.Cluster.Requests.{Distinct}
use learn_git.Base.{
  List, ℕ, length, [], ◌∷◌, ◌+◌, ◌≢◌, ◌<◌, ◌≡◌, ◌≤◌, ◌==◌, false, arith, ◌&&◌, true, refl,
}
use learn_git.Raft.Types.{leader}
use learn_git.Raft.Cluster.System.{Cluster, member, peers_of, Reach, Run}

-- The votes of a term, voter by voter.
abbrev ballots : ℕ → List Vote → List ℕ → ℕ
ballots t cast [] = 0
ballots t cast (p ∷ ps) = count (by_voter p t) cast + ballots t cast ps

ballots-none : (t : ℕ) (ps : List ℕ) → ballots t [] ps ≡ 0
ballots-none t [] = refl
ballots-none t (p ∷ ps) = omega (arith, ballots-none t ps)

ballots-more :
    (t : ℕ) (v : Vote) (cast : List Vote) (ps : List ℕ)
    → ballots t cast ps + one_if (member v.voter ps && at_term t v) ≤ ballots t (v ∷ cast) ps
ballots-more t v cast [] = omega arith
ballots-more t v cast (p ∷ ps) = ground (arith, ballots-more t v cast ps)

-- All votes are those of the members.
at_term-ballots :
    (t : ℕ) (cast : List Vote) (ps : List ℕ)
    → ((p c u : ℕ) → 0 < count (exactly p c u) cast → member p ps ≡ true)
    → count (at_term t) cast ≤ ballots t cast ps
at_term-ballots t [] ps h = omega arith
at_term-ballots t (v ∷ cast) ps h =
    let mine : member v.voter ps ≡ true = h v.voter v.candidate v.term (ground arith) in
    let rest = at_term-ballots t cast ps (λ p c u k. h p c u (omega (arith, k))) in
    ground (arith, mine, rest, ballots-more t v cast ps)

ballots_le :
    (t : ℕ) (cast : List Vote) (ps : List ℕ)
    → ((p : ℕ) → count (by_voter p t) cast ≤ 1)
    → ballots t cast ps ≤ length ps
ballots_le t cast [] h = omega arith
ballots_le t cast (p ∷ ps) h = omega (arith, h p, ballots_le t cast ps h)

two_candidates :
    (a b t : ℕ) (cast : List Vote)
    → a ≢ b
    → count (for_candidate a t) cast + count (for_candidate b t) cast ≤ count (at_term t) cast
two_candidates a b t [] h = omega arith
two_candidates a b t (v ∷ cast) h = ground (arith, two_candidates a b t cast h, h)

peers-length :
    (i : ℕ) (ids : List ℕ) → length ids ≤ length (peers_of i ids) + count (λ j. j == i) ids
unfolding peers_of
peers-length i [] = omega arith
peers-length i (j ∷ js) = ground (arith, peers-length i js)

-- A cluster has distinct ids of nodes, none of them 0, and has reached a state in which a node leads
-- at some term. Whatever happens from there on, a node that leads at the same term is the same node.
-- What can happen is that nodes tick while their next term is below 2^64, propose, reset their election
-- timers, answer messages, and crash and restart with their stored term and vote, and that the network
-- loses and reorders messages, without duplicating them.
pub one_leader_per_term :
    (ids : List ℕ) (s s' : Cluster) (i j : ℕ)
    → Distinct ids
    → member 0 ids ≡ false
    → Reach ids s
    → Run ids s s'
    → (s.nodes i).state ≡ leader
    → (s'.nodes j).state ≡ leader
    → (s'.nodes j).current_term ≡ (s.nodes i).current_term
    → i ≡ j
one_leader_per_term ids s s' i j d z reach run li lj same = elim (ℕ_discrete i j) [
  | yes e ↦ e
  | no n ↦
      let t = (s.nodes i).current_term in
      let known = Reach-Inv ids s d z reach in
      let now = Run-Inv ids s s' known.0 d z run known.1 in
      absurd (
        omega (
          arith,
          known.1.elected i t li refl,
          now.kept i t,
          now.holds.elected j t lj same,
          two_candidates i j t now.votes n,
          at_term-ballots t now.votes ids (λ p c u h. (now.holds.voted p c u h).0),
          ballots_le t now.votes ids (λ p. now.holds.once p t),
          peers-length i ids,
          peers-length j ids,
          d i,
          d j,
        ))
]
