-- ===== src/Raft/Cluster/Electing.antt =====
-- A node of a cluster starts an election: it votes for itself, and asks its peers.
use learn_git.Raft.Cluster.Requests.{Distinct, requests-count, asks-count, count_none}
use learn_git.Raft.Cluster.Quietly.{packets-Silent, emptied}
use learn_git.Raft.Cluster.Ballots.{Elects}
use learn_git.Raft.Node.{send_each}
use learn_git.Raft.Cluster.Counts.{
  count, Vote, asks, one_if, vote_events, exactly, grants, by_voter, voter_known, foreign,
  count-append,
}
use learn_git.Base.{
  ℕ, List, ◌≡◌, inr, true, ◌==◌, suc, ◌<◌, ◌≤◌, ◌⊎◌, refl, ◌∷◌, ◌&&◌, not, arith, ◌+◌, subst, ◌∙◌,
  Bool-cases, inl, [], Bool, ap,
}
use native.Mathlib.Decide.{dec_le}
use learn_git.Raft.Cluster.Invariant.{Inv, updated}
use learn_git.Raft.Types.{RaftNode, candidate, request_vote, persisted}
use learn_git.Raft.Cluster.System.{Packet, Cluster, act, packets, peers_of, member}

-- What an election of `i` does to node `j`.
abbrev pub ElectAt : ℕ → ℕ → RaftNode → RaftNode → Type 0
ElectAt i j a b =
    (b.node_id ≡ a.node_id)
    × (b.peer_ids ≡ a.peer_ids)
    × (((j ≡ i)
          × (b.current_term ≡ suc a.current_term)
          × (b.voted_for ≡ i)
          × (b.state ≡ candidate)
          × (b.votes_received ≡ 1))
        ⊎ ((b.current_term ≡ a.current_term)
            × (b.voted_for ≡ a.voted_for)
            × (b.state ≡ a.state)
            × (b.votes_received ≡ a.votes_received)))

pub ElectAt-refl : (i j : ℕ) (n : RaftNode) → ElectAt i j n n
ElectAt-refl i j n = (refl, refl, inr (refl, refl, refl, refl))

-- The network gets a request of `i` to each of the other nodes.
pub record NetElects (i t : ℕ) (ids : List ℕ) (net' net : List Packet) : Type 0 where
  pub more_asks :
      (q d u : ℕ)
      → count (asks q d u) net'
        ≤ one_if ((member q ids && not (q == i)) && ((i == d) && (t == u))) + count (asks q d u) net
  pub same_grants : (d u : ℕ) → count (grants d u) net' ≡ count (grants d u) net
  pub same_foreign : count foreign net' ≡ count foreign net

pub elected_at :
    (ids : List ℕ) (s s' : Cluster) (cast : List Vote) (i t : ℕ)
    → member i ids ≡ true
    → 0 < i
    → t ≡ suc (s.nodes i).current_term
    → ((j : ℕ) → ElectAt i j (s.nodes j) (s'.nodes j))
    → (s'.nodes i).voted_for ≡ i
    → (s'.nodes i).current_term ≡ t
    → ((j : ℕ) → vote_events (s'.nodes j).events ≡ 0)
    → NetElects i t ids s'.net s.net
    → Inv ids s cast
    → Inv ids s' (record { voter = i; candidate = i; term = t } ∷ cast)
elected_at ids s s' cast i t here some_id next g vote term_now quiet net v =
    let no_asks : (q : ℕ) → count (asks q i t) s.net ≡ 0 = λ q.
      elim (dec_le 1 (count (asks q i t) s.net)) [
        | yes h ↦ absurd (omega (arith, (v.asked q i t h).2))
        | no h ↦ omega arith
      ] in
    let no_vote : (q : ℕ) → count (exactly q i t) cast ≡ 0 = λ q.
      elim (dec_le 1 (count (exactly q i t) cast)) [
        | yes h ↦ absurd (omega (arith, (v.voted q i t h).4))
        | no h ↦ omega arith
      ] in
    let no_by : count (by_voter i t) cast ≡ 0 = elim (dec_le 1 (count (by_voter i t) cast)) [
      | yes h ↦ let k = voter_known i t cast h in absurd (omega (arith, (v.voted i k.0 t k.1).2))
      | no h ↦ omega arith
    ] in
    let no_by_at = λ (q u : ℕ) (e : i ≡ q) (k : t ≡ u).
      subst (λ x. count (by_voter x u) cast ≡ 0) e
        (subst (λ y. count (by_voter i y) cast ≡ 0) k no_by) in
    let none_at = λ (q d u : ℕ) (e : i ≡ d) (k : t ≡ u).
      subst (λ x. count (asks q x u) s.net + count (exactly q x u) cast ≡ 0) e
        (subst (λ y. count (asks q i y) s.net + count (exactly q i y) cast ≡ 0) k
          (omega (arith, no_asks q, no_vote q))) in
    record {
      same_id = λ j. (g j).0 ∙ v.same_id j;
      same_peers = λ j. (g j).1 ∙ v.same_peers j;
      silent = quiet;
      voted = λ q d u h. elim (Bool-cases ((i == q) && ((i == d) && (t == u)))) [
        | inl e ↦ ground (arith, here, some_id, g q, g d, vote, term_now)
        | inr f ↦ ground (arith, v.voted q d u (ground arith), g q, g d, vote, term_now)
      ];
      once = λ q u. elim (Bool-cases ((i == q) && (t == u))) [
        | inl e ↦ ground (arith, no_by_at q u (ground arith) (ground arith))
        | inr f ↦ ground (arith, v.once q u)
      ];
      own = omega (arith, v.own, net.same_foreign);
      asked = λ q d u h.
          elim (Bool-cases ((member q ids && not (q == i)) && ((i == d) && (t == u)))) [
            | inl e ↦ ground (arith, some_id, g d, term_now)
            | inr f ↦ ground (arith, v.asked q d u (ground (arith, net.more_asks q d u)), g d)
          ];
      asked_once = λ q d u. elim (Bool-cases ((i == d) && (t == u))) [
        | inl e ↦ ground (arith, none_at q d u (ground arith) (ground arith), net.more_asks q d u)
        | inr f ↦ ground (arith, v.asked_once q d u, net.more_asks q d u)
      ];
      granted = λ d u. omega (arith, v.granted d u, net.same_grants d u);
      tallied = λ d u h e. ground (arith, v.tallied d u, v.granted d u, net.same_grants d u, g d);
      elected = λ d u h e. ground (arith, v.elected d u, g d);
    }

pub Elects-Inv :
    (ids : List ℕ) (s : Cluster) (cast : List Vote) (i : ℕ) (m : RaftNode)
    → Distinct ids
    → member i ids ≡ true
    → 0 < i
    → Elects (s.nodes i) m
    → Inv ids s cast
    → Inv ids
        (act i m [] s)
        (record { voter = i; candidate = i; term = suc (s.nodes i).current_term } ∷ cast)
unfolding packets
Elects-Inv ids s cast i m distinct here some_id k v =
    let t = suc (s.nodes i).current_term in
    let s' = act i m [] s in
    let now : s'.nodes i ≡ record m { events = [] } = ground arith in
    let mine : k.request.candidate_id ≡ i = k.for_itself ∙ v.same_id i in
    let counted : (f : Packet → Bool)
        → count f (packets i m.events)
          ≡ count (λ p. f (record { from = i; to = p; message = request_vote k.request }))
              (peers_of i ids)
            + count f (packets i (s.nodes i).events) =
      λ f.
        ap (λ es. count f (packets i es)) k.asked
        ∙ ap
            (λ ps. count f (
              packets i (
                send_each (λ _. request_vote k.request) ps
                  (persisted k.on_disk ∷ (s.nodes i).events))))
            (v.same_peers i)
        ∙ requests-count f i (request_vote k.request) (peers_of i ids)
            (persisted k.on_disk ∷ (s.nodes i).events) in
    let quiet = packets-Silent i (s.nodes i).events (v.silent i) in
    elected_at ids s s' cast i t here some_id refl
      (updated (ElectAt i) s.nodes i (record m { events = [] })
        (
          k.same_id,
          k.same_peers,
          inl (refl, k.next_term, k.own_vote ∙ v.same_id i, k.role, k.one_vote),
        )
        (ElectAt-refl i))
      (ap (λ n. n.voted_for) now ∙ k.own_vote ∙ v.same_id i)
      (ap (λ n. n.current_term) now ∙ k.next_term) (emptied s.nodes i m v.silent)
      (record {
        more_asks = λ q d u. omega (
          arith,
          count-append (asks q d u) (packets i m.events) s.net,
          counted (asks q d u),
          quiet.no_asks q d u,
          asks-count i q d u k.request ids distinct (subst (λ x. x ≡ t) refl k.of_term),
        );
        same_grants = λ d u. omega (
          arith,
          count-append (grants d u) (packets i m.events) s.net,
          counted (grants d u),
          quiet.no_grants d u,
          count_none
              (λ p. grants d u (record { from = i; to = p; message = request_vote k.request }))
              (peers_of i ids) (λ p. ground arith),
        );
        same_foreign = omega (
          arith,
          count-append foreign (packets i m.events) s.net,
          counted foreign,
          quiet.no_foreign,
          count_none (λ p. foreign (record { from = i; to = p; message = request_vote k.request }))
              (peers_of i ids) (λ p. ground (arith, mine)),
        );
      })
      v
