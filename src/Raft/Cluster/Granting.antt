-- ===== src/Raft/Cluster/Granting.antt =====
-- A node of a cluster grants a vote.
use learn_git.Storage.Memory.{from}
use learn_git.Raft.Cluster.Quietly.{packets-Silent, count-removed, emptied, count-sent}
use learn_git.Raft.Cluster.Ballots.{Granted}
use native.Mathlib.Decide.{dec_le}
use learn_git.Raft.Types.{
  RaftNode, follower, RequestVoteRequest, RequestVoteResponse, request_vote, request_vote_resp,
}
use learn_git.Base.{
  List, ℕ, ◌≡◌, inr, ◌⊎◌, ◌==◌, ◌∷◌, ◌&&◌, arith, ◌<◌, ◌∙◌, ◌+◌, ◌≤◌, refl, subst, Bool-cases, inl,
  ◌++◌, [], ap,
}
use learn_git.Raft.Cluster.System.{Packet, Cluster, act, answer_to, packets}
use learn_git.Raft.Cluster.Counts.{
  count, one_if, Vote, by_voter, exactly, asks, grants, foreign, vote_events, voter_known,
}
use learn_git.Raft.Cluster.Invariant.{Inv, updated}

-- What a grant of term `t` by `p` to `c` does to node `j`.
abbrev pub GrantAt : ℕ → ℕ → ℕ → ℕ → RaftNode → RaftNode → Type 0
GrantAt p c t j a b =
    (b.node_id ≡ a.node_id)
    × (b.peer_ids ≡ a.peer_ids)
    × (((j ≡ p)
          × (b.current_term ≡ t)
          × (b.voted_for ≡ c)
          × (((a.current_term ≡ t)
                × ((a.voted_for ≡ 0) ⊎ (a.voted_for ≡ c))
                × (b.state ≡ a.state)
                × (b.votes_received ≡ a.votes_received))
              ⊎ ((a.current_term < t) × (b.state ≡ follower))))
        ⊎ ((b.current_term ≡ a.current_term)
            × (b.voted_for ≡ a.voted_for)
            × (b.state ≡ a.state)
            × (b.votes_received ≡ a.votes_received)))

pub GrantAt-refl : (p c t j : ℕ) (n : RaftNode) → GrantAt p c t j n n
GrantAt-refl p c t j n = (refl, refl, inr (refl, refl, refl, refl))

-- The network loses a request and gets a grant.
pub record NetGrants (p c t : ℕ) (net' net : List Packet) : Type 0 where
  pub less_asks :
      (q d u : ℕ)
      → count (asks q d u) net
        ≡ one_if ((p == q) && ((c == d) && (t == u))) + count (asks q d u) net'
  pub more_grants :
      (d u : ℕ) → count (grants d u) net' ≡ one_if ((c == d) && (t == u)) + count (grants d u) net
  pub fewer_foreign : count foreign net' ≤ count foreign net

-- No vote of the term has been cast by the voter.
voter_free :
    (ids : List ℕ) (s s' : Cluster) (cast : List Vote) (p c t : ℕ)
    → GrantAt p c t p (s.nodes p) (s'.nodes p)
    → (s'.nodes p).voted_for ≡ c
    → (s'.nodes p).current_term ≡ t
    → count (exactly p c t) cast ≡ 0
    → Inv ids s cast
    → count (by_voter p t) cast ≡ 0
voter_free ids s s' cast p c t g voted_now term_now fresh v =
    elim (dec_le 1 (count (by_voter p t) cast)) [
      | yes h ↦
          let k = voter_known p t cast h in
          let old = v.voted p k.0 t k.1 in
          let same : k.0 ≡ c = ground (arith, old, g) in
          let some_vote = subst (λ d. 0 < count (exactly p d t) cast) same k.1 in
          absurd (omega arith)
      | no h ↦ omega arith
    ]

pub granted_at :
    (ids : List ℕ) (s s' : Cluster) (cast : List Vote) (p c t : ℕ)
    → ((j : ℕ) → GrantAt p c t j (s.nodes j) (s'.nodes j))
    → (s'.nodes p).voted_for ≡ c
    → (s'.nodes p).current_term ≡ t
    → ((j : ℕ) → vote_events (s'.nodes j).events ≡ 0)
    → NetGrants p c t s'.net s.net
    → Inv ids s cast
    → Inv ids s' (record { voter = p; candidate = c; term = t } ∷ cast)
granted_at ids s s' cast p c t g voted_now term_now quiet net v =
    let here : 0 < count (asks p c t) s.net = ground (arith, net.less_asks p c t) in
    let asked_now = v.asked p c t here in
    let fresh : count (exactly p c t) cast ≡ 0 = omega (arith, v.asked_once p c t) in
    let free = voter_free ids s s' cast p c t (g p) voted_now term_now fresh v in
    let free_at = λ (q u : ℕ) (e : p ≡ q) (k : t ≡ u).
      subst (λ x. count (by_voter x u) cast ≡ 0) e
        (subst (λ y. count (by_voter p y) cast ≡ 0) k free) in
    record {
      same_id = λ i. (g i).0 ∙ v.same_id i;
      same_peers = λ i. (g i).1 ∙ v.same_peers i;
      silent = quiet;
      voted = λ q d u h. elim (Bool-cases ((p == q) && ((c == d) && (t == u)))) [
        | inl e ↦ ground (arith, asked_now, g q, g d, g c, voted_now, term_now)
        | inr f ↦ ground (arith, v.voted q d u (ground arith), g q, g d, voted_now, term_now)
      ];
      once = λ q u. elim (Bool-cases ((p == q) && (t == u))) [
        | inl e ↦ ground (arith, free_at q u (ground arith) (ground arith))
        | inr f ↦ ground (arith, v.once q u)
      ];
      own = omega (arith, v.own, net.fewer_foreign);
      asked = λ q d u h. ground (arith, v.asked q d u (omega (arith, net.less_asks q d u)), g d);
      asked_once = λ q d u. omega (arith, v.asked_once q d u, net.less_asks q d u);
      granted = λ d u. omega (arith, v.granted d u, net.more_grants d u);
      tallied = λ d u h e. ground (arith, v.tallied d u, net.more_grants d u, g d);
      elected = λ d u h e. ground (arith, v.elected d u, g d);
    }

pub grants-Inv :
    (ids : List ℕ) (s : Cluster) (cast : List Vote) (from to : ℕ) (req : RequestVoteRequest)
    (resp : RequestVoteResponse) (m : RaftNode) (before after : List Packet)
    → let p : Packet = record { from = from; to = to; message = request_vote req } in
      s.net ≡ before ++ p ∷ after
      → Granted req (s.nodes to) m resp
      → Inv ids s cast
      → Inv ids
          (act to m (answer_to p (request_vote_resp resp)) (record s { net = before ++ after }))
          (record { voter = to; candidate = from; term = req.term } ∷ cast)
grants-Inv ids s cast from to req resp m before after e k v =
    let p : Packet = record { from = from; to = to; message = request_vote req } in
    let answer = answer_to p (request_vote_resp resp) in
    let sent = packets-Silent to m.events (k.silent ∙ v.silent to) in
    let mine : req.candidate_id ≡ from =
      ground (arith, v.own, count-removed foreign before after p e) in
    let s' = act to m answer (record s { net = before ++ after }) in
    let asked_before : (q d u : ℕ)
        → one_if (asks q d u p) ≡ one_if ((to == q) && ((from == d) && (req.term == u))) =
      λ q d u. refl in
    let reply : Packet = record { from = to; to = from; message = request_vote_resp resp } in
    let no_ask : (q d u : ℕ) → one_if (asks q d u reply) ≡ 0 = λ q d u. ground arith in
    let no_grant : (d u : ℕ) → one_if (grants d u p) ≡ 0 = λ d u. ground arith in
    let given : (d u : ℕ) → one_if (grants d u reply) ≡ one_if ((from == d) && (req.term == u)) =
      λ d u. rw (k.yes, k.term_said) (ground arith) in
    let here : s'.nodes to ≡ record m { events = [] } = ground arith in
    granted_at ids s s' cast to from req.term
      (updated (GrantAt to from req.term) s.nodes to (record m { events = [] })
        (
          k.same_id,
          k.same_peers,
          inl (
            refl,
            k.term_now,
            k.vote_now ∙ mine,
            subst
                (λ c.
                  ((s.nodes to).current_term ≡ req.term
                    × (((s.nodes to).voted_for ≡ 0) ⊎ ((s.nodes to).voted_for ≡ c))
                    × (m.state ≡ (s.nodes to).state)
                    × (m.votes_received ≡ (s.nodes to).votes_received))
                  ⊎ ((s.nodes to).current_term < req.term × (m.state ≡ follower)))
                mine k.before,
          ),
        )
        (GrantAt-refl to from req.term))
      (ap (λ n. n.voted_for) here ∙ k.vote_now ∙ mine) (ap (λ n. n.current_term) here ∙ k.term_now)
      (emptied s.nodes to m v.silent)
      (record {
        less_asks = λ q d u. omega (
          arith,
          asked_before q d u,
          no_ask q d u,
          count-removed (asks q d u) before after p e,
          count-sent (asks q d u) answer (packets to m.events) (before ++ after),
          sent.no_asks q d u,
        );
        more_grants = λ d u. omega (
          arith,
          given d u,
          no_grant d u,
          count-removed (grants d u) before after p e,
          count-sent (grants d u) answer (packets to m.events) (before ++ after),
          sent.no_grants d u,
        );
        fewer_foreign = omega (
          arith,
          count-removed foreign before after p e,
          count-sent foreign answer (packets to m.events) (before ++ after),
          sent.no_foreign,
        );
      })
      v
