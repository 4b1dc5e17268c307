-- ===== src/Raft/Cluster/Counting.antt =====
-- A candidate of a cluster counts an answer to its request for a vote.
use learn_git.Raft.Cluster.Quietly.{
  packets-Silent, NetLe-Silent, none-Silent, NetLe-removed, emptied, count-removed, count-sent,
}
use learn_git.Raft.Cluster.Ballots.{Counted}
use learn_git.Raft.Cluster.Invariant.{Inv, NetLe, quorum, updated}
use learn_git.Raft.Cluster.Counts.{Vote, vote_events, one_if, count, grants}
use learn_git.Raft.Node.{majority}
use learn_git.Base.{
  List, ℕ, ◌≡◌, Bool, ◌++◌, ◌+◌, inr, ◌∷◌, ◌⊎◌, ◌∙◌, refl, ◌≤◌, arith, [], update, inl, sym,
}
use learn_git.Raft.Types.{RaftNode, candidate, leader, request_vote_resp, RequestVoteResponse}
use learn_git.Raft.Cluster.System.{Packet, Cluster, act, peers_of, packets}

-- What a counted answer of term `t` does to node `j`.
abbrev CountAt : ℕ → ℕ → Bool → ℕ → RaftNode → RaftNode → Type 0
CountAt i t won j a b =
    (b.node_id ≡ a.node_id)
    × (b.peer_ids ≡ a.peer_ids)
    × (b.current_term ≡ a.current_term)
    × (b.voted_for ≡ a.voted_for)
    × (((j ≡ i)
          × (a.current_term ≡ t)
          × (a.state ≡ candidate)
          × (b.votes_received ≡ a.votes_received + one_if won)
          × ((b.state ≡ candidate) ⊎ ((b.state ≡ leader) × (majority a ≤ b.votes_received))))
        ⊎ ((b.state ≡ a.state) × (b.votes_received ≡ a.votes_received)))

CountAt-refl : (i t : ℕ) (won : Bool) (j : ℕ) (n : RaftNode) → CountAt i t won j n n
CountAt-refl i t won j n = (refl, refl, refl, refl, inr (refl, refl))

-- The network loses an answer.
record NetCounts (i t : ℕ) (won : Bool) (net' net : List Packet) : Type 0 where
  less : NetLe net' net
  used : count (grants i t) net ≡ one_if won + count (grants i t) net'

quorum-majority :
    (i : ℕ) (ids : List ℕ) (n : RaftNode) → n.peer_ids ≡ peers_of i ids → quorum i ids ≡ majority n
quorum-majority i ids n e = rw e refl

counted_at :
    (ids : List ℕ) (s s' : Cluster) (cast : List Vote) (i t : ℕ) (won : Bool)
    → ((j : ℕ) → CountAt i t won j (s.nodes j) (s'.nodes j))
    → ((j : ℕ) → vote_events (s'.nodes j).events ≡ 0)
    → NetCounts i t won s'.net s.net
    → Inv ids s cast
    → Inv ids s' cast
counted_at ids s s' cast i t won g quiet net v =
    let le = net.less in
    let needed = quorum-majority i ids (s.nodes i) (v.same_peers i) in
    record {
      same_id = λ j. (g j).0 ∙ v.same_id j;
      same_peers = λ j. (g j).1 ∙ v.same_peers j;
      silent = quiet;
      voted = λ p c u h. ground (arith, v.voted p c u h, g p, g c);
      once = v.once;
      own = omega (arith, v.own, le.fewer_foreign);
      asked = λ p c u h. ground (arith, v.asked p c u (omega (arith, le.fewer_asks p c u)), g c);
      asked_once = λ p c u. omega (arith, v.asked_once p c u, le.fewer_asks p c u);
      granted = λ c u. omega (arith, v.granted c u, le.fewer_grants c u);
      tallied = λ c u h e. ground (arith, v.tallied c u, le.fewer_grants c u, net.used, g c);
      elected = λ c u h e. ground (arith, v.elected c u, v.tallied c u, net.used, needed, g c);
    }

pub counts-Inv :
    (ids : List ℕ) (s : Cluster) (cast : List Vote) (from to : ℕ) (resp : RequestVoteResponse)
    (m : RaftNode) (before after : List Packet)
    → s.net ≡ before ++ (record { from = from; to = to; message = request_vote_resp resp }) ∷ after
    → Counted resp.term resp.vote_granted (s.nodes to) m
    → Inv ids s cast
    → Inv ids (act to m [] (record s { net = before ++ after })) cast
counts-Inv ids s cast from to resp m before after e k v =
    let p : Packet = record { from = from; to = to; message = request_vote_resp resp } in
    let seen : one_if (grants to resp.term p) ≡ one_if resp.vote_granted = ground arith in
    let sent = packets-Silent to m.events (k.silent ∙ v.silent to) in
    let at : (j : ℕ)
        → CountAt to resp.term resp.vote_granted j (s.nodes j)
            (update s.nodes to (record m { events = [] }) j) =
      updated (CountAt to resp.term resp.vote_granted) s.nodes to (record m { events = [] })
        (
          k.same_id,
          k.same_peers,
          k.same_term,
          k.same_vote,
          inl (refl, sym k.of_term, k.was_candidate, k.votes, k.role),
        )
        (CountAt-refl to resp.term resp.vote_granted) in
    let quiet =
      updated (λ _ _ n. vote_events n.events ≡ 0) s.nodes to (record m { events = [] }) refl in
    let le =
      NetLe-Silent [] (packets to m.events) (before ++ after) s.net none-Silent sent
        (NetLe-removed before after p e) in
    counted_at ids s (act to m [] (record s { net = before ++ after })) cast to resp.term
      resp.vote_granted at (emptied s.nodes to m v.silent)
      (record {
        less = le;
        used = omega (
          arith,
          seen,
          count-removed (grants to resp.term) before after p e,
          count-sent (grants to resp.term) [] (packets to m.events) (before ++ after),
          sent.no_grants to resp.term,
        );
      })
      v
