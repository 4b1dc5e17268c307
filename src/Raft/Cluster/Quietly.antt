-- ===== src/Raft/Cluster/Quietly.antt =====
-- The steps of a cluster in which no vote is cast or counted keep the invariant.
use learn_git.Raft.Types.{Event, RaftNode}
use learn_git.Base.{Bool, List, [], ℕ, ◌++◌, ◌≡◌, arith, ◌∷◌, refl, ◌+◌, sym, ap, ◌∙◌, update}
use learn_git.Raft.Cluster.System.{Packet, Cluster, packets, act}
use learn_git.Raft.Cluster.Counts.{
  count, count-append, one_if, Vote, asks, grants, foreign, vote_events, packets-silent, asks-about,
  grants-about, foreign-about,
}
use learn_git.Raft.Cluster.Effects.{Quiet, Quiet-refl}
use learn_git.Raft.Cluster.Invariant.{Inv, NetLe, updated, quietly}

-- Packets that say nothing about votes.
pub record Silent (ps : List Packet) : Type 0 where
  pub no_asks : (p c t : ℕ) → count (asks p c t) ps ≡ 0
  pub no_grants : (c t : ℕ) → count (grants c t) ps ≡ 0
  pub no_foreign : count foreign ps ≡ 0

pub none-Silent : Silent []
none-Silent = record { no_asks = λ p c t. refl; no_grants = λ c t. refl; no_foreign = refl }

pub packets-Silent : (i : ℕ) (es : List Event) → vote_events es ≡ 0 → Silent (packets i es)
packets-Silent i es e = record {
  no_asks = λ p c t. omega (arith, packets-silent i es (asks p c t) (asks-about p c t));
  no_grants = λ c t. omega (arith, packets-silent i es (grants c t) (grants-about c t));
  no_foreign = omega (arith, packets-silent i es foreign foreign-about);
}

-- The counts over what a step sends and what is left on the network.
pub count-sent :
    (f : Packet → Bool) (answer events rest : List Packet)
    → count f (answer ++ (events ++ rest)) ≡ count f answer + (count f events + count f rest)
count-sent f answer events rest =
    omega (arith, count-append f answer (events ++ rest), count-append f events rest)

pub NetLe-Silent :
    (answer events rest net : List Packet)
    → Silent answer
    → Silent events
    → NetLe rest net
    → NetLe (answer ++ (events ++ rest)) net
NetLe-Silent answer events rest net a b le = record {
  fewer_asks = λ p c t. omega (
    arith,
    count-sent (asks p c t) answer events rest,
    a.no_asks p c t,
    b.no_asks p c t,
    le.fewer_asks p c t,
  );
  fewer_grants = λ c t. omega (
    arith,
    count-sent (grants c t) answer events rest,
    a.no_grants c t,
    b.no_grants c t,
    le.fewer_grants c t,
  );
  fewer_foreign =
      omega (
        arith,
        count-sent foreign answer events rest,
        a.no_foreign,
        b.no_foreign,
        le.fewer_foreign,
      );
}

-- A packet is taken off the network.
pub count-removed :
    (f : Packet → Bool) (before after : List Packet) (p : Packet) {net : List Packet}
    → net ≡ before ++ p ∷ after
    → count f net ≡ one_if (f p) + count f (before ++ after)
count-removed f before after p e =
    ap (count f) e ∙ omega (arith, count-append f before (p ∷ after), count-append f before after)

pub NetLe-removed :
    (before after : List Packet) (p : Packet) {net : List Packet}
    → net ≡ before ++ p ∷ after
    → NetLe (before ++ after) net
NetLe-removed before after p e = record {
  fewer_asks = λ q c t. omega (arith, count-removed (asks q c t) before after p e);
  fewer_grants = λ c t. omega (arith, count-removed (grants c t) before after p e);
  fewer_foreign = omega (arith, count-removed foreign before after p e);
}

pub NetLe-refl : (net : List Packet) → NetLe net net
NetLe-refl net = record {
  fewer_asks = λ p c t. omega arith;
  fewer_grants = λ c t. omega arith;
  fewer_foreign = omega arith;
}

-- A node whose events have been handed over has none.
pub emptied :
    (f : ℕ → RaftNode) (i : ℕ) (m : RaftNode)
    → ((j : ℕ) → vote_events (f j).events ≡ 0)
    → (j : ℕ) → vote_events (update f i (record m { events = [] }) j).events ≡ 0
emptied f i m h j =
    updated (λ _ a b. vote_events a.events ≡ 0 → vote_events b.events ≡ 0) f i
      (record m { events = [] }) (λ _. refl) (λ _ _ z. z) j (h j)

-- A node does something that is not about votes.
pub act-Inv :
    (ids : List ℕ) (s : Cluster) (cast : List Vote) (i : ℕ) (m : RaftNode)
    (answer rest : List Packet)
    → Quiet (s.nodes i) m
    → Silent answer
    → NetLe rest s.net
    → Inv ids s cast
    → Inv ids (act i m answer (record s { net = rest })) cast
act-Inv ids s cast i m answer rest q a le v =
    let settled : Quiet (s.nodes i) (record m { events = [] }) = record {
      same_id = q.same_id;
      same_peers = q.same_peers;
      silent = sym (v.silent i);
      view = q.view;
    } in
    let sent = packets-Silent i m.events (q.silent ∙ v.silent i) in
    quietly ids s (act i m answer (record s { net = rest })) cast
      (updated (λ _. Quiet) s.nodes i (record m { events = [] }) settled (λ _. Quiet-refl))
      (NetLe-Silent answer (packets i m.events) rest s.net a sent le) v
