-- ===== src/Pd/Balance.antt =====
-- What scheduleRebalance gives to the shards.
use learn_git.Base.{
  ℕ, zero, suc, List, [], ◌∷◌, ◌++◌, true, false, arith, refl, ◌≡◌, ◌≤◌, length, length-append, min,
  ◌+◌, update, ◌<◌, Bool-cases, ltb, is_empty, ◌||◌, ◌⊎◌, inl, map, inr,
}
use learn_git.Pd.Manager.{ShardState, Manager, NodeState, shards_from, init_shards, new_shard}
use learn_git.Pd.Rebalance.{alive_nodes, pick, fill, fill_shards, appoint, schedule_rebalance}

-- Enough rounds bring the peers up to three, or up to the number of nodes that are alive.
fill_enough :
    (rounds : ℕ) (live : List ℕ) (counts : ℕ → ℕ) (peers : List ℕ)
    → 3 ≤ rounds + length peers
    → min 3 (length live) ≤ length (fill rounds live counts peers).0
unfolding fill
fill_enough zero live counts peers h = omega arith
fill_enough (suc rounds) [] counts peers h = omega arith
fill_enough (suc rounds) (first ∷ live) counts peers h =
    let best = pick counts peers first (first ∷ live) in
    let longer = length-append peers (best ∷ []) in
    ground (
      arith,
      fill_enough rounds (first ∷ live) (update counts best (counts best + 1)) (peers ++ best ∷ []),
    )

-- Every shard has so many peers.
abbrev pub AllServed : ℕ → List ShardState → Type 0
AllServed k [] = Unit {0}
AllServed k (s ∷ ss) = (k ≤ length s.peer_node_ids) × AllServed k ss

fill_shards-AllServed :
    (live : List ℕ) (counts : ℕ → ℕ) (ss : List ShardState)
    → AllServed (min 3 (length live)) (fill_shards live counts ss)
unfolding fill_shards
fill_shards-AllServed live counts [] = tt
fill_shards-AllServed live counts (s ∷ ss) = (
  fill_enough 3 live counts s.peer_node_ids (omega arith),
  fill_shards-AllServed live (fill 3 live counts s.peer_node_ids).1 ss,
)

AllServed-zero : (ss : List ShardState) → AllServed 0 ss
AllServed-zero [] = tt
AllServed-zero (s ∷ ss) = (omega arith, AllServed-zero ss)

empty-AllServed : (k : ℕ) (ss : List ShardState) → is_empty ss ≡ true → AllServed k ss
empty-AllServed k [] e = tt
empty-AllServed k (s ∷ ss) e = cc

none_alive :
    (nodes : List (ℕ × NodeState))
    → (is_empty nodes ≡ true) ⊎ (is_empty (alive_nodes nodes) ≡ true)
    → length (alive_nodes nodes) ≡ 0
unfolding alive_nodes
none_alive [] h = refl
none_alive ((id, ns) ∷ nodes) (inl e) = cc
none_alive ((id, ns) ∷ nodes) (inr e) = ground (arith, none_alive nodes)

idle-AllServed :
    (nodes : List (ℕ × NodeState)) (ss : List ShardState)
    → length (alive_nodes nodes) ≡ 0
    → AllServed (min 3 (length (alive_nodes nodes))) ss
idle-AllServed nodes ss e =
    let none : min 3 (length (alive_nodes nodes)) ≡ 0 = omega arith in rw none (AllServed-zero ss)

-- After a rebalance every shard has at least three entries in its list of peers, or as many as
-- there are nodes alive if these are fewer.
pub schedule_rebalance-AllServed :
    (m : Manager) → AllServed (min 3 (length (alive_nodes m.nodes))) (schedule_rebalance m).shards
unfolding schedule_rebalance
schedule_rebalance-AllServed m = elim (Bool-cases (is_empty m.shards)) [
  | inl t ↦ rw t (empty-AllServed _ m.shards t)
  | inr f ↦ elim (Bool-cases (is_empty m.nodes)) [
    | inl t ↦ rw (f, t) (idle-AllServed m.nodes m.shards (none_alive m.nodes (inl t)))
    | inr g ↦ elim (Bool-cases (is_empty (alive_nodes m.nodes))) [
      | inl t ↦ rw (f, g, t) (idle-AllServed m.nodes m.shards (none_alive m.nodes (inr t)))
      | inr h ↦ rw (f, g, h) (fill_shards-AllServed (alive_nodes m.nodes) _ _)
    ]
  ]
]

abbrev pub NoLeaders : List ShardState → Type 0
NoLeaders [] = Unit {0}
NoLeaders (s ∷ ss) = (s.leader_node_id ≡ 0) × NoLeaders ss

fill_shards-NoLeaders :
    (live : List ℕ) (counts : ℕ → ℕ) (ss : List ShardState)
    → NoLeaders ss
    → NoLeaders (fill_shards live counts ss)
unfolding fill_shards
fill_shards-NoLeaders live counts [] h = tt
fill_shards-NoLeaders live counts (s ∷ ss) h =
    (h.0, fill_shards-NoLeaders live (fill 3 live counts s.peer_node_ids).1 ss h.1)

new-NoLeaders :
    (n rounds i : ℕ)
    → NoLeaders (shards_from n rounds i) × NoLeaders (map appoint (shards_from n rounds i))
unfolding shards_from appoint new_shard
new-NoLeaders n zero i = (tt, tt)
new-NoLeaders n (suc rounds) i =
    let rest = new-NoLeaders n rounds (i + 1) in ((refl, rest.0), (refl, rest.1))

-- A rebalance just after initShards gives peers to the shards, but a leader to none of them.
pub init_shards-NoLeaders :
    (n : ℕ) (m : Manager) → NoLeaders (schedule_rebalance (init_shards n m)).shards
unfolding schedule_rebalance init_shards
init_shards-NoLeaders n m =
    let new = new-NoLeaders n n 0 in
    elim (Bool-cases (is_empty (shards_from n n 0) || is_empty m.nodes)) [
      | inl t ↦ rw t new.0
      | inr f ↦ elim (Bool-cases (is_empty (alive_nodes m.nodes))) [
        | inl t ↦ rw (f, t) new.0
        | inr h ↦ rw (f, h) (fill_shards-NoLeaders (alive_nodes m.nodes) _ _ new.1)
      ]
    ]

-- No node of the list has fewer shards.
abbrev pub NoneFewer : (ℕ → ℕ) → ℕ → List ℕ → Type 0
NoneFewer counts k [] = Unit {0}
NoneFewer counts k (n ∷ ns) = (k ≤ counts n) × NoneFewer counts k ns

pick_first :
    (counts : ℕ → ℕ) (peers : List ℕ) (best : ℕ) (ns : List ℕ)
    → NoneFewer counts (counts best) ns
    → pick counts peers best ns ≡ best
unfolding pick
pick_first counts peers best [] h = refl
pick_first counts peers best (n ∷ ns) h =
    let stays : ltb (counts n) (counts best) ≡ false = ground arith in
    rw stays (pick_first counts peers best ns h.1)

-- While a shard has fewer than three peers and fewer than there are nodes alive, the first node
-- alive is added to its peers if none has fewer shards, and also if it is a peer already.
pub fill_repeats :
    (rounds : ℕ) (first : ℕ) (live : List ℕ) (counts : ℕ → ℕ) (peers : List ℕ)
    → NoneFewer counts (counts first) live
    → length peers < 3
    → length peers < length (first ∷ live)
    → (fill (suc rounds) (first ∷ live) counts peers).0
      ≡ (fill rounds
          (first ∷ live)
          (update counts first (counts first + 1))
          (peers ++ first ∷ [])).0
unfolding fill
fill_repeats rounds first live counts peers h a b =
    let chosen : pick counts peers first (first ∷ live) ≡ first =
      pick_first counts peers first (first ∷ live) (omega arith, h) in
    let under : ltb (length peers) 3 ≡ true = ground arith in
    let more : ltb (length peers) (length (first ∷ live)) ≡ true = ground arith in
    rw (chosen, under, more)
