-- ===== src/Pd/Rebalance.antt =====
-- scheduleRebalance of pd_server/shard_manager.cpp, and PdServer::tick that calls it.
use learn_git.Base.{
  ℕ, zero, suc, List, [], ◌∷◌, ◌++◌, ◌&&◌, not, ltb, ◌==◌, if◌then◌else◌, length, update, ◌+◌, map,
  is_empty, ◌||◌,
}
use learn_git.Pd.Manager.{NodeState, ShardState, Manager, is_member, get_dead_nodes}

unfoldable pub alive_nodes : List (ℕ × NodeState) → List ℕ
alive_nodes [] = []
alive_nodes ((id, ns) ∷ nodes) =
    let rest = alive_nodes nodes in if ns.alive then id ∷ rest else rest

-- One more for each peer that is alive.
unfoldable pub count_peers : List ℕ → List ℕ → (ℕ → ℕ) → ℕ → ℕ
count_peers live [] counts = counts
count_peers live (p ∷ ps) counts =
    count_peers live ps (if is_member p live then update counts p (counts p + 1) else counts)

unfoldable pub count_shards : List ℕ → List ShardState → (ℕ → ℕ) → ℕ → ℕ
count_shards live [] counts = counts
count_shards live (s ∷ ss) counts = count_shards live ss (count_peers live s.peer_node_ids counts)

-- A shard without a leader is led by its first peer.
unfoldable pub appoint : ShardState → ShardState
appoint s = elim s.peer_node_ids [
  | [] ↦ s
  | p ∷ ps ↦ if s.leader_node_id == 0 then record s { leader_node_id = p } else s
]

-- The loop that looks for the node with the fewest shards, from the best so far.
unfoldable pub pick : (ℕ → ℕ) → List ℕ → ℕ → List ℕ → ℕ
pick counts peers best [] = best
pick counts peers best (n ∷ ns) =
    pick counts peers (if ltb (counts n) (counts best) && not (is_member n peers) then n else best)
      ns

-- The while loop for one shard; `rounds` bounds its rounds, each of which adds a peer.
unfoldable pub fill : ℕ → List ℕ → (ℕ → ℕ) → List ℕ → List ℕ × (ℕ → ℕ)
fill zero live counts peers = (peers, counts)
fill (suc rounds) [] counts peers = (peers, counts)
fill (suc rounds) (first ∷ live) counts peers =
    let best = pick counts peers first (first ∷ live) in
    let rest =
      fill rounds (first ∷ live) (update counts best (counts best + 1)) (peers ++ best ∷ []) in
    if ltb (length peers) 3 && ltb (length peers) (length (first ∷ live))
    then rest
    else (peers, counts)

unfoldable pub fill_shards : List ℕ → (ℕ → ℕ) → List ShardState → List ShardState
fill_shards live counts [] = []
fill_shards live counts (s ∷ ss) =
    let done = fill 3 live counts s.peer_node_ids in
    record s { peer_node_ids = done.0 } ∷ fill_shards live done.1 ss

-- Without shards, or without a node that is alive, nothing changes.
unfoldable pub schedule_rebalance : Manager → Manager
schedule_rebalance m =
    let live = alive_nodes m.nodes in
    if is_empty m.shards || is_empty m.nodes then m else if is_empty live then m else record m {
      shards = fill_shards live (count_shards live m.shards (λ _. 0)) (map appoint m.shards);
    }

-- PdServer::tick.
unfoldable pub pd_tick : ℕ → Manager → Manager
unfolding schedule_rebalance
pd_tick now m =
    let found = get_dead_nodes now m in
    if is_empty found.1 then found.0 else schedule_rebalance found.0
