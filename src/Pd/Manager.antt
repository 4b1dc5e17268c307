-- ===== src/Pd/Manager.antt =====
-- ShardManager (pd_server/shard_manager.h, shard_manager.cpp). A mutex guards each method.
use learn_git.Base.{
  ℕ, zero, suc, List, [], ◌∷◌, ◌++◌, Bool, true, false, Bytes, ◌&&◌, ◌||◌, ltb, leb, ◌==◌,
  if◌then◌else◌, ◌+◌, add64, ◌*◌, ◌/◌, ◌%◌,
}

pub record NodeState : Type 0 where
  pub node_id : ℕ
  pub ip : Bytes
  pub port : ℕ
  pub leader_count : ℕ
  pub alive : Bool
  pub last_heartbeat : ℕ

-- A ShardState; the ShardMeta that getShardMap makes of it has the same fields.
pub record ShardState : Type 0 where
  pub shard_id : ℕ
  pub start_key : Bytes
  pub end_key : Bytes
  pub epoch : ℕ
  pub leader_node_id : ℕ
  pub peer_node_ids : List ℕ

-- `nodes` is the map of the nodes in the order in which it is iterated over.
pub record Manager : Type 0 where
  pub nodes : List (ℕ × NodeState)
  pub next_node_id : ℕ
  pub shards : List ShardState
  pub node_addrs : List (ℕ × Bytes)

abbrev pub new_manager : Manager
new_manager = record { nodes = []; next_node_id = 1; shards = []; node_addrs = [] }

-- nodes_[id] = ns.
unfoldable pub set_node : ℕ → NodeState → List (ℕ × NodeState) → List (ℕ × NodeState)
set_node id ns [] = (id, ns) ∷ []
set_node id ns ((j, old) ∷ nodes) =
    let rest = set_node id ns nodes in if j == id then (id, ns) ∷ nodes else (j, old) ∷ rest

-- registerNode, at the time `now` in seconds.
unfoldable pub register_node : ℕ → Bytes → ℕ → Manager → Manager × ℕ
register_node now ip port m =
    let id = m.next_node_id in
    let ns : NodeState = record {
      node_id = id;
      ip = ip;
      port = port;
      leader_count = 0;
      alive = true;
      last_heartbeat = now;
    } in
    (record m { nodes = set_node id ns m.nodes; next_node_id = add64 id 1 }, id)

unfoldable pub heard : ℕ → ℕ → Bool → List (ℕ × NodeState) → List (ℕ × NodeState)
heard now id leads [] = []
heard now id leads ((j, ns) ∷ nodes) =
    let rest = heard now id leads nodes in
    if j == id
    then (
      j,
      record ns { alive = true; last_heartbeat = now; leader_count = if leads then 1 else 0 },
    )
      ∷ nodes
    else (j, ns) ∷ rest

-- A heartbeat of a node that is not registered is ignored.
unfoldable pub process_heartbeat : ℕ → ℕ → Bool → Manager → Manager
process_heartbeat now id leads m = record m { nodes = heard now id leads m.nodes }

abbrev pub is_silent : ℕ → NodeState → Bool
is_silent now ns = ns.alive && ltb (ns.last_heartbeat + 10) now

-- The loop of getDeadNodes: the nodes after it, and the ids found.
unfoldable pub mark_dead : ℕ → List (ℕ × NodeState) → List (ℕ × NodeState) × List ℕ
mark_dead now [] = ([], [])
mark_dead now ((id, ns) ∷ nodes) =
    let rest = mark_dead now nodes in
    if is_silent now ns
    then ((id, record ns { alive = false }) ∷ rest.0, id ∷ rest.1)
    else ((id, ns) ∷ rest.0, rest.1)

unfoldable pub get_dead_nodes : ℕ → Manager → Manager × List ℕ
get_dead_nodes now m = let done = mark_dead now m.nodes in (record m { nodes = done.0 }, done.1)

-- std::string(1, 'a' + i * (26 / numShards)).
unfoldable pub border : ℕ → ℕ → Bytes
border num_shards i = (97 + i * (26 / num_shards)) % 256 ∷ []

unfoldable pub new_shard : ℕ → ℕ → ShardState
new_shard num_shards i = record {
  shard_id = i + 1;
  start_key = border num_shards i;
  end_key = if ltb (i + 1) num_shards then border num_shards (i + 1) else [];
  epoch = 1;
  leader_node_id = 0;
  peer_node_ids = [];
}

-- The loop of initShards, with so many rounds to go.
unfoldable pub shards_from : ℕ → ℕ → ℕ → List ShardState
shards_from num_shards zero i = []
shards_from num_shards (suc rounds) i =
    new_shard num_shards i ∷ shards_from num_shards rounds (i + 1)

unfoldable pub init_shards : ℕ → Manager → Manager
init_shards num_shards m = record m { shards = shards_from num_shards num_shards 0 }

unfoldable pub is_member : ℕ → List ℕ → Bool
is_member id [] = false
is_member id (j ∷ js) = (j == id) || is_member id js

unfoldable pub assign_first : ℕ → ℕ → Bool → List ShardState → List ShardState
assign_first shard_id node_id is_leader [] = []
assign_first shard_id node_id is_leader (s ∷ ss) =
    let rest = assign_first shard_id node_id is_leader ss in
    if s.shard_id == shard_id
    then record s {
      leader_node_id = if is_leader then node_id else s.leader_node_id;
      peer_node_ids =
          if is_member node_id s.peer_node_ids
          then s.peer_node_ids
          else s.peer_node_ids ++ node_id ∷ [];
    }
      ∷ ss
    else s ∷ rest

unfoldable pub assign_shard : ℕ → ℕ → Bool → Manager → Manager
assign_shard shard_id node_id is_leader m = record m {
  shards = assign_first shard_id node_id is_leader m.shards;
}

-- setInitialNodes: the loop over the ids.
unfoldable pub add_initial : List ℕ → Manager → Manager
add_initial [] m = m
add_initial (id ∷ ids) m =
    let ns : NodeState = record {
      node_id = id;
      ip = [];
      port = 0;
      leader_count = 0;
      alive = true;
      last_heartbeat = 0;
    } in
    add_initial ids (record m {
      nodes = set_node id ns m.nodes;
      next_node_id = if leb m.next_node_id id then add64 id 1 else m.next_node_id;
    })

unfoldable pub set_initial_nodes : List ℕ → List (ℕ × Bytes) → Manager → Manager
set_initial_nodes ids addrs m = add_initial ids (record m { node_addrs = addrs })
