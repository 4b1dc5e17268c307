-- ===== src/Pd/Router.antt =====
-- ShardRouter (common/shard_router.cpp) and Router (client_sdk/router.cpp) over a map of shards.
use learn_git.Base.{
  ℕ, List, [], ◌∷◌, Bool, true, false, Bytes, Option, none, some, ◌&&◌, ◌||◌, ◌==◌, if◌then◌else◌,
  is_empty, bytes_lt, bytes_ge, update,
}
use learn_git.Pd.Manager.{ShardState}

abbrev pub after_start : Bytes → ShardState → Bool
after_start key shard = is_empty shard.start_key || bytes_ge key shard.start_key

abbrev pub before_end_key : Bytes → ShardState → Bool
before_end_key key shard = is_empty shard.end_key || bytes_lt key shard.end_key

-- The first shard whose range has the key.
unfoldable pub find_shard : Bytes → List ShardState → Option ShardState
find_shard key [] = none
find_shard key (shard ∷ shards) =
    let rest = find_shard key shards in
    if after_start key shard && before_end_key key shard then some shard else rest

abbrev pub id_of : Option ShardState → ℕ
id_of none = 0
id_of (some shard) = shard.shard_id

-- getShardId; 0 stands for none.
unfoldable pub get_shard_id : Bytes → List ShardState → ℕ
get_shard_id key shards = id_of (find_shard key shards)

-- The members of ShardRouter; an address that is not there is `none`.
pub record ShardRouter : Type 0 where
  pub shards : List ShardState
  pub shard_node_addrs : ℕ → ℕ → Option Bytes

unfoldable pub shard_router_update_leader : ℕ → ℕ → Bytes → ShardRouter → ShardRouter
shard_router_update_leader shard_id node_id addr r = record r {
  shard_node_addrs =
      update r.shard_node_addrs shard_id (update (r.shard_node_addrs shard_id) node_id (some addr));
}

-- The loop of ShardRouter::getLeaderAddr; the empty address stands for none.
unfoldable pub find_leader_addr : (ℕ → ℕ → Option Bytes) → ℕ → List ShardState → Bytes
find_leader_addr addrs id [] = []
find_leader_addr addrs id (shard ∷ shards) =
    let rest = find_leader_addr addrs id shards in
    if shard.shard_id == id
    then elim (addrs id shard.leader_node_id) [ none ↦ rest | some addr ↦ addr ]
    else rest

unfoldable pub shard_router_get_leader_addr : ℕ → ShardRouter → Bytes
shard_router_get_leader_addr id r = find_leader_addr r.shard_node_addrs id r.shards

unfoldable pub get_leader_node_id : ℕ → List ShardState → ℕ
get_leader_node_id id [] = 0
get_leader_node_id id (shard ∷ shards) =
    let rest = get_leader_node_id id shards in
    if shard.shard_id == id then shard.leader_node_id else rest

-- The members of Router.
pub record Router : Type 0 where
  pub direct_addr : Bytes
  pub use_pd : Bool
  pub shard_map : List ShardState
  pub router_addrs : ℕ → Option Bytes

unfoldable pub set_direct_node : Bytes → Router → Router
set_direct_node addr r = record r { direct_addr = addr; use_pd = false }

unfoldable pub load_shard_map : List ShardState → Router → Router
load_shard_map map r = record r { shard_map = map; use_pd = true }

abbrev pub known_addr : Router → ShardState → Bytes
known_addr r shard = elim (r.router_addrs shard.leader_node_id) [ none ↦ [] | some addr ↦ addr ]

unfoldable pub get_addr_for_key : Bytes → Router → Bytes
get_addr_for_key key r =
    if r.use_pd
    then elim (find_shard key r.shard_map) [ none ↦ [] | some shard ↦ known_addr r shard ]
    else r.direct_addr

unfoldable pub router_update_leader : ℕ → Bytes → Router → Router
router_update_leader node_id addr r = record r {
  router_addrs = update r.router_addrs node_id (some addr);
}

-- Router::getLeaderAddr.
unfoldable pub router_get_leader_addr : ℕ → Router → Bytes
router_get_leader_addr id r = find_leader_addr (λ _. r.router_addrs) id r.shard_map
