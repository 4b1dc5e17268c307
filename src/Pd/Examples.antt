-- ===== src/Pd/Examples.antt =====
-- The theorems about the placement driver at concrete clusters.

use learn_git.Pd.Coverage.{init_shards-get_shard_id}
use learn_git.Pd.Rebalance.{schedule_rebalance, alive_nodes}
use learn_git.Pd.Balance.{AllServed, schedule_rebalance-AllServed}
use learn_git.Pd.Router.{get_shard_id}
use learn_git.Base.{[], ◌∷◌, arith, ◌≡◌}
use learn_git.Pd.Manager.{
  Manager, new_manager, init_shards, set_initial_nodes, add_initial, set_node,
}

-- Four shards, and nodes 1, 2 and 3 from the configuration.
abbrev cluster : Manager
unfolding init_shards set_initial_nodes
cluster = set_initial_nodes (1 ∷ 2 ∷ 3 ∷ []) [] (init_shards 4 new_manager)

-- 'h' lies 7 letters after 'a', and each of the first shards has 6 letters.
init_shards-get_shard_id_example :
    get_shard_id (b'h' ∷ b'i' ∷ []) (init_shards 4 new_manager).shards ≡ 2
init_shards-get_shard_id_example =
    init_shards-get_shard_id 4 b'h' (b'i' ∷ []) new_manager (omega arith) (omega arith)

schedule_rebalance-AllServed_example : AllServed 3 (schedule_rebalance cluster).shards
unfolding set_initial_nodes add_initial set_node init_shards alive_nodes
schedule_rebalance-AllServed_example = schedule_rebalance-AllServed cluster
