-- ===== src/Pd/Initial.antt =====
-- The nodes of the configuration (setInitialNodes) at the first tick of the placement driver.
use learn_git.Base.{ℕ, List, [], ◌∷◌, Bytes, arith, refl, ◌≡◌, ◌<◌}
use learn_git.Pd.Manager.{
  NodeState, Manager, new_manager, set_node, mark_dead, get_dead_nodes, add_initial,
  set_initial_nodes,
}
use learn_git.Pd.Rebalance.{alive_nodes}

abbrev pub NeverHeard : List (ℕ × NodeState) → Type 0
NeverHeard [] = Unit {0}
NeverHeard ((id, ns) ∷ nodes) = (ns.last_heartbeat ≡ 0) × NeverHeard nodes

set_node-NeverHeard :
    (id : ℕ) (ns : NodeState) (nodes : List (ℕ × NodeState))
    → ns.last_heartbeat ≡ 0
    → NeverHeard nodes
    → NeverHeard (set_node id ns nodes)
unfolding set_node
set_node-NeverHeard id ns [] e h = (e, tt)
set_node-NeverHeard id ns ((j, old) ∷ nodes) e h =
    ground (arith, set_node-NeverHeard id ns nodes e h.1)

add_initial-NeverHeard :
    (ids : List ℕ) (m : Manager) → NeverHeard m.nodes → NeverHeard (add_initial ids m).nodes
unfolding add_initial
add_initial-NeverHeard [] m h = h
add_initial-NeverHeard (id ∷ ids) m h =
    add_initial-NeverHeard ids _ (set_node-NeverHeard id _ m.nodes refl h)

dead_if_NeverHeard :
    (now : ℕ) (nodes : List (ℕ × NodeState))
    → 10 < now
    → NeverHeard nodes
    → alive_nodes (mark_dead now nodes).0 ≡ []
unfolding mark_dead alive_nodes
dead_if_NeverHeard now [] a h = refl
dead_if_NeverHeard now ((id, ns) ∷ nodes) a h = ground (arith, dead_if_NeverHeard now nodes a h.1)

-- The nodes of the configuration count as last heard of at time 0: the first check after that has
-- passed by more than ten seconds leaves none of them alive, if no heartbeat came before.
pub initial_nodes_die :
    (ids : List ℕ) (addrs : List (ℕ × Bytes)) (now : ℕ)
    → 10 < now
    → alive_nodes (get_dead_nodes now (set_initial_nodes ids addrs new_manager)).0.nodes ≡ []
unfolding get_dead_nodes set_initial_nodes
initial_nodes_die ids addrs now a = dead_if_NeverHeard now _ a (add_initial-NeverHeard ids _ tt)
