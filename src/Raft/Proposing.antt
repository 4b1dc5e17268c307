-- ===== src/Raft/Proposing.antt =====
-- What RaftNode::propose does on a leader (raft_node.cpp).
use learn_git.Raft.Node.{propose, proposed_entry}
use learn_git.Base.{ℕ, [], ◌∷◌, ◌++◌, true, Bytes, ◌≡◌, arith, ◌≢◌, refl}
use learn_git.Raft.Types.{RaftNode, is_leader}

-- What `propose` does to the fields that the commit depends on.
pub record Proposed (command : Bytes) (n m : RaftNode) : Type 0 where
  pub term : m.current_term ≡ n.current_term
  pub log : m.log ≡ n.log ++ proposed_entry command n ∷ []
  pub commit : m.commit_index ≡ n.commit_index
  pub last_applied : m.last_applied ≡ n.last_applied
  pub others : (p : ℕ) → p ≢ n.node_id → m.match_index p ≡ n.match_index p
  pub peers : m.peer_ids ≡ n.peer_ids
  pub role : m.state ≡ n.state

pub propose-Proposed :
    (command : Bytes) (n : RaftNode)
    → is_leader n.state ≡ true
    → Proposed command n (propose command n).0
unfolding propose
propose-Proposed command n l =
    rw (l, propose)
      (record {
        term = refl;
        log = refl;
        commit = refl;
        last_applied = refl;
        others = λ p ne. ground arith;
        peers = refl;
        role = refl;
      })

-- A leader accepts every command.
pub propose_accepts :
    (command : Bytes) (n : RaftNode) → is_leader n.state ≡ true → (propose command n).1 ≡ true
unfolding propose
propose_accepts command n l = ground arith
