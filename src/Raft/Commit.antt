-- ===== src/Raft/Commit.antt =====
-- advanceCommitIndex in raft_node.cpp: which position a leader commits.
use learn_git.Raft.Cluster.Counts.{count}
use native.Mathlib.Decide.{ℕ_discrete}
use learn_git.Base.{
  ℕ, zero, suc, ◌≤◌, ◌<◌, ◌≡◌, refl, ◌⊎◌, inl, true, false, arith, subst, ◌↔◌, length, leb, ◌+◌,
  List, ◌*◌, ◌∷◌, [],
}
use learn_git.Raft.Types.{RaftNode, is_leader}
use learn_git.Raft.Log.{get_log_entry, last_log_index}
use learn_git.Raft.Replica.{has_quorum, scan_commit, advance_commit_index, count_matches}

-- The peers whose recorded match is at position k or beyond.
abbrev pub holders : RaftNode → ℕ → ℕ
holders n k = count (λ p. leb k (n.match_index p)) n.peer_ids

-- Position k can be committed now: its entry is of the current term, and more than half of the nodes,
-- which are the peers and this one, hold it. This one does.
abbrev pub CanCommit : RaftNode → ℕ → Type 0
CanCommit n k =
    ((get_log_entry n.log k).term ≡ n.current_term)
    × (length n.peer_ids + 1 < 2 * (holders n k + 1))

count_matches-count :
    (matched : ℕ → ℕ) (k : ℕ) (ps : List ℕ)
    → count_matches matched k ps ≡ count (λ p. leb k (matched p)) ps + 1
unfolding count_matches
count_matches-count matched k [] = omega arith
count_matches-count matched k (p ∷ ps) = ground (arith, count_matches-count matched k ps)

-- The test of the code is that of more than half.
pub has_quorum-holders :
    (n : RaftNode) (k : ℕ)
    → (has_quorum n k ≡ true) ↔ (length n.peer_ids + 1 < 2 * (holders n k + 1))
has_quorum-holders n k =
    let counted = count_matches-count n.match_index k n.peer_ids in
    (λ h. ground (arith, h, counted), λ h. ground (arith, h, counted))

-- r is the largest position up to `top` that can be committed, or the old commit index if there
-- is none above it.
pub record IsLargest (n : RaftNode) (top r : ℕ) : Type 0 where
  pub chosen : (r ≡ n.commit_index) ⊎ ((n.commit_index < r) × (r ≤ top) × CanCommit n r)
  pub largest : (k : ℕ) → r < k → k ≤ top → ¬ CanCommit n k

scan_commit-IsLargest : (n : RaftNode) (top : ℕ) → IsLargest n top (scan_commit n top)
unfolding scan_commit
scan_commit-IsLargest n zero = record { chosen = inl refl; largest = λ k h g. absurd (omega arith) }
scan_commit-IsLargest n (suc top) =
    let below = scan_commit-IsLargest n top in
    record {
      chosen = ground (arith, below.chosen, (has_quorum-holders n (suc top)).0);
      largest = λ k h h' g. elim (ℕ_discrete k (suc top)) [
        | yes e ↦
            let g' : CanCommit n (suc top) = subst (CanCommit n) e g in
            let q = (has_quorum-holders n (suc top)).1 g'.1 in ground (arith, q, g'.0)
        | no e ↦ ground (arith, below.largest k)
      ];
    }

-- A leader commits the largest position of its log that more than half of the nodes hold, itself
-- counted and the others by their recorded matches, and whose entry is of its own term, if one lies
-- above its commit index; a node that is no leader commits nothing here.
pub advance_commit_index-IsLargest :
    (n : RaftNode)
    → (is_leader n.state ≡ true
        → IsLargest n (last_log_index n.log) (advance_commit_index n).commit_index)
      × (is_leader n.state ≡ false → (advance_commit_index n).commit_index ≡ n.commit_index)
unfolding advance_commit_index
advance_commit_index-IsLargest n = (
  λ h. rw (h, advance_commit_index) (scan_commit-IsLargest n (last_log_index n.log)),
  λ h. rw (h, advance_commit_index),
)
