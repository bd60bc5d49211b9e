-- ===== src/Raft/Commit.antt =====
-- commit.c: how far the log is committed. `qsort` of the C library is a parameter of
-- `majority_match_index`.
pub mod Advance
pub mod Median
pub mod Tests
use first_principle_cs.Base.{
  ℕ, zero, suc, ◌+◌, ◌-◌, ◌/◌, List, [], ◌∷◌, Bool, true, false, ◌&&◌, not, ltb, leb, ◌==◌,
  if◌then◌else◌, get_or, add64,
}
use first_principle_cs.Raft.Types.{Status, ok, not_leader}
use first_principle_cs.Raft.Log
use first_principle_cs.Raft.Node.{Node, is_leader_role, apply_committed}

-- The array to sort: the match index of each node from number `i` on, the leader's last index for
-- itself.
unfoldable pub match_indices : ℕ → ℕ → ℕ → ℕ → List ℕ → List ℕ
match_indices zero i self last_index matches = []
match_indices (suc n) i self last_index matches =
    (if i == self then last_index else get_or matches i 0)
    ∷ match_indices n (suc i) self last_index matches

abbrev pub is_empty : List ℕ → Bool
is_empty [] = true
is_empty (x ∷ xs) = false

unfoldable pub majority_match_index : (List ℕ → List ℕ) → Node → ℕ
majority_match_index qsort node =
    if is_leader_role node.role && not (is_empty node.match_index)
    then get_or
        (qsort
          (match_indices node.num_nodes 0 node.node_id (Log.last_index node.log) node.match_index))
        (node.num_nodes / 2) 0
    else 0

unfoldable pub is_committed : Node → ℕ → Bool
is_committed node index = not (index == 0) && leb index node.commit_index

-- The inner loop: how many nodes from number `i` on, other than the leader, hold index `n`.
unfoldable pub count_replicas : ℕ → ℕ → ℕ → ℕ → List ℕ → ℕ
count_replicas zero i self n matches = 0
count_replicas (suc k) i self n matches =
    (if not (i == self) && leb n (get_or matches i 0) then 1 else 0)
    + count_replicas k (suc i) self n matches

-- A majority holds index `n`, and its entry is of the current term.
unfoldable pub can_commit : Node → ℕ → Bool
can_commit node n =
    ltb (node.num_nodes / 2) (1 + count_replicas node.num_nodes 0 node.node_id n node.match_index)
    && Log.term_at node.log n == node.current_term

-- The outer loop from index `n` on, `rounds` of it, with the best index so far.
unfoldable pub scan_commit : Node → ℕ → ℕ → ℕ → ℕ
scan_commit node zero n best = best
scan_commit node (suc rounds) n best =
    scan_commit node rounds (add64 n 1) (if can_commit node n then n else best)

abbrev pub newest_commit : Node → ℕ
newest_commit node =
    scan_commit node (Log.last_index node.log - node.commit_index) (add64 node.commit_index 1)
      node.commit_index

unfoldable pub advance_commit_index : Node → Status × Node
advance_commit_index node =
    if is_leader_role node.role
    then if ltb node.commit_index (newest_commit node)
      then (ok, apply_committed (record node { commit_index = newest_commit node }))
      else (ok, node)
    else (not_leader, node)
