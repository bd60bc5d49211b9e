-- ===== src/Raft/Replicate.antt =====
-- The leader's side of replication.c, and `raft_propose` of raft.c.
use first_principle_cs.Base.{
  ℕ, ◌-◌, ◌%◌, ℤ, pos, negsuc, List, [], ◌∷◌, Option, none, some, ltb, leb, ◌==◌, if◌then◌else◌,
  u32, add64, get_or,
}
use first_principle_cs.Raft.Types.{
  Status, ok, stopped, not_leader, invalid_arg, max_entries_per_append,
}
use first_principle_cs.Raft.Log
use first_principle_cs.Raft.Log.{Log}
use first_principle_cs.Raft.Message.{Message, append_entries}
use first_principle_cs.Raft.Node.{Node, is_leader_role, send, peers}
use first_principle_cs.Raft.Wire.{write_entries}

-- `(uint32_t)` cuts the difference to 32 bits before it is capped.
unfoldable pub entries_to_send : ℕ → ℕ → ℕ
entries_to_send next_idx last_idx =
    if ltb last_idx next_idx
    then 0
    else if ltb max_entries_per_append (add64 (last_idx - next_idx) 1 % u32)
    then max_entries_per_append
    else add64 (last_idx - next_idx) 1 % u32

abbrev pub prev_index : ℕ → ℕ
prev_index next_idx = if ltb 1 next_idx then next_idx - 1 else 0

unfoldable pub append_entries_to : Node → ℕ → Message
append_entries_to node next_idx =
    let count = entries_to_send next_idx (Log.last_index node.log) in
    append_entries
      (record {
        term = node.current_term;
        leader_id = pos node.node_id;
        prev_log_index = prev_index next_idx;
        prev_log_term = Log.term_at node.log (prev_index next_idx);
        leader_commit = node.commit_index;
        entries_count = count;
      })
      (write_entries node.log count next_idx)

unfoldable pub replicate_to_checked : Node → ℤ → Status × Node
replicate_to_checked node (negsuc i) = (invalid_arg, node)
replicate_to_checked node (pos i) =
    if leb node.num_nodes i
    then (invalid_arg, node)
    else if i == node.node_id
    then (ok, node)
    else (ok, send node (pos i) (append_entries_to node (get_or node.next_index i 0)))

unfoldable pub replicate_to_peer : Node → ℤ → Status × Node
replicate_to_peer node peer =
    if is_leader_role node.role then replicate_to_checked node peer else (not_leader, node)

unfoldable pub replicate_to_all : List ℕ → Node → Node
replicate_to_all [] node = node
replicate_to_all (i ∷ is) node = replicate_to_all is (replicate_to_peer node (pos i)).1

unfoldable pub replicate_log : Node → Status × Node
replicate_log node =
    if is_leader_role node.role
    then (ok, replicate_to_all (peers node) node)
    else (not_leader, node)

unfoldable pub after_append : Node → Log × ℕ → Status × Node × Option ℕ
after_append node (log, index) = (
  ok,
  (if node.num_nodes == 1
      then record node { log = log; commit_index = index }
      else (replicate_log (record node { log = log })).1),
  some index,
)

-- The last part is what goes through `out_index`.
unfoldable pub propose : Node → List ℕ → Status × Node × Option ℕ
propose node command =
    if node.running
    then if is_leader_role node.role
      then after_append node (Log.append node.log node.current_term command)
      else (not_leader, node, none)
    else (stopped, node, none)
