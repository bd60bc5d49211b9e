-- ===== src/Raft/Transfer.antt =====
-- transfer.c: handing the leadership over. The state of the transfer is one for the whole process.
pub mod Target
mod Tests
use first_principle_cs.Base.{
  ℕ, zero, suc, ℤ, pos, negsuc, no_id, List, Bool, true, false, ltb, leb, ◌==◌, if◌then◌else◌,
  get_or,
}
use first_principle_cs.Raft.Types.{Status, ok, not_leader, stopped, invalid_arg}
use first_principle_cs.Raft.Log
use first_principle_cs.Raft.Message.{timeout_now}
use first_principle_cs.Raft.Node.{Node, is_leader_role, send}

pub data TransferState : Type 0 where
  idle pending sending : TransferState

pub record Transfer : Type 0 where
  pub state : TransferState
  pub target : ℤ

unfoldable pub abort : Transfer
abort = record { state = idle; target = no_id }

abbrev pub is_idle_state : TransferState → Bool
is_idle_state idle = true
is_idle_state pending = false
is_idle_state sending = false

-- The loop that picks the follower with the greatest match index, from number `i` on for `n` rounds,
-- with the best index so far and its node.
unfoldable pub pick_target : ℕ → ℕ → ℕ → List ℕ → ℕ → ℤ → ℤ
pick_target zero i self matches best target = target
pick_target (suc n) i self matches best target =
    let found = pick_target n (suc i) self matches (get_or matches i 0) (pos i) in
    let rest = pick_target n (suc i) self matches best target in
    if i == self then rest else if ltb best (get_or matches i 0) then found else rest

-- A target that has the whole log is told to start an election.
unfoldable pub check_target : Node → ℕ → Transfer → Node × Transfer
check_target node target transfer =
    if leb (Log.last_index node.log) (get_or node.match_index target 0)
    then (
      send node (pos target)
          (timeout_now (record { term = node.current_term; leader_id = pos node.node_id })),
      record transfer { state = sending },
    )
    else (node, transfer)

unfoldable pub check_leader : Node → ℤ → Transfer → Node × Transfer
check_leader node (negsuc i) transfer = (node, abort)
check_leader node (pos target) transfer =
    if leb node.num_nodes target then (node, abort) else check_target node target transfer

unfoldable pub check_progress : Node → Transfer → Node × Transfer
check_progress node transfer =
    if is_idle_state transfer.state
    then (node, transfer)
    else if is_leader_role node.role
    then check_leader node transfer.target transfer
    else (node, abort)

abbrev pub begin_transfer : Node → ℤ → Status × Node × Transfer
begin_transfer node target =
    let (node', transfer) = check_progress node (record { state = pending; target = target }) in
    (ok, node', transfer)

-- Without a target the best follower is picked; none is found if no match index is above 0.
unfoldable pub begin_picked : Node → Transfer → ℤ → Status × Node × Transfer
begin_picked node transfer (pos target) = begin_transfer node (pos target)
begin_picked node transfer (negsuc i) = (invalid_arg, node, transfer)

unfoldable pub transfer_to : Node → Transfer → ℤ → Status × Node × Transfer
transfer_to node transfer (pos target) =
    if target == node.node_id
    then (invalid_arg, node, transfer)
    else if leb node.num_nodes target
    then (invalid_arg, node, transfer)
    else begin_transfer node (pos target)
transfer_to node transfer (negsuc i) =
    begin_picked node transfer
      (pick_target node.num_nodes 0 node.node_id node.match_index 0 (negsuc i))

unfoldable pub transfer_leadership : Node → ℤ → Transfer → Status × Node × Transfer
transfer_leadership node target transfer =
    if node.running
    then if is_leader_role node.role
      then transfer_to node transfer target
      else (not_leader, node, transfer)
    else (stopped, node, transfer)

unfoldable pub in_progress : Transfer → Bool
in_progress transfer = if is_idle_state transfer.state then false else true
