-- ===== src/Raft/Transfer/Tests.antt =====
-- A leader that hands over to the node that holds its whole log.
use first_principle_cs.Base.{ℕ, ◌<◌, ◌≤◌, ◌≡◌, ◌≢◌, ◌⊎◌, refl, pos, negsuc, no_id, get_or}
use first_principle_cs.Raft.Log
use first_principle_cs.Raft.Commit.Tests.{boss}
use first_principle_cs.Raft.Transfer.{
  Transfer, idle, transfer_leadership, transfer_to, begin_picked, check_progress, check_leader,
  check_target, pick_target,
}
use first_principle_cs.Raft.Transfer.Target.{Offered, transfer_leadership-Offered, pick_target_lem}

abbrev no_transfer : Transfer
no_transfer = record { state = idle; target = no_id }

transfer_leadership-Offered_example :
    Offered boss
      (transfer_leadership boss no_id no_transfer).1
      (transfer_leadership boss no_id no_transfer).2
unfolding transfer_leadership transfer_to begin_picked check_progress check_leader check_target
    pick_target Log.last_index
transfer_leadership-Offered_example = transfer_leadership-Offered boss no_id no_transfer refl

pick_target_lem_example :
    let picked = pick_target boss.num_nodes 0 boss.node_id boss.match_index 0 (negsuc 0) in
    ((picked ≡ negsuc 0)
      × ((j : ℕ) → j < boss.num_nodes → j ≢ boss.node_id → get_or boss.match_index j 0 ≡ 0))
    ⊎ ((t : ℕ) × (picked ≡ pos t)
        × (t < boss.num_nodes)
        × (t ≢ boss.node_id)
        × (0 < get_or boss.match_index t 0)
        × ((j : ℕ)
            → j < boss.num_nodes
            → j ≢ boss.node_id
            → get_or boss.match_index j 0 ≤ get_or boss.match_index t 0))
pick_target_lem_example = pick_target_lem boss 0
