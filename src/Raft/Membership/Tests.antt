-- ===== src/Raft/Membership/Tests.antt =====
-- Node 3 is added to a cluster of three.
use first_principle_cs.Base.{◌≡◌, ◌≢◌, refl, pos, no_id, [], ◌∷◌, none, true, false}
use first_principle_cs.Raft.Types.{ok}
use first_principle_cs.Raft.Commit.Tests.{boss}
use first_principle_cs.Raft.Membership.{
  ClusterConfig, add_node, add_member, ensure_config_initialized,
}
use first_principle_cs.Raft.Membership.Pending.{adds, removes, answer, after, add_node_exclusive}

abbrev no_config : ClusterConfig
no_config = record { nodes = none; pending_node = no_id; pending_add = false }

add_node_exclusive_example :
    let (s, node, config) =
      answer
        (removes boss (pos 1))
        (after (adds boss (pos 4) ∷ []) (add_node boss no_config (pos 3)).2) in
    (s ≢ ok) × (node ≡ boss) × (config.pending_node ≡ pos 3) × (config.pending_add ≡ true)
unfolding add_node add_member ensure_config_initialized
add_node_exclusive_example =
    add_node_exclusive boss no_config (pos 3) (adds boss (pos 4) ∷ []) (removes boss (pos 1)) refl
      refl
