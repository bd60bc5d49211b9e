-- ===== src/Raft/Membership.antt =====
-- membership.c: adding and removing one node at a time. The configuration is one for the whole
-- process; a list that was never allocated is `none`. A node number is 32 bits wide in a command, in
-- two's complement, lowest byte first. What is asked of the storage is not part of the state.
pub mod Pending
mod Tests
use first_principle_cs.Base.{
  ℕ, zero, suc, ◌+◌, ◌-◌, ◌%◌, ◌^◌, ℤ, pos, negsuc, no_id, same_id, is_nonneg, List, [], ◌∷◌, ◌++◌,
  Option, none, some, Bool, true, false, ◌&&◌, ◌||◌, ltb, ◌==◌, if◌then◌else◌, length, take, u32,
}
use first_principle_cs.Raft.Types.{Status, ok, not_leader, invalid_arg, Entry, EntryType}
use first_principle_cs.Raft.Log
use first_principle_cs.Raft.Log.{Log}
use first_principle_cs.Raft.Node.{Node, is_leader_role}
use first_principle_cs.Base.Bytes.{to_bytes, from_bytes}

pub record ClusterConfig : Type 0 where
  pub nodes : Option (List ℤ)
  pub pending_node : ℤ
  pub pending_add : Bool

abbrev pub config_cmd_add : ℕ
config_cmd_add = 65

abbrev pub config_cmd_remove : ℕ
config_cmd_remove = 82

abbrev pub config_cmd_size : ℕ
config_cmd_size = 5

abbrev pub ids_from : ℕ → ℕ → List ℤ
ids_from zero i = []
ids_from (suc n) i = pos i ∷ ids_from n (suc i)

abbrev pub config_nodes : ClusterConfig → List ℤ
config_nodes config = elim config.nodes [ none ↦ [] | some ids ↦ ids ]

abbrev pub initialized : Node → ClusterConfig → Option (List ℤ) → ClusterConfig
initialized node config none =
    if ltb 0 node.num_nodes
    then record config { nodes = some (ids_from node.num_nodes 0) }
    else config
initialized node config (some ids) = config

unfoldable pub ensure_config_initialized : Node → ClusterConfig → ClusterConfig
ensure_config_initialized node config = initialized node config config.nodes

abbrev pub has_id : List ℤ → ℤ → Bool
has_id [] id = false
has_id (x ∷ xs) id = same_id x id || has_id xs id

abbrev pub id_to_word : ℤ → ℕ
id_to_word (pos n) = n % u32
id_to_word (negsuc n) = u32 - 1 - n % u32

abbrev pub word_to_id : ℕ → ℤ
word_to_id w = if ltb w (2 ^ 31) then pos w else negsuc (u32 - 1 - w)

abbrev pub config_command : ℕ → ℤ → List ℕ
config_command op id = op ∷ to_bytes 4 (id_to_word id)

-- The entry just appended is marked in its slot.
abbrev pub mark_config : List Entry → ℕ → List Entry
mark_config [] i = []
mark_config (e ∷ es) zero = record e { type = EntryType.config_entry } ∷ es
mark_config (e ∷ es) (suc i) = e ∷ mark_config es i

abbrev pub append_config : Node → List ℕ → Node
append_config node command =
    let log = (Log.append node.log node.current_term command).0 in
    record node { log = record log { slots = mark_config log.slots (log.count - 1) } }

unfoldable pub add_member : Node → ClusterConfig → ℤ → Status × Node × ClusterConfig
add_member node config id =
    if has_id (config_nodes config) id
    then (invalid_arg, node, config)
    else if is_nonneg config.pending_node
    then (invalid_arg, node, config)
    else (
      ok,
      append_config node (config_command config_cmd_add id),
      record config { pending_node = id; pending_add = true },
    )

unfoldable pub add_node : Node → ClusterConfig → ℤ → Status × Node × ClusterConfig
add_node node config id =
    if is_leader_role node.role
    then add_member node (ensure_config_initialized node config) id
    else (not_leader, node, config)

unfoldable pub remove_member : Node → ClusterConfig → ℤ → Status × Node × ClusterConfig
remove_member node config id =
    if has_id (config_nodes config) id
    then if is_nonneg config.pending_node then (invalid_arg, node, config) else (
      ok,
      append_config node (config_command config_cmd_remove id),
      record config { pending_node = id; pending_add = false },
    )
    else (invalid_arg, node, config)

unfoldable pub remove_node : Node → ClusterConfig → ℤ → Status × Node × ClusterConfig
remove_node node config id =
    if is_leader_role node.role
    then remove_member node (ensure_config_initialized node config) id
    else (not_leader, node, config)

unfoldable pub is_voting_member : Node → ClusterConfig → ℤ → Bool × ClusterConfig
is_voting_member node config id =
    let known = ensure_config_initialized node config in
    (has_id (config_nodes known) id || (known.pending_add && same_id known.pending_node id), known)

unfoldable pub is_transitioning : Node → ClusterConfig → Bool × ClusterConfig
is_transitioning node config =
    let known = ensure_config_initialized node config in (is_nonneg known.pending_node, known)

unfoldable pub get_cluster_size : Node → ClusterConfig → ℕ × ClusterConfig
get_cluster_size node config =
    let known = ensure_config_initialized node config in
    let size = length (config_nodes known) in
    (if known.pending_add && is_nonneg known.pending_node then size + 1 else size, known)

-- The first occurrence goes.
abbrev pub remove_id : List ℤ → ℤ → List ℤ
remove_id [] id = []
remove_id (x ∷ xs) id = let rest = remove_id xs id in if same_id x id then xs else x ∷ rest

abbrev pub with_nodes : Node → List ℤ → Node × ClusterConfig
with_nodes node ids = (
  record node { num_nodes = length ids },
  record { nodes = some ids; pending_node = no_id; pending_add = false },
)

unfoldable pub change_members : Node → ClusterConfig → ℕ → ℤ → Node × ClusterConfig
change_members node config op id =
    if op == config_cmd_add
    then with_nodes node (config_nodes config ++ (id ∷ []))
    else if op == config_cmd_remove
    then (
      record node { num_nodes = length (remove_id (config_nodes config) id) },
      record config {
        nodes = elim config.nodes [ none ↦ none | some ids ↦ some (remove_id ids id) ];
        pending_node = no_id;
        pending_add = false;
      },
    )
    else (node, record config { pending_node = no_id; pending_add = false })

abbrev pub is_config_entry : EntryType → Bool
is_config_entry EntryType.config_entry = true
is_config_entry EntryType.command_entry = false
is_config_entry EntryType.noop_entry = false

abbrev pub apply_command : Node → ClusterConfig → List ℕ → Node × ClusterConfig
apply_command node config [] = (node, config)
apply_command node config (op ∷ id) =
    change_members node (ensure_config_initialized node config) op
      (word_to_id (from_bytes (take 4 id)))

unfoldable pub apply_config_change : Node → ClusterConfig → Entry → Node × ClusterConfig
apply_config_change node config entry =
    if is_config_entry entry.type
    then if ltb (length entry.command) config_cmd_size
      then (node, config)
      else apply_command node config entry.command
    else (node, config)
