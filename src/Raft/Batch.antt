-- ===== src/Raft/Batch.antt =====
-- batch.c: many proposals at once, and applying in portions. `save` is what
-- `raft_storage_append_entry` returns for an entry. `none` is an access outside the log's array.
pub mod Entries
pub mod Rollback
mod Tests
use first_principle_cs.Base.{
  ℕ, zero, suc, ◌-◌, ◌+◌, List, [], ◌∷◌, ◌++◌, Option, none, some, Bool, true, false, ◌&&◌, ltb,
  if◌then◌else◌, length, set, add64, sub64,
}
use first_principle_cs.Raft.Types.{Status, ok, not_leader, stopped, invalid_arg, Entry, EntryType}
use first_principle_cs.Raft.Log
use first_principle_cs.Raft.Log.{Log}
use first_principle_cs.Raft.Node.{Node, is_leader_role}

abbrev pub batch_entry : ℕ → ℕ → List ℕ → Entry
batch_entry term index command = record {
  term = term;
  index = index;
  type = EntryType.command_entry;
  command = command;
}

-- Nothing is saved without storage.
abbrev pub save_status : Bool → (Entry → Status) → Entry → Status
save_status has_storage save entry = if has_storage then save entry else ok

abbrev pub fail_with : Status → Option Log → Option (Status × Log)
fail_with s none = none
fail_with s (some log) = some (s, log)

abbrev pub next_or_undo : Status → Option (Status × Log) → Log → ℕ → Option (Status × Log)
next_or_undo Status.ok rest log first_index = rest
next_or_undo s rest log first_index = fail_with s (Log.truncate_after log (sub64 first_index 1))

-- The loop over the commands: the first entry that cannot be saved undoes all.
unfoldable pub append_batch :
    Bool → (Entry → Status) → ℕ → ℕ → List (List ℕ) → Log → Option (Status × Log)
append_batch has_storage save term first_index [] log = some (ok, log)
append_batch has_storage save term first_index (command ∷ commands) log =
    let (log', index) = Log.append log term command in
    let rest = append_batch has_storage save term first_index commands log' in
    next_or_undo (save_status has_storage save (batch_entry term index command)) rest log'
      first_index

-- The leader's own match index follows its log, where the array is there.
abbrev pub finish_batch : Node → ℕ → Option (Status × Log) → Option (Status × Node × Option ℕ)
finish_batch node first_index none = none
finish_batch node first_index (some (Status.ok, log)) = some (
  ok,
  record node { log = log; match_index = set node.match_index node.node_id (Log.last_index log) },
  some first_index,
)
finish_batch node first_index (some (s, log)) = some (s, record node { log = log }, none)

abbrev pub batch_checked :
    (Entry → Status) → Node → List (List ℕ) → Option (Status × Node × Option ℕ)
batch_checked save node [] = some (invalid_arg, node, none)
batch_checked save node (command ∷ commands) =
    let first_index = (Log.append node.log node.current_term command).1 in
    finish_batch node first_index (
      append_batch node.has_storage save node.current_term first_index (command ∷ commands)
        node.log)

-- The last part is what goes through `out_first_index`.
unfoldable pub propose_batch :
    (Entry → Status) → Node → List (List ℕ) → Option (Status × Node × Option ℕ)
propose_batch save node commands =
    if node.running
    then if is_leader_role node.role
      then batch_checked save node commands
      else some (not_leader, node, none)
    else some (stopped, node, none)

unfoldable pub pending_apply_count : Node → ℕ
pending_apply_count node =
    if ltb node.last_applied node.commit_index then node.commit_index - node.last_applied else 0

-- How many entries to apply; 0 is no limit.
abbrev pub apply_limit : Node → ℕ → ℕ
apply_limit node max_entries =
    let available =
      if ltb node.last_applied node.commit_index
      then node.commit_index - node.last_applied
      else 0 in
    if ltb 0 max_entries && ltb max_entries available then max_entries else available

abbrev pub applied_with : Node → Entry → Node
applied_with node entry =
    if node.has_apply then record node { applied = node.applied ++ (entry ∷ []) } else node

-- The loop from index `i` on, for at most `n` rounds, up to the first entry that is missing: the node
-- and how many were applied.
unfoldable pub apply_some : ℕ → ℕ → Node → Node × ℕ
apply_some zero i node = (node, 0)
apply_some (suc n) i node = elim (Log.get node.log i) [
  | none ↦ (node, 0)
  | some entry ↦
      let (next, applied) = apply_some n (add64 i 1) (applied_with node entry) in
      (next, suc applied)
]

unfoldable pub apply_batch : Node → ℕ → ℕ × Node
apply_batch node max_entries =
    let (next, applied) =
      apply_some (apply_limit node max_entries) (add64 node.last_applied 1) node in
    (applied, record next { last_applied = add64 node.last_applied applied })
