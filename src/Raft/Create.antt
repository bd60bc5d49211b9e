-- ===== src/Raft/Create.antt =====
-- `raft_create` of raft.c and `raft_recover` of recovery.c. A data directory is what storage.c and
-- snapshot.c read from it: the snapshot's index and term, the saved term and vote, and the records of
-- the log with the status that their iteration ends with. Opening it succeeds.
use first_principle_cs.Base.{
  ℕ, zero, suc, ℤ, pos, negsuc, no_id, List, [], ◌∷◌, Option, none, some, Bool, false, true, ◌==◌,
  if◌then◌else◌, replicate,
}
use first_principle_cs.Raft.Types.{Status, corruption, not_found, Role, Entry}
use first_principle_cs.Raft.Log
use first_principle_cs.Raft.Log.{Log}
use first_principle_cs.Raft.Node.{Node}

-- What `raft_storage_load_state` gives: the saved term and vote, or a status that is not RAFT_OK.
pub data SavedState : Type 0 where
  loaded : ℕ → ℤ → SavedState
  failed : Status → SavedState

pub record Disk : Type 0 where
  pub snapshot : Option (ℕ × ℕ)
  pub state : SavedState
  pub records : List (ℕ × ℕ × List ℕ)
  pub ends : Status

pub record Config : Type 0 where
  pub node_id : ℤ
  pub num_nodes : ℤ
  pub has_apply : Bool
  pub has_send : Bool
  pub data_dir : Option Disk

unfoldable pub fresh_node : Config → ℕ → ℕ → Entry → (ℕ → ℕ) → Node
fresh_node config id n fresh rand = record {
  node_id = id;
  num_nodes = n;
  has_apply = config.has_apply;
  has_send = config.has_send;
  role = Role.follower;
  current_term = 0;
  voted_for = no_id;
  commit_index = 0;
  last_applied = 0;
  next_index = [];
  match_index = [];
  log = Log.create fresh;
  running = false;
  current_leader = no_id;
  votes_received = 0;
  votes_granted = replicate n false;
  election_timeout_ms = 0;
  election_timer_ms = 0;
  heartbeat_timer_ms = 0;
  has_storage = false;
  sent = [];
  applied = [];
  saved = [];
  rand = rand;
}

-- The log starts behind the snapshot.
unfoldable pub from_snapshot : Node → Option (ℕ × ℕ) → Node
from_snapshot node none = node
from_snapshot node (some (last_index, last_term)) = record node {
  log = record node.log { base_index = last_index; base_term = last_term };
}

-- The records are appended one by one, until one does not land at its own index.
unfoldable pub recover_entries : List (ℕ × ℕ × List ℕ) → Status → Log → Status × Log
recover_entries [] ends log = (ends, log)
recover_entries ((term, index, command) ∷ records) ends log =
    let (log', out_index) = Log.append log term command in
    let rest = recover_entries records ends log' in
    if out_index == index then rest else (corruption, log')

unfoldable pub recover_log : Disk → Node → Status × Node
recover_log disk node =
    let (s, log) = recover_entries disk.records disk.ends node.log in (s, record node { log = log })

unfoldable pub recover_state : Disk → Node → SavedState → Status × Node
recover_state disk node (loaded term voted_for) =
    recover_log disk (record node { current_term = term; voted_for = voted_for })
recover_state disk node (failed not_found) = recover_log disk node
recover_state disk node (failed s) = (s, node)

unfoldable pub recover : Node → Disk → Status × Node
recover node disk = recover_state disk (from_snapshot node disk.snapshot) disk.state

-- The status of the recovery is not looked at.
unfoldable pub with_storage : Node → Option Disk → Node
with_storage node none = node
with_storage node (some disk) = (recover (record node { has_storage = true }) disk).1

unfoldable pub create_checked : Config → ℤ → ℤ → Entry → (ℕ → ℕ) → Option Node
create_checked config (negsuc i) n fresh rand = none
create_checked config (pos i) (negsuc n) fresh rand = none
create_checked config (pos i) (pos zero) fresh rand = none
create_checked config (pos i) (pos (suc n)) fresh rand =
    some (with_storage (fresh_node config i (suc n) fresh rand) config.data_dir)

unfoldable pub create : Config → Entry → (ℕ → ℕ) → Option Node
create config fresh rand = create_checked config config.node_id config.num_nodes fresh rand
