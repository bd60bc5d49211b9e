-- ===== src/Raft/Node.antt =====
-- raft.h, raft.c and the random timeouts of timer.c: the state of a node, and the operations on it
-- that send nothing. Pointers are not NULL and allocation succeeds. `sent` and `applied` list the
-- calls of `send_fn` and `apply_fn`, and `saved` those of `raft_storage_save_state`; callbacks do not
-- change the node. `rand` is what the later calls of the C library's `rand` return. NULL arrays are [].
pub mod Apply
use first_principle_cs.Base.{
  ℕ, zero, suc, ◌+◌, ◌-◌, ◌%◌, ℤ, pos, negsuc, no_id, List, [], ◌∷◌, ◌++◌, Option, none, some, Bool,
  true, false, ◌==◌, if◌then◌else◌, replicate, drop, add64,
}
use first_principle_cs.Raft.Types.{
  Status, ok, Role, Entry, election_timeout_min_ms, election_timeout_max_ms,
}
use first_principle_cs.Raft.Log
use first_principle_cs.Raft.Log.{Log}
use first_principle_cs.Raft.Message.{Message}

pub record Node : Type 0 where
  pub node_id : ℕ
  pub num_nodes : ℕ
  pub has_apply : Bool
  pub has_send : Bool
  pub role : Role
  pub current_term : ℕ
  pub voted_for : ℤ
  pub commit_index : ℕ
  pub last_applied : ℕ
  pub next_index : List ℕ
  pub match_index : List ℕ
  pub log : Log
  pub running : Bool
  pub current_leader : ℤ
  pub votes_received : ℕ
  pub votes_granted : List Bool
  pub election_timeout_ms : ℕ
  pub election_timer_ms : ℕ
  pub heartbeat_timer_ms : ℕ
  pub has_storage : Bool
  pub sent : List (ℤ × Message)
  pub applied : List Entry
  pub saved : List (ℕ × ℤ)
  pub rand : ℕ → ℕ

unfoldable pub become_leader : Node → Status × Node
become_leader node =
    let last_index = Log.last_index node.log in
    (
      ok,
      record node {
        role = Role.leader;
        current_leader = pos node.node_id;
        next_index = replicate node.num_nodes (add64 last_index 1);
        match_index = replicate node.num_nodes 0;
        commit_index = if node.num_nodes == 1 then last_index else node.commit_index;
      },
    )

unfoldable pub start : Node → Status × Node
start node =
    if node.running
    then (ok, node)
    else if node.num_nodes == 1
    then become_leader (record node { running = true })
    else (ok, record node { running = true })

unfoldable pub stop : Node → Status × Node
stop node = (ok, record node { running = false })

abbrev pub is_leader_role : Role → Bool
is_leader_role Role.leader = true
is_leader_role Role.follower = false
is_leader_role Role.candidate = false
is_leader_role Role.pre_candidate = false

unfoldable pub is_leader : Node → Bool
is_leader node = is_leader_role node.role

unfoldable pub get_leader : Node → ℤ
get_leader node = if is_leader_role node.role then pos node.node_id else node.current_leader

abbrev pub with_entry : List Entry → Option Entry → List Entry
with_entry es none = es
with_entry es (some e) = es ++ (e ∷ [])

-- One round of the loop of `raft_apply_committed`.
unfoldable pub apply_next : Node → Node
apply_next node =
    let next = add64 node.last_applied 1 in
    record node { last_applied = next; applied = with_entry node.applied (Log.get node.log next) }

unfoldable pub apply_rounds : ℕ → Node → Node
unfolding apply_next
apply_rounds zero node = node
apply_rounds (suc n) node = apply_rounds n (apply_next node)

-- The loop runs while `last_applied < commit_index`.
unfoldable pub apply_committed : Node → Node
apply_committed node =
    if node.has_apply then apply_rounds (node.commit_index - node.last_applied) node else node

unfoldable pub random_election_timeout : ℕ → ℕ
random_election_timeout r =
    election_timeout_min_ms + r % (election_timeout_max_ms - election_timeout_min_ms + 1)

unfoldable pub reset_election_timer : Node → Node
unfolding random_election_timeout
reset_election_timer node = record node {
  election_timer_ms = 0;
  election_timeout_ms = random_election_timeout (node.rand 0);
  rand = λ k. node.rand (suc k);
}

abbrev pub is_ok : Status → Bool
is_ok Status.ok = true
is_ok s = false

-- What the calls of `raft_storage_save_state` leave behind of each other, when the `k`-th of them answers
-- `answers k`: a call that fails leaves the file as it was. The last one is what the file holds.
unfoldable pub on_disk : (ℕ → Status) → List (ℕ × ℤ) → List (ℕ × ℤ)
on_disk answers [] = []
on_disk answers (x ∷ xs) =
    let rest = on_disk (λ k. answers (suc k)) xs in if is_ok (answers 0) then x ∷ rest else rest

-- The storage is called, and its answer, a failure included, is not looked at.
unfoldable pub persist_state : Node → Node
persist_state node =
    if node.has_storage
    then record node { saved = node.saved ++ ((node.current_term, node.voted_for) ∷ []) }
    else node

-- `memset(votes_granted, 0, num_nodes)`.
abbrev pub cleared_votes : Node → List Bool
cleared_votes node = replicate node.num_nodes false ++ drop node.num_nodes node.votes_granted

-- Node numbers below `n`, but for `self`: the rounds of a loop over the peers.
abbrev pub peers_from : ℕ → ℕ → ℕ → List ℕ
peers_from zero i self = []
peers_from (suc n) i self =
    let rest = peers_from n (suc i) self in if i == self then rest else i ∷ rest

abbrev pub peers : Node → List ℕ
peers node = peers_from node.num_nodes 0 node.node_id

unfoldable pub send : Node → ℤ → Message → Node
send node peer message =
    if node.has_send then record node { sent = node.sent ++ ((peer, message) ∷ []) } else node

unfoldable pub send_all : List ℕ → Message → Node → Node
send_all [] message node = node
send_all (i ∷ is) message node = send_all is message (send node (pos i) message)

unfoldable pub broadcast : Node → Message → Node
broadcast node message = send_all (peers node) message node
