-- ===== src/Raft/Follow.antt =====
-- The follower's side of replication.c, and the leader's handling of the answers. `none` is an access
-- outside the log's array.

use first_principle_cs.Base.{
  ℕ, zero, suc, ◌+◌, ◌-◌, ℤ, pos, negsuc, List, Option, none, some, Bool, true, false, ◌&&◌, ◌||◌,
  not, ltb, leb, ◌==◌, if◌then◌else◌, get_or, set, add64, sub64, min,
}
use first_principle_cs.Raft.Types.{Status, ok, invalid_arg, Role}
use first_principle_cs.Raft.Log
use first_principle_cs.Raft.Log.{Log}
use first_principle_cs.Raft.Message.{AppendEntries, AppendEntriesResponse}
use first_principle_cs.Raft.Node.{Node, is_leader_role, apply_committed}
use first_principle_cs.Raft.Wire.{read_entry}
use first_principle_cs.Raft.Election.{step_down, catch_up, is_candidate}
use first_principle_cs.Raft.Commit.{advance_commit_index}

abbrev pub append_missing : Log → ℕ → ℕ → List ℕ → Log
append_missing log index term command =
    if ltb (Log.last_index log) index then (Log.append log term command).0 else log

abbrev pub append_missing? : Option Log → ℕ → ℕ → List ℕ → Option Log
append_missing? none index term command = none
append_missing? (some log) index term command = some (append_missing log index term command)

abbrev pub conflicts : Log → ℕ → ℕ → Bool
conflicts log index term = not (Log.term_at log index == 0) && not (Log.term_at log index == term)

-- One entry: a conflicting one and all behind it go, and the new one is added if it is missing.
unfoldable pub store_entry : Log → ℕ → ℕ → List ℕ → Option Log
store_entry log index term command =
    append_missing?
      (if conflicts log index term then Log.truncate_after log (sub64 index 1) else some log) index
      term command

-- The loop over the entries, from number `i` on, at most `n` of them, as far as the bytes go.
unfoldable pub store_entries : ℕ → ℕ → ℕ → List ℕ → Log → Option Log
store_entries zero prev i bytes log = some log
store_entries (suc n) prev i bytes log = elim (read_entry bytes) [
  | none ↦ some log
  | some (term, command, rest) ↦ elim (store_entry log (add64 (add64 prev 1) i) term command) [
    | none ↦ none
    | some log' ↦ store_entries n prev (i + 1) rest log'
  ]
]

-- The log holds an entry of the given term at `prev_log_index`, or nothing comes before.
unfoldable pub prev_matches : Node → AppendEntries → Bool
prev_matches node request =
    request.prev_log_index == 0
    || (not (Log.term_at node.log request.prev_log_index == 0)
        && Log.term_at node.log request.prev_log_index == request.prev_log_term)

abbrev pub commit_limit : Log → AppendEntries → ℕ
commit_limit log request =
    min (min request.leader_commit (add64 request.prev_log_index request.entries_count))
      (Log.last_index log)

unfoldable pub commit_up_to : Node → AppendEntries → Node
commit_up_to node request =
    if ltb node.commit_index request.leader_commit
    then apply_committed (record node { commit_index = commit_limit node.log request })
    else node

-- Entries from a leader of the node's own term.
abbrev pub hear_leader : Node → AppendEntries → Node
hear_leader node request =
    let heard = record node { election_timer_ms = 0; current_leader = request.leader_id } in
    if is_candidate node.role
    then record heard { role = Role.follower; votes_received = 0 }
    else heard

abbrev pub Answer : Type 0
Answer = Option (Status × Node × AppendEntriesResponse)

unfoldable pub finish_entries : Node → AppendEntries → Option Log → Answer
finish_entries node request none = none
finish_entries node request (some log) = some (
  ok,
  commit_up_to (record node { log = log }) request,
  record { term = node.current_term; success = true; match_index = Log.last_index log },
)

unfoldable pub accept_entries : Node → AppendEntries → List ℕ → Answer
accept_entries node request bytes =
    if prev_matches node request
    then finish_entries node request
        (store_entries request.entries_count request.prev_log_index 0 bytes node.log)
    else some (
      ok,
      node,
      record { term = node.current_term; success = false; match_index = Log.last_index node.log },
    )

unfoldable pub answer_entries : Node → AppendEntries → List ℕ → Answer
answer_entries node request bytes =
    if ltb request.term node.current_term
    then some (ok, node, record { term = node.current_term; success = false; match_index = 0 })
    else accept_entries (hear_leader node request) request bytes

-- `bytes` is what follows the header in the message.
unfoldable pub handle_append_entries_with_log :
    Node → AppendEntries → List ℕ → Option (Status × Node × AppendEntriesResponse)
handle_append_entries_with_log node request bytes =
    answer_entries (catch_up node request.term) request bytes

-- A success moves the peer's indices up, never down; a failure moves its next index one back.
unfoldable pub record_match : Node → ℕ → ℕ → Node
record_match node from index =
    if ltb (get_or node.match_index from 0) index
    then record node {
      match_index = set node.match_index from index;
      next_index = set node.next_index from (add64 index 1);
    }
    else node

unfoldable pub back_up : Node → ℕ → Node
back_up node from =
    if ltb 1 (get_or node.next_index from 0)
    then record node { next_index = set node.next_index from (get_or node.next_index from 0 - 1) }
    else node

unfoldable pub entries_response_from : Node → ℕ → AppendEntriesResponse → Node
entries_response_from node from response =
    if ltb node.current_term response.term
    then step_down node response.term
    else if ltb response.term node.current_term
    then node
    else if response.success
    then (advance_commit_index (record_match node from response.match_index)).1
    else back_up node from

unfoldable pub handle_append_entries_response : Node → ℤ → AppendEntriesResponse → Status × Node
handle_append_entries_response node (negsuc i) response = (invalid_arg, node)
handle_append_entries_response node (pos from) response =
    if leb node.num_nodes from
    then (invalid_arg, node)
    else if is_leader_role node.role
    then (ok, entries_response_from node from response)
    else (ok, node)
