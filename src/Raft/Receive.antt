-- ===== src/Raft/Receive.antt =====
-- `raft_receive_message` of election.c, and the ticks of timer.c: everything that moves a node.
use first_principle_cs.Base.{ℕ, ℤ, List, Option, none, some, ltb, leb, if◌then◌else◌, add64}
use first_principle_cs.Raft.Types.{Status, ok, stopped, invalid_arg, heartbeat_interval_ms}
use first_principle_cs.Raft.Message.{
  Message, request_vote, request_vote_response, append_entries, append_entries_response, pre_vote,
  pre_vote_response, timeout_now, Packet, complete, malformed, AppendEntries, AppendEntriesResponse,
}
use first_principle_cs.Raft.Node.{Node, is_leader_role, send}
use first_principle_cs.Raft.Replicate.{replicate_log}
use first_principle_cs.Raft.Election.{
  start_election, handle_pre_vote, handle_pre_vote_response, handle_timeout_now,
  handle_request_vote, handle_request_vote_response, handle_append_entries,
}
use first_principle_cs.Raft.Follow.{handle_append_entries_with_log, handle_append_entries_response}

-- An answer goes to the node that the message came from.
abbrev pub reply_entries :
    ℤ → Option (Status × Node × AppendEntriesResponse) → Option (Status × Node)
reply_entries from none = none
reply_entries from (some (s, node, response)) =
    some (s, send node from (append_entries_response response))

unfoldable pub receive_entries : Node → ℤ → AppendEntries → List ℕ → Option (Status × Node)
receive_entries node from request bytes =
    if ltb 0 request.entries_count
    then reply_entries from (handle_append_entries_with_log node request bytes)
    else reply_entries from (some (handle_append_entries node request))

-- `none` is an access outside the log's array.
unfoldable pub receive_complete : Node → ℤ → Message → Option (Status × Node)
receive_complete node from (request_vote request) =
    let (s, node', response) = handle_request_vote node request in
    some (s, send node' from (request_vote_response response))
receive_complete node from (request_vote_response response) =
    some (handle_request_vote_response node from response)
receive_complete node from (append_entries request bytes) = receive_entries node from request bytes
receive_complete node from (append_entries_response response) =
    some (handle_append_entries_response node from response)
receive_complete node from (pre_vote request) =
    let (s, node', response) = handle_pre_vote node request in
    some (s, send node' from (pre_vote_response response))
receive_complete node from (pre_vote_response response) =
    some (handle_pre_vote_response node from response)
receive_complete node from (timeout_now request) = some (handle_timeout_now node request)

unfoldable pub receive_message : Node → ℤ → Packet → Option (Status × Node)
receive_message node from malformed = some (invalid_arg, node)
receive_message node from (complete message) = receive_complete node from message

unfoldable pub due_election : Node → Status × Node
due_election node =
    if leb node.election_timeout_ms node.election_timer_ms then start_election node else (ok, node)

unfoldable pub tick_election : Node → ℕ → Status × Node
tick_election node elapsed_ms =
    if node.running
    then if is_leader_role node.role
      then (ok, node)
      else due_election
          (record node { election_timer_ms = add64 node.election_timer_ms elapsed_ms })
    else (stopped, node)

unfoldable pub due_heartbeat : Node → Status × Node
due_heartbeat node =
    if leb heartbeat_interval_ms node.heartbeat_timer_ms
    then replicate_log (record node { heartbeat_timer_ms = 0 })
    else (ok, node)

unfoldable pub tick_heartbeat : Node → ℕ → Status × Node
tick_heartbeat node elapsed_ms =
    if node.running
    then if is_leader_role node.role
      then due_heartbeat
          (record node { heartbeat_timer_ms = add64 node.heartbeat_timer_ms elapsed_ms })
      else (ok, node)
    else (stopped, node)

abbrev pub then_heartbeat : Status × Node → ℕ → Status × Node
then_heartbeat (Status.ok, node) elapsed_ms = tick_heartbeat node elapsed_ms
then_heartbeat (s, node) elapsed_ms = (s, node)

unfoldable pub tick : Node → ℕ → Status × Node
tick node elapsed_ms = then_heartbeat (tick_election node elapsed_ms) elapsed_ms
