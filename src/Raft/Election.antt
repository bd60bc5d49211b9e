-- ===== src/Raft/Election.antt =====
-- election.c: voting, stepping down, heartbeats.

use first_principle_cs.Base.{
  ℕ, ◌+◌, ◌/◌, ℤ, pos, negsuc, no_id, same_id, is_nonneg, Bool, true, false, not, ◌&&◌, ◌||◌, ltb,
  leb, ◌==◌, if◌then◌else◌, get_or, set, add64, [],
}
use first_principle_cs.Raft.Types.{Status, ok, stopped, not_leader, invalid_arg, Role}
use first_principle_cs.Raft.Log
use first_principle_cs.Raft.Message.{
  RequestVote, RequestVoteResponse, AppendEntries, AppendEntriesResponse, PreVote, PreVoteResponse,
  TimeoutNow, request_vote, pre_vote, append_entries,
}
use first_principle_cs.Raft.Node.{
  Node, is_leader_role, become_leader, reset_election_timer, persist_state, cleared_votes,
  broadcast,
}

unfoldable pub step_down : Node → ℕ → Node
step_down node new_term = reset_election_timer (
    persist_state (record node {
      role = Role.follower;
      current_term = new_term;
      voted_for = no_id;
      current_leader = no_id;
      votes_received = 0;
      votes_granted = cleared_votes node;
    }))

unfoldable pub is_log_up_to_date : Node → ℕ → ℕ → Bool
is_log_up_to_date node last_log_term last_log_index =
    ltb (Log.last_term node.log) last_log_term
    || (last_log_term == Log.last_term node.log && leb (Log.last_index node.log) last_log_index)

-- Strictly more than half of the cluster.
abbrev pub has_majority : Node → Bool
has_majority node = ltb (node.num_nodes / 2) node.votes_received

-- The node as `raft_start_election` leaves it before it counts or sends.
unfoldable pub become_candidate : Node → Node
become_candidate node =
    let asking = persist_state (record node {
      role = Role.candidate;
      current_term = add64 node.current_term 1;
      voted_for = pos node.node_id;
      current_leader = no_id;
    }) in
    reset_election_timer (record asking {
      votes_received = 1;
      votes_granted = set (cleared_votes asking) asking.node_id true;
    })

abbrev pub vote_request : Node → RequestVote
vote_request node = record {
  term = node.current_term;
  candidate_id = pos node.node_id;
  last_log_index = Log.last_index node.log;
  last_log_term = Log.last_term node.log;
}

-- A candidate that is its own majority leads at once, any other asks its peers.
unfoldable pub campaign : Node → Status × Node
campaign candidate =
    if has_majority candidate
    then become_leader candidate
    else (ok, broadcast candidate (request_vote (vote_request candidate)))

unfoldable pub start_election : Node → Status × Node
start_election node = if node.running then campaign (become_candidate node) else (stopped, node)

unfoldable pub become_pre_candidate : Node → Node
become_pre_candidate node = reset_election_timer (record node {
  role = Role.pre_candidate;
  current_leader = no_id;
  votes_received = 1;
  votes_granted = set (cleared_votes node) node.node_id true;
})

abbrev pub pre_vote_request : Node → PreVote
pre_vote_request node = record {
  term = add64 node.current_term 1;
  candidate_id = pos node.node_id;
  last_log_index = Log.last_index node.log;
  last_log_term = Log.last_term node.log;
}

unfoldable pub sound_out : Node → Status × Node
sound_out asking =
    if has_majority asking
    then start_election asking
    else (ok, broadcast asking (pre_vote (pre_vote_request asking)))

unfoldable pub start_pre_vote : Node → Status × Node
start_pre_vote node =
    if node.running then sound_out (become_pre_candidate node) else (stopped, node)

-- Pre-votes change nothing.
unfoldable pub handle_pre_vote : Node → PreVote → Status × Node × PreVoteResponse
handle_pre_vote node request =
    let refusal : PreVoteResponse = record { term = node.current_term; vote_granted = false } in
    if is_nonneg node.current_leader && ltb node.election_timer_ms node.election_timeout_ms
    then (ok, node, refusal)
    else if ltb request.term node.current_term
    then (ok, node, refusal)
    else if is_log_up_to_date node request.last_log_term request.last_log_index
    then (ok, node, record refusal { vote_granted = true })
    else (ok, node, refusal)

-- The vote of node `from` is counted.
abbrev pub count_vote : Node → ℕ → Node
count_vote node from = record node {
  votes_granted = set node.votes_granted from true;
  votes_received = node.votes_received + 1;
}

unfoldable pub pre_vote_response_from : Node → ℕ → PreVoteResponse → Status × Node
pre_vote_response_from node from response =
    if ltb node.current_term response.term
    then (ok, step_down node response.term)
    else if response.vote_granted && not (get_or node.votes_granted from true)
    then if has_majority (count_vote node from)
      then start_election (count_vote node from)
      else (ok, count_vote node from)
    else (ok, node)

abbrev pub is_pre_candidate : Role → Bool
is_pre_candidate Role.pre_candidate = true
is_pre_candidate Role.follower = false
is_pre_candidate Role.candidate = false
is_pre_candidate Role.leader = false

abbrev pub is_candidate : Role → Bool
is_candidate Role.candidate = true
is_candidate Role.follower = false
is_candidate Role.leader = false
is_candidate Role.pre_candidate = false

abbrev pub is_follower : Role → Bool
is_follower Role.follower = true
is_follower Role.candidate = false
is_follower Role.leader = false
is_follower Role.pre_candidate = false

unfoldable pub handle_pre_vote_response : Node → ℤ → PreVoteResponse → Status × Node
handle_pre_vote_response node (negsuc i) response = (invalid_arg, node)
handle_pre_vote_response node (pos from) response =
    if leb node.num_nodes from
    then (invalid_arg, node)
    else if is_pre_candidate node.role
    then pre_vote_response_from node from response
    else (ok, node)

unfoldable pub handle_timeout_now : Node → TimeoutNow → Status × Node
handle_timeout_now node request =
    if node.running
    then if is_follower node.role
        && request.term == node.current_term
        && same_id request.leader_id node.current_leader
      then start_election node
      else (ok, node)
    else (stopped, node)

-- A node behind the message's term steps down to that term.
unfoldable pub catch_up : Node → ℕ → Node
catch_up node term = if ltb node.current_term term then step_down node term else node

abbrev pub can_vote : Node → ℤ → Bool
can_vote node candidate_id = same_id node.voted_for no_id || same_id node.voted_for candidate_id

unfoldable pub grant_vote : Node → RequestVote → Node
grant_vote node request =
    reset_election_timer (persist_state (record node { voted_for = request.candidate_id }))

unfoldable pub answer_vote : Node → RequestVote → Status × Node × RequestVoteResponse
answer_vote node request =
    let refusal : RequestVoteResponse = record { term = node.current_term; vote_granted = false } in
    if ltb request.term node.current_term
    then (ok, node, refusal)
    else if can_vote node request.candidate_id
        && is_log_up_to_date node request.last_log_term request.last_log_index
    then (ok, grant_vote node request, record refusal { vote_granted = true })
    else (ok, node, refusal)

unfoldable pub handle_request_vote : Node → RequestVote → Status × Node × RequestVoteResponse
handle_request_vote node request = answer_vote (catch_up node request.term) request

unfoldable pub vote_response_from : Node → ℕ → RequestVoteResponse → Status × Node
vote_response_from node from response =
    if ltb node.current_term response.term
    then (ok, step_down node response.term)
    else if ltb response.term node.current_term
    then (ok, node)
    else if response.vote_granted && not (get_or node.votes_granted from true)
    then if has_majority (count_vote node from)
      then become_leader (count_vote node from)
      else (ok, count_vote node from)
    else (ok, node)

unfoldable pub handle_request_vote_response : Node → ℤ → RequestVoteResponse → Status × Node
handle_request_vote_response node (negsuc i) response = (invalid_arg, node)
handle_request_vote_response node (pos from) response =
    if leb node.num_nodes from
    then (invalid_arg, node)
    else if is_candidate node.role
    then vote_response_from node from response
    else (ok, node)

-- A candidate or pre-candidate that hears from a leader becomes a follower.
abbrev pub yield_to_leader : Node → Node
yield_to_leader node =
    if is_candidate node.role || is_pre_candidate node.role
    then record node { role = Role.follower; votes_received = 0 }
    else node

-- The commit index goes no further than the log.
abbrev pub follow_commit : Node → ℕ → Node
follow_commit node leader_commit =
    let last_index = Log.last_index node.log in
    if ltb node.commit_index leader_commit
    then record node {
      commit_index = if ltb leader_commit last_index then leader_commit else last_index;
    }
    else node

unfoldable pub answer_heartbeat : Node → AppendEntries → Status × Node × AppendEntriesResponse
answer_heartbeat node request =
    let refusal : AppendEntriesResponse = record {
      term = node.current_term;
      success = false;
      match_index = 0;
    } in
    if ltb request.term node.current_term
    then (ok, node, refusal)
    else let heard =
        yield_to_leader
          (record (reset_election_timer node) { current_leader = request.leader_id }) in
      if request.entries_count == 0
      then (
        ok,
        follow_commit heard request.leader_commit,
        record refusal { success = true; match_index = Log.last_index node.log },
      )
      else (ok, heard, refusal)

unfoldable pub handle_append_entries : Node → AppendEntries → Status × Node × AppendEntriesResponse
handle_append_entries node request = answer_heartbeat (catch_up node request.term) request

unfoldable pub send_heartbeats : Node → Status × Node
send_heartbeats node =
    if is_leader_role node.role
    then (
      ok,
      broadcast node (
          append_entries
            (record {
              term = node.current_term;
              leader_id = pos node.node_id;
              prev_log_index = Log.last_index node.log;
              prev_log_term = Log.last_term node.log;
              leader_commit = node.commit_index;
              entries_count = 0;
            })
            []),
    )
    else (not_leader, node)
