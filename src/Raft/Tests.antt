-- ===== src/Raft/Tests.antt =====
-- Concrete runs: a cluster of three nodes that elects node 0 in term 1.
use first_principle_cs.Base.{ℕ, ◌≡◌, refl, inl, pos, no_id, [], Option, none, some, true, arith}
use first_principle_cs.Raft.Types.{Status, ok, io_error, Entry, EntryType}
use first_principle_cs.Raft.Log
use first_principle_cs.Raft.Message.{
  Message, RequestVote, request_vote, request_vote_response, complete,
}
use first_principle_cs.Raft.Node.{
  Node, start, send, send_all, broadcast, reset_election_timer, random_election_timeout,
  persist_state, on_disk, become_leader,
}
use first_principle_cs.Raft.Create.{
  Config, Disk, create, create_checked, with_storage, fresh_node, recover, recover_state,
  recover_log, recover_entries, from_snapshot,
}
use first_principle_cs.Raft.Election.{
  start_election, become_candidate, campaign, handle_request_vote, answer_vote, catch_up,
  grant_vote, step_down, is_log_up_to_date, handle_request_vote_response, vote_response_from,
}
use first_principle_cs.Raft.Receive.{receive_message, receive_complete}
use first_principle_cs.Raft.Safety.Restart.{state_of}
use first_principle_cs.Raft.Safety.Ballot.{last_or}
use first_principle_cs.Raft.Safety.Cluster.{
  Answers, Cluster, update, Step, Reach, acts, delivers, here, next, starts, stands, Initial,
}
use first_principle_cs.Raft.Safety.Leaders.{
  Leads, Elected, leader-Elected, election_safety, votes_durable,
}
use first_principle_cs.Raft.Commit.Tests.{boss}

abbrev blank : Entry
blank = record { term = 0; index = 0; type = EntryType.command_entry; command = [] }

abbrev empty_disk : Disk
empty_disk = record { snapshot = none; state = state_of []; records = []; ends = ok }

abbrev config_of : ℕ → Config
config_of i = record {
  node_id = pos i;
  num_nodes = pos 3;
  has_apply = true;
  has_send = true;
  data_dir = some empty_disk;
}

abbrev rand_of : ℕ → ℕ → ℕ
rand_of i k = 7

-- The node that was made, or one like it.
abbrev made : Option Node → Node → Node
made none other = other
made (some node) other = node

abbrev received : Option (Status × Node) → Node → Node
received none other = other
received (some (s, node)) other = node

abbrev created : Cluster
created i =
    made (create (config_of i) blank (rand_of i)) (fresh_node (config_of i) i 3 blank (rand_of i))

abbrev started : Cluster
started = update created 0 (start (created 0)).1

abbrev asked : Cluster
asked = update started 0 (start_election (started 0)).1

abbrev question : Message
question =
    request_vote (record { term = 1; candidate_id = pos 0; last_log_index = 0; last_log_term = 0 })

abbrev voted : Cluster
voted = update asked 1 (received (receive_message (asked 1) (pos 0) (complete question)) (asked 1))

abbrev answer : Message
answer = request_vote_response (record { term = 1; vote_granted = true })

abbrev elected : Cluster
elected = update voted 0 (received (receive_message (voted 0) (pos 1) (complete answer)) (voted 0))

-- The disks work.
abbrev no_failure : Answers
no_failure i k = ok

created-Initial : Initial 3 created
unfolding create create_checked with_storage fresh_node recover recover_state recover_log
    recover_entries from_snapshot Log.create
created-Initial = record {
  config = config_of;
  disk = λ i. empty_disk;
  fresh = blank;
  rand = rand_of;
  numbered = λ i h. refl;
  among = λ i h. refl;
  opened = λ i h. refl;
  empty = λ i h. refl;
  created = λ i h. refl;
}

started-Step : Step no_failure 3 created started
unfolding create create_checked with_storage fresh_node recover recover_state recover_log
    recover_entries from_snapshot Log.create start
started-Step = acts 0 (omega arith) (omega arith) starts

asked-Step : Step no_failure 3 started asked
unfolding create create_checked with_storage fresh_node recover recover_state recover_log
    recover_entries from_snapshot Log.create start
asked-Step = acts 0 (omega arith) (omega arith) stands

voted-Step : Step no_failure 3 asked voted
unfolding create create_checked with_storage fresh_node recover recover_state recover_log
    recover_entries from_snapshot Log.create start start_election become_candidate campaign
    persist_state reset_election_timer random_election_timeout broadcast send_all send
    Log.last_index Log.last_term Log.term_or receive_message receive_complete handle_request_vote
    answer_vote catch_up grant_vote step_down is_log_up_to_date
voted-Step = delivers 1 0 question ok _ (omega arith) (omega arith) (omega arith) (inl refl) refl

elected-Step : Step no_failure 3 voted elected
unfolding create create_checked with_storage fresh_node recover recover_state recover_log
    recover_entries from_snapshot Log.create start start_election become_candidate campaign
    persist_state reset_election_timer random_election_timeout broadcast send_all send
    Log.last_index Log.last_term Log.term_or receive_message receive_complete handle_request_vote
    answer_vote catch_up grant_vote step_down is_log_up_to_date handle_request_vote_response
    vote_response_from become_leader
elected-Step = delivers 0 1 answer ok _ (omega arith) (omega arith) (omega arith) (inl refl) refl

run : Reach no_failure 3 created elected
run = next (next (next (next here started-Step) asked-Step) voted-Step) elected-Step

elected-Leads : Leads elected 0 1
unfolding create create_checked with_storage fresh_node recover recover_state recover_log
    recover_entries from_snapshot Log.create start start_election become_candidate campaign
    persist_state reset_election_timer random_election_timeout broadcast send_all send
    Log.last_index Log.last_term Log.term_or receive_message receive_complete handle_request_vote
    answer_vote catch_up grant_vote step_down is_log_up_to_date handle_request_vote_response
    vote_response_from become_leader
elected-Leads = (refl, refl)

election_safety_example : ◌≡◌ {A = ℕ} 0 0
election_safety_example =
    election_safety 0 0 1 (λ i k h. refl) (omega arith) created-Initial run here (omega arith)
      (omega arith) elected-Leads elected-Leads

leader-Elected_example : Elected no_failure 3 elected 0 1
leader-Elected_example =
    leader-Elected 0 1 (λ i k h. refl) (omega arith) created-Initial run (omega arith) elected-Leads

votes_durable_example :
    last_or (0, no_id) (on_disk (no_failure 1) (elected 1).saved)
    ≡ ((elected 1).current_term, (elected 1).voted_for)
votes_durable_example =
    votes_durable 1 (λ i k h. refl) (omega arith) created-Initial run (omega arith)

-- A leader of term 2 hears of an election in term 4 while its disk is full.
abbrev persistent : Node
persistent = record boss { has_storage = true }

abbrev plea : RequestVote
plea = record { term = 4; candidate_id = pos 1; last_log_index = 9; last_log_term = 4 }

abbrev disk_full : ℕ → Status
disk_full k = io_error
