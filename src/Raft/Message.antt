-- ===== src/Raft/Message.antt =====
-- rpc.h: the messages between nodes. A message that is sent is a value; what arrives is a `Packet`,
-- since `raft_receive_message` also meets buffers shorter than their structure or of another type.
use first_principle_cs.Base.{ℕ, ℤ, Bool, List}

pub record RequestVote : Type 0 where
  pub term : ℕ
  pub candidate_id : ℤ
  pub last_log_index : ℕ
  pub last_log_term : ℕ

pub record RequestVoteResponse : Type 0 where
  pub term : ℕ
  pub vote_granted : Bool

pub record AppendEntries : Type 0 where
  pub term : ℕ
  pub leader_id : ℤ
  pub prev_log_index : ℕ
  pub prev_log_term : ℕ
  pub leader_commit : ℕ
  pub entries_count : ℕ

pub record AppendEntriesResponse : Type 0 where
  pub term : ℕ
  pub success : Bool
  pub match_index : ℕ

pub record PreVote : Type 0 where
  pub term : ℕ
  pub candidate_id : ℤ
  pub last_log_index : ℕ
  pub last_log_term : ℕ

pub record PreVoteResponse : Type 0 where
  pub term : ℕ
  pub vote_granted : Bool

pub record TimeoutNow : Type 0 where
  pub term : ℕ
  pub leader_id : ℤ

-- `append_entries` carries the bytes that follow its header.
pub data Message : Type 0 where
  request_vote : RequestVote → Message
  request_vote_response : RequestVoteResponse → Message
  append_entries : AppendEntries → List ℕ → Message
  append_entries_response : AppendEntriesResponse → Message
  pre_vote : PreVote → Message
  pre_vote_response : PreVoteResponse → Message
  timeout_now : TimeoutNow → Message

pub data Packet : Type 0 where
  complete : Message → Packet
  malformed : Packet
