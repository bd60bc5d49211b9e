-- ===== src/Raft/Types.antt =====
-- types.h and param.h of projects/distributed/consensus/src: status codes, roles, log entries.
use first_principle_cs.Base.{ℕ, List}

pub data Status : Type 0 where
  ok not_leader not_found io_error invalid_arg no_memory corruption stopped : Status

pub data Role : Type 0 where
  follower candidate leader pre_candidate : Role

pub data EntryType : Type 0 where
  command_entry config_entry noop_entry : EntryType

-- `command` holds `command_len` bytes; a NULL command is the empty list.
pub record Entry : Type 0 where
  pub term : ℕ
  pub index : ℕ
  pub type : EntryType
  pub command : List ℕ

abbrev pub log_initial_capacity : ℕ
log_initial_capacity = 64

abbrev pub election_timeout_min_ms : ℕ
election_timeout_min_ms = 150

abbrev pub election_timeout_max_ms : ℕ
election_timeout_max_ms = 300

abbrev pub heartbeat_interval_ms : ℕ
heartbeat_interval_ms = 50

abbrev pub max_entries_per_append : ℕ
max_entries_per_append = 100
