-- ===== src/Lib.antt =====
-- The Raft consensus library of projects/distributed/consensus, the storage engine of
-- projects/data/storage-engine as far as its writes, its log and its recovery go, and the transaction
-- manager of projects/data/tx-manager on top of it.
--
-- A node is a structure (raft.h) that is moved by calls: the timers' ticks, messages that arrive, and
-- the client's proposals. It answers by calling back: send_fn with a message for a peer, apply_fn with
-- a committed entry, and the storage with its term and vote. A cluster is several nodes and the
-- messages between them. The paths of Raft are from projects/distributed/consensus/src.
--
-- The storage engine keeps recent writes in a skip list (the memtable) and first appends each of them
-- to a log; opening the engine replays the log. The paths of Engine are from
-- projects/data/storage-engine/src. The transaction manager stores each committed write under a key
-- that carries the commit's timestamp, and reads the newest version up to a snapshot. The paths of Tx
-- are from projects/data/tx-manager/src.
--
-- Base: the shared names: Boolean tests, lists over the native numbers, machine words with their
--   wrap-around (Base/Words), integers as little-endian bytes (Base/Bytes).
-- Raft/Types, Raft/Message: types.h, param.h, rpc.h.
-- Raft/Log: log.c. The log is its array of slots, `count` of them in use, behind `base_index`. View
--   reads it as a list of entries (`contents`) under a well-formedness condition (`IsValid`), Truncate
--   treats the two cuts.
-- Raft/Node: raft.h, raft.c, and the random timeout of timer.c. The C library's `rand` is a stream of
--   numbers that is part of the node; the calls of send_fn, apply_fn and raft_storage_save_state are
--   the lists `sent`, `applied` and `saved`; `on_disk` picks from the latter the calls that succeeded.
--   Apply is about raft_apply_committed.
-- Raft/Create: raft_create and raft_recover (recovery.c); a data directory is a value of type `Disk`,
--   what storage.c and snapshot.c read from it.
-- Raft/Wire, Raft/Replicate, Raft/Follow: replication.c: the bytes of the entries in a message, the
--   leader's side with raft_propose, the follower's side with the leader's handling of the answers.
-- Raft/Election: election.c. Raft/Receive: its dispatch raft_receive_message, and timer.c.
-- Raft/Commit: commit.c; Advance and Median are about its two ways to find a majority's index.
-- Raft/Batch: batch.c (Entries, Rollback: what a failing batch leaves). Raft/Read: read.c (Events,
--   Quorum).
--   Raft/Transfer: transfer.c (Target). The pending reads and the state of a transfer are global in
--   the code, and a value beside the node here.
-- Raft/Membership: membership.c (Pending). Its configuration, global in the code, is again a value.
-- Raft/Safety: the cluster as a step relation (Cluster) and the safety of its elections (Leaders).
--   Ballot is the part of a node that voting touches and its invariant, Quiet, Effects, Handlers,
--   Deliver, Acts and Restart show what each operation does to it, Keep that the invariant survives.
--   Unsaved is about a vote whose save fails.
--
-- Engine/Compare, Engine/SkipList: skiplist.c. The nodes in order, each with its number of levels,
--   stand for the pointers; the results of rand are a stream of coins. Search is about the walk over
--   the levels, Map, Put, Get and Delete about the list as a sorted map.
-- Engine/Crc32, Engine/Wal: crc32.c and the record format and replay of wal.c (Crash is about a torn
--   log). Its loop runs on fuel, one round more than the file has bytes, and every record has more
--   than one byte; a replay's result is computed, not assumed.
-- Engine/Bloom: bloom.c; the array is its bits, the hash function is computed.
-- Engine/Memtable, Engine/Storage: memtable.c, storage.c and the writing side of wal.c; how a write to
--   the file ends is an argument. Crash is about recovery, Reads about reading after a write.
--
-- Tx/Version: version.c (RoundTrip, Order). Tx/WriteSet: tx.c.
-- Tx/Manager: tx_manager.c, conflict.c and visibility.c. A transaction is in its slot of active_txs
--   and is pointed to by its number; the loop of tx_get runs on as much fuel as there are entries,
--   and is `none` when the fuel is spent before it ends (Reads). Versions and Reads treat the search
--   of the storage, Writes what a commit adds to it,
--   Slots the invariant, Snapshot, Conflict, OwnWrites and Visible the isolation of transactions. Keys are
--   assumed not to be empty and not to contain the byte 0 there.
--
-- The runs of Raft/Safety do not change the membership. The code does not look at what
-- raft_storage_save_state answers, and neither does the model: in a run the answers are arbitrary, and a
-- node restarts from the calls that succeeded. The theorems about elections assume that all of them
-- succeed; a node that has lost a save can vote twice in a term.
--
-- Conventions. uint64_t wraps round at 2^64 (add64, sub64), and so do size_t values; a 32-bit node
-- number is an integer ℤ. Allocation succeeds and pointers are not NULL, except where NULL has a
-- meaning (a NULL command is empty, NULL callbacks are the flags has_send, has_apply, has_storage).
-- `none` is an access outside the log's array, where the code has undefined behaviour. Callbacks do
-- not call back into the node. Loops over counters are recursion on the number of rounds that the
-- loop makes, so that no fuel is needed: over peers, entries in a message, and indices of the log.
-- A step of a cluster asks that the node's term is below 2^64 - 1, the end of its counter; the
-- sources do not treat that end.
--
-- Not modelled: of the consensus library, snapshots and their files and storage.c's file formats; of
-- the storage engine, SSTables, levels, compaction, the cache, the manifest and the copies of Bloom
-- filters in files (what level.c answers to a read is an argument of Engine/Storage); of the
-- transaction manager, garbage collection, iterators, the records of its log and their recovery; the
-- other projects of the repository.
pub mod Base
pub mod Engine
pub mod Raft
pub mod Tx
