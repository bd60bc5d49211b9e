-- ===== src/Raft.antt =====
-- projects/distributed/consensus/src: the Raft node.
pub mod Types
pub mod Log
pub mod Message
pub mod Node
pub mod Create
pub mod Wire
pub mod Replicate
pub mod Election
pub mod Commit
pub mod Follow
pub mod Receive
pub mod Safety
pub mod Batch
pub mod Membership
pub mod Read
pub mod Transfer
mod Tests
