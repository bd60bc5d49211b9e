-- ===== src/Raft/Safety.antt =====
-- At most one leader in each term, over all runs of a cluster of these nodes.
pub mod Ballot
pub mod Keep
pub mod Quiet
pub mod Effects
pub mod Handlers
pub mod Deliver
pub mod Acts
pub mod Restart
pub mod Unsaved
pub mod Cluster
pub mod Leaders
