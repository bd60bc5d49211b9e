-- ===== src/Raft/Read/Quorum.antt =====
-- A read is served only when enough nodes have acknowledged the leader.
use first_principle_cs.Raft.Node.{Node}
