-- ===== src/Raft/Read/Tests.antt =====
-- A read of three nodes, acknowledged by one of them.
use first_principle_cs.Base.{[]}
use first_principle_cs.Raft.Commit.Tests.{boss}
use first_principle_cs.Raft.Read.{Reads, read_index}

abbrev asked_one : Reads
asked_one = (read_index boss 5 (record { pending = []; called = [] })).1
