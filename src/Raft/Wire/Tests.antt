-- ===== src/Raft/Wire/Tests.antt =====
-- One entry written and read back.
use first_principle_cs.Base.{◌≡◌, [], ◌∷◌, ◌++◌, some, arith}
use first_principle_cs.Raft.Types.{Entry}
use first_principle_cs.Raft.Log.Tests.{entry}
use first_principle_cs.Raft.Wire.{read_entry, write_entry}
use first_principle_cs.Raft.Wire.RoundTrip.{read_entry-write_entry}

abbrev sample : Entry
sample = entry 300 1 (7 ∷ 8 ∷ [])

read_entry-write_entry_example :
    read_entry (write_entry sample ++ 5 ∷ []) ≡ some (sample.term, sample.command, 5 ∷ [])
read_entry-write_entry_example = read_entry-write_entry sample (5 ∷ []) (omega arith) (omega arith)
