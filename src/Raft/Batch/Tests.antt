-- ===== src/Raft/Batch/Tests.antt =====
-- Two commands at once, to a leader whose entries are saved.
use first_principle_cs.Base.{ℕ, ◌≡◌, refl, [], ◌∷◌, Option, some, true, arith}
use first_principle_cs.Raft.Types.{Status, ok, io_error, Entry}
use first_principle_cs.Raft.Node.{Node}
use first_principle_cs.Raft.Log.Tests.{three-IsValid}
use first_principle_cs.Raft.Commit.Tests.{boss}
use first_principle_cs.Raft.Batch.{propose_batch}
use first_principle_cs.Raft.Batch.Rollback.{Batched, propose_batch-Batched}

abbrev saving_boss : Node
saving_boss = record boss { has_storage = true }

-- The disk is full at the second entry.
abbrev save_one : Entry → Status
save_one e = elim e.command [ [] ↦ io_error | x ∷ xs ↦ ok ]

propose_batch-Batched_example :
    (s : Status) × (next : Node) × (out : Option ℕ) × (propose_batch save_one saving_boss
        ((1 ∷ []) ∷ [] ∷ [])
      ≡ some (s, next, out))
    × Batched save_one saving_boss ((1 ∷ []) ∷ [] ∷ []) s next out
propose_batch-Batched_example =
    propose_batch-Batched save_one saving_boss (1 ∷ []) ([] ∷ []) refl refl three-IsValid
      (omega arith)
