-- ===== src/Engine/Memtable.antt =====
-- memtable.c: the skip list of recent writes.
use first_principle_cs.Base.{ℕ, zero, suc, ◌*◌, List, Bool, leb}
use first_principle_cs.Engine.SkipList.{SkipNode, SkipList, Status}
use first_principle_cs.Engine.SkipList

pub record Memtable : Type 0 where
  pub list : SkipList
  pub size_limit : ℕ
  pub seq_num : ℕ

abbrev pub memtable_size_limit : ℕ
memtable_size_limit = 4 * 1024 * 1024

abbrev pub memtable_create : ℕ → (ℕ → Bool) → Memtable
memtable_create zero coins = record {
  list = SkipList.create coins;
  size_limit = memtable_size_limit;
  seq_num = 0;
}
memtable_create (suc n) coins = record {
  list = SkipList.create coins;
  size_limit = suc n;
  seq_num = 0;
}

abbrev pub with_list : Memtable → Status × SkipList → Status × Memtable
with_list mt (s, list) = (s, record mt { list = list })

abbrev pub memtable_put : Memtable → List ℕ → List ℕ → Status × Memtable
memtable_put mt key value = with_list mt (SkipList.put mt.list key value)

abbrev pub memtable_get : Memtable → List ℕ → Status × List ℕ
memtable_get mt key = SkipList.get mt.list key

abbrev pub memtable_delete : Memtable → List ℕ → Status × Memtable
memtable_delete mt key = with_list mt (SkipList.delete mt.list key)

abbrev pub memtable_should_flush : Memtable → Bool
memtable_should_flush mt = leb mt.size_limit mt.list.memory_usage
