-- ===== src/Engine/Tests.antt =====
-- Concrete skip lists, logs and engines.
use first_principle_cs.Base.{
  ℕ, ◌≡◌, ◌≢◌, refl, List, [], ◌∷◌, ◌++◌, take, true, false, some, arith, ◌⊎◌,
}
use first_principle_cs.Base.Bytes.{to_bytes}
use first_principle_cs.Engine.SkipList.{SkipNode, SkipList, ok, io_error, get, put, delete, search}
use first_principle_cs.Engine.SkipList.Search.{Ascending, AllLevels, drop_below, search-drop_below}
use first_principle_cs.Engine.SkipList.Map.{entries, assign, bury}
use first_principle_cs.Engine.SkipList.Put.{IsValid, put_refines}
use first_principle_cs.Engine.SkipList.Get.{get-put}
use first_principle_cs.Engine.SkipList.Delete.{delete_refines}
use first_principle_cs.Engine.Bloom.{bloom_create, bloom_add, bloom_may_contain}
use first_principle_cs.Engine.Bloom.Contains.{
  add_all, bloom_may_contain-bloom_add, bloom_create-IsSized,
}
use first_principle_cs.Engine.Memtable.{Memtable}
use first_principle_cs.Engine.Wal.{encode, wal_recover}
use first_principle_cs.Engine.Wal.Crash.{encode_all, apply_all, wal_recover-torn}
use first_principle_cs.Engine.Storage.{
  Storage, short_write, done, recover_callback, open_wal, storage_open, storage_put, storage_delete,
  storage_get, from_levels,
}
use first_principle_cs.Engine.Storage.Crash.{
  Op, run, fresh, log_of, record_of, IsWritable, SameReads, perform, storage_open-crash,
}
use first_principle_cs.Engine.Storage.Reads.{
  Levels, storage_get-storage_put, storage_get-storage_delete,
}

-- The keys 10, 20 and 30, of one byte each, the second on two levels and deleted.
abbrev three_nodes : List SkipNode
three_nodes =
    (record { key = 10 ∷ []; value = 1 ∷ []; deleted = false; level = 1 })
    ∷ (record { key = 20 ∷ []; value = 2 ∷ []; deleted = true; level = 2 })
    ∷ (record { key = 30 ∷ []; value = 3 ∷ 3 ∷ []; deleted = false; level = 1 })
    ∷ []

abbrev three : SkipList
three = record { nodes = three_nodes; level = 2; count = 3; memory_usage = 1000; coins = λ k. true }

abbrev three-Ascending : Ascending three_nodes
three-Ascending = ((refl, (refl, tt)), ((refl, tt), (tt, tt)))

abbrev three-AllLevels : AllLevels 2 three_nodes
three-AllLevels =
    (omega arith, omega arith, (omega arith, omega arith, (omega arith, omega arith, tt)))

abbrev three-IsValid : IsValid three
three-IsValid = record {
  ascending = three-Ascending;
  leveled = three-AllLevels;
  positive = omega arith;
  bounded = omega arith;
  counted = refl;
}

nonempty : {x : ℕ} {xs : List ℕ} → (x ∷ xs) ≢ []
nonempty h = cc

search-drop_below_example : search 2 (25 ∷ []) three_nodes ≡ drop_below (25 ∷ []) three_nodes
search-drop_below_example =
    search-drop_below 1 2 (25 ∷ []) three_nodes three-Ascending three-AllLevels

put_refines_example :
    let (s, list) = put three (20 ∷ []) (9 ∷ []) in
    (s ≡ ok) × IsValid list × (entries list.nodes ≡ assign (20 ∷ []) (9 ∷ []) (entries three_nodes))
put_refines_example = put_refines three (20 ∷ []) (9 ∷ []) three-IsValid nonempty (omega arith)

get-put_example :
    (get (put three (25 ∷ []) (9 ∷ [])).1 (25 ∷ []) ≡ (ok, 9 ∷ []))
    × (get (put three (25 ∷ []) (9 ∷ [])).1 (30 ∷ []) ≡ get three (30 ∷ []))
get-put_example =
    get-put three (25 ∷ []) (9 ∷ []) (30 ∷ []) three-IsValid nonempty nonempty (λ h. cc)
      (omega arith)

delete_refines_example :
    let (s, list) = delete three (5 ∷ []) in
    (s ≡ ok) × IsValid list × (entries list.nodes ≡ bury (5 ∷ []) (entries three_nodes))
delete_refines_example = delete_refines three (5 ∷ []) three-IsValid nonempty (omega arith)

abbrev put_a : Op
put_a = Op.put (97 ∷ []) (1 ∷ 2 ∷ [])

abbrev delete_b : Op
delete_b = Op.delete (98 ∷ [])

put_a-IsWritable : IsWritable put_a
unfolding to_bytes
put_a-IsWritable = record { has_key = λ h. cc; fits = record { whole = omega arith } }

delete_b-IsWritable : IsWritable delete_b
unfolding to_bytes
delete_b-IsWritable = record { has_key = λ h. cc; fits = record { whole = omega arith } }

abbrev blank_memtable : Memtable
blank_memtable = record { list = three; size_limit = 100; seq_num = 0 }

-- Five of the bytes of the second record.
wal_recover-torn_example :
    wal_recover recover_callback blank_memtable
      (encode_all (record_of put_a ∷ []) ++ take 5 (encode (record_of delete_b)))
    ≡ apply_all recover_callback blank_memtable (record_of put_a ∷ [])
unfolding encode to_bytes
wal_recover-torn_example =
    wal_recover-torn recover_callback blank_memtable (record_of put_a ∷ []) (record_of delete_b) 5
      (put_a-IsWritable.fits, tt) delete_b-IsWritable.fits (omega arith)

storage_open-crash_example :
    let db = run (fresh 0 (λ k. false) true) (put_a ∷ delete_b ∷ []) in
    (db' : Storage) × (storage_open 0
        (λ k. true)
        false
        (some (log_of db ++ take 7 (encode (record_of put_a))))
      ≡ some (some db'))
    × SameReads db db'
    × (entries db'.memtable.list.nodes ≡ perform [] (put_a ∷ delete_b ∷ []))
unfolding encode to_bytes
storage_open-crash_example =
    storage_open-crash 0 0 (λ k. false) (λ k. true) true false (put_a ∷ delete_b ∷ []) put_a 7
      (put_a-IsWritable, (delete_b-IsWritable, tt)) put_a-IsWritable (omega arith) (omega arith)

abbrev old_value : Levels
old_value key = (ok, 7 ∷ [], false)

abbrev engine : Storage
engine = record { memtable = blank_memtable; wal = some (open_wal true []) }

storage_get-storage_put_example :
    let (s, db) = storage_put done engine (20 ∷ []) (9 ∷ []) in
    ((s ≡ ok)
      × (storage_get old_value db (20 ∷ []) ≡ (ok, 9 ∷ []))
      × (storage_get old_value db (30 ∷ []) ≡ storage_get old_value engine (30 ∷ [])))
    ⊎ ((s ≡ io_error)
        × (storage_get old_value db (20 ∷ []) ≡ storage_get old_value engine (20 ∷ []))
        × (storage_get old_value db (30 ∷ []) ≡ storage_get old_value engine (30 ∷ [])))
storage_get-storage_put_example =
    storage_get-storage_put old_value done engine (20 ∷ []) (9 ∷ []) (30 ∷ []) three-IsValid
      nonempty nonempty (λ h. cc) (omega arith)

storage_get-storage_delete_example :
    let (s, db) = storage_delete (short_write 3) engine (10 ∷ []) in
    ((s ≡ ok)
      × (storage_get old_value db (10 ∷ []) ≡ from_levels (old_value (10 ∷ [])))
      × (storage_get old_value db (30 ∷ []) ≡ storage_get old_value engine (30 ∷ [])))
    ⊎ ((s ≡ io_error)
        × (storage_get old_value db (10 ∷ []) ≡ storage_get old_value engine (10 ∷ []))
        × (storage_get old_value db (30 ∷ []) ≡ storage_get old_value engine (30 ∷ [])))
storage_get-storage_delete_example =
    storage_get-storage_delete old_value (short_write 3) engine (10 ∷ []) (30 ∷ []) three-IsValid
      nonempty nonempty (λ h. cc) (omega arith)

bloom_may_contain-bloom_add_example :
    bloom_may_contain (add_all (bloom_add (bloom_create 3) (97 ∷ [])) ((98 ∷ []) ∷ [])) (97 ∷ [])
    ≡ true
bloom_may_contain-bloom_add_example =
    bloom_may_contain-bloom_add (bloom_create 3) (97 ∷ []) ((98 ∷ []) ∷ [])
      (bloom_create-IsSized 3 (omega arith))
