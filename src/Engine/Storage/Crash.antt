-- ===== src/Engine/Storage/Crash.antt =====
-- A crash of the storage engine between or within its writes, and what opening it again finds.
use first_principle_cs.Base.{
  ℕ, zero, suc, ◌+◌, ◌≤◌, ◌<◌, ◌≡◌, ◌≢◌, refl, sym, ap, subst, ◌∙◌, List, [], ◌∷◌, ◌++◌, map, none,
  some, Bool, length, take, u64, arith,
}
use mathlib.Core.List.{append_assoc, append-nil}
use first_principle_cs.Engine.Compare.{default_compare, order_case}
use first_principle_cs.Engine.SkipList.{SkipList, Status, ok, not_found}
use first_principle_cs.Engine.SkipList
use first_principle_cs.Engine.SkipList.Map.{Entry, entries, store, assign, bury}
use first_principle_cs.Engine.SkipList.Put.{IsValid, create-IsValid, put_refines}
use first_principle_cs.Engine.SkipList.Get.{lookup, read_entry, get_lem}
use first_principle_cs.Engine.SkipList.Delete.{delete_refines}
use first_principle_cs.Engine.Memtable.{Memtable, memtable_create, memtable_put, memtable_delete}
use first_principle_cs.Engine.Wal
use first_principle_cs.Engine.Wal.{
  WalRecord, wal_record_put, wal_record_delete, encode, replay, wal_recover,
}
use first_principle_cs.Engine.Wal.Crash.{Fits, AllFit, encode_all, apply_all, wal_recover-torn}
use first_principle_cs.Engine.Storage.{
  done, WalFile, Storage, storage_put, storage_delete, storage_get, storage_open, recover_callback,
  open_wal, recovered_or, or_levels,
}

-- A client's write.
pub data Op : Type 0 where
  put : List ℕ → List ℕ → Op
  delete : List ℕ → Op

abbrev pub run_op : Storage → Op → Status × Storage
run_op db (put key value) = storage_put done db key value
run_op db (delete key) = storage_delete done db key

-- The writes one after the other, each of them written and synchronised.
unfoldable pub run : Storage → List Op → Storage
run db [] = db
run db (o ∷ os) = run (run_op db o).1 os

abbrev pub record_of : Op → WalRecord
record_of (put key value) = record { type = wal_record_put; key = key; value = value }
record_of (delete key) = record { type = wal_record_delete; key = key; value = [] }

-- The key is not empty, and the sizes fit into the record.
pub record IsWritable (o : Op) : Type 0 where
  pub has_key : (record_of o).key ≢ []
  pub fits : Fits (record_of o)

abbrev pub AllWritable : List Op → Type 0
AllWritable [] = Unit {0}
AllWritable (o ∷ os) = IsWritable o × AllWritable os

-- What the writes make of a sorted list of entries.
abbrev pub perform : List Entry → List Op → List Entry
perform es [] = es
perform es (put key value ∷ os) = perform (assign key value es) os
perform es (delete key ∷ os) = perform (bury key es) os

length-store :
    (change : Entry → Entry) (new : Entry) (es : List Entry)
    → length (store change new es) ≤ suc (length es)
length-store change new [] = omega arith
length-store change new (e ∷ es) =
    order_case (λ r. length r ≤ suc (length (e ∷ es))) (default_compare e.key new.key) _ _ _
      (λ _. omega (arith, length-store change new es)) (λ _. omega arith) (λ _. omega arith)

length-entries : (ns : List SkipList.SkipNode) → length (entries ns) ≡ length ns
length-entries [] = refl
length-entries (n ∷ ns) = ap suc (length-entries ns)

-- A write to a memtable, and its effect.
abbrev write : Memtable → Op → Status × Memtable
write mt (put key value) = memtable_put mt key value
write mt (delete key) = memtable_delete mt key

abbrev Written : Memtable → Op → Status × Memtable → Type 0
Written mt o (s, mt') =
    (s ≡ ok)
    × IsValid mt'.list
    × (entries mt'.list.nodes ≡ perform (entries mt.list.nodes) (o ∷ []))
    × (mt'.list.count ≤ suc mt.list.count)

pub counted_up :
    (list list' : SkipList) (change : Entry → Entry) (new : Entry)
    → IsValid list
    → IsValid list'
    → entries list'.nodes ≡ store change new (entries list.nodes)
    → list'.count ≤ suc list.count
counted_up list list' change new v v' same = omega (
  arith,
  v.counted,
  v'.counted,
  ap length same,
  length-store change new (entries list.nodes),
  length-entries list.nodes,
  length-entries list'.nodes,
)

write-Written :
    (mt : Memtable) (o : Op)
    → IsValid mt.list
    → IsWritable o
    → mt.list.count + 1 < u64
    → Written mt o (write mt o)
write-Written mt (put key value) v w small =
    let (fine, v', same) = put_refines mt.list key value v w.has_key small in
    (fine, v', same, counted_up mt.list _ _ _ v v' same)
write-Written mt (delete key) v w small =
    let (fine, v', same) = delete_refines mt.list key v w.has_key small in
    (fine, v', same, counted_up mt.list _ _ _ v v' same)

recover_callback-record_of :
    (mt : Memtable) (o : Op) → recover_callback mt (record_of o) ≡ write mt o
recover_callback-record_of mt (put key value) = refl
recover_callback-record_of mt (delete key) = refl

-- A memtable that holds what the writes make of the entries, with room for more.
abbrev Holds : List Entry → Memtable → Type 0
Holds es mt = IsValid mt.list × (entries mt.list.nodes ≡ es)

perform_cons :
    (e : List Entry) (o : Op) (os : List Op) → perform (perform e (o ∷ [])) os ≡ perform e (o ∷ os)
perform_cons e (put key value) os = refl
perform_cons e (delete key) os = refl

apply_write :
    (mt : Memtable) (o : Op) (rs : List WalRecord) (p : Status × Memtable)
    → recover_callback mt (record_of o) ≡ p
    → p.0 ≡ ok
    → apply_all recover_callback mt (record_of o ∷ rs) ≡ apply_all recover_callback p.1 rs
apply_write mt o rs (Status.ok, mt') e h =
    ap (λ q. Wal.then_next recover_callback q (λ ctx. apply_all recover_callback ctx rs)) e
apply_write mt o rs (Status.not_found, mt') e h = cc
apply_write mt o rs (Status.corruption, mt') e h = cc
apply_write mt o rs (Status.io_error, mt') e h = cc
apply_write mt o rs (Status.invalid_arg, mt') e h = cc
apply_write mt o rs (Status.no_memory, mt') e h = cc

-- The replay of the writes' records has the writes' effect.
apply_all-Holds :
    (os : List Op) (mt : Memtable) (es : List Entry)
    → AllWritable os
    → Holds es mt
    → mt.list.count + length os < u64
    → (mt' : Memtable) × (apply_all recover_callback mt (map record_of os) ≡ some (ok, mt'))
      × Holds (perform es os) mt'
apply_all-Holds [] mt es w (v, same) small = (mt, refl, (v, same))
apply_all-Holds (o ∷ os) mt es w (v, same) small =
    let (fine, v', same', counted) = write-Written mt o v w.0 (omega arith) in
    let next = (write mt o).1 in
    let (mt', replayed, holds) =
      apply_all-Holds os next (perform (entries mt.list.nodes) (o ∷ [])) w.1 (v', same')
        (omega arith) in
    (
      mt',
      apply_write mt o (map record_of os) (write mt o) (recover_callback-record_of mt o) fine
          ∙ replayed,
      subst (λ e. Holds e mt')
          (perform_cons (entries mt.list.nodes) o os ∙ ap (λ e. perform e (o ∷ os)) same) holds,
    )

-- The engine after its log was found empty.
abbrev pub fresh : ℕ → (ℕ → Bool) → Bool → Storage
fresh size_limit coins sync_writes = record {
  memtable = memtable_create size_limit coins;
  wal = some (open_wal sync_writes []);
}

abbrev pub log_of : Storage → List ℕ
log_of db = elim db.wal [ none ↦ [] | some w ↦ w.bytes ]

abbrev Logged : List ℕ → Storage → Type 0
Logged bytes db = (w : WalFile) × (db.wal ≡ some w) × (w.bytes ≡ bytes)

run_op-write :
    (db : Storage) (bytes : List ℕ) (o : Op)
    → Logged bytes db
    → ((run_op db o).1.memtable ≡ (write db.memtable o).1)
      × Logged (bytes ++ encode (record_of o)) (run_op db o).1
unfolding storage_put storage_delete
run_op-write db bytes (put key value) (w, h, b) =
    rw h (refl, (_, refl, ap (λ x. x ++ encode (record_of (put key value))) b))
run_op-write db bytes (delete key) (w, h, b) =
    rw h (refl, (_, refl, ap (λ x. x ++ encode (record_of (delete key))) b))

-- The writes have their effect on the memtable, and leave their records in the log.
run-Holds :
    (os : List Op) (db : Storage) (es : List Entry) (bytes : List ℕ)
    → AllWritable os
    → Holds es db.memtable
    → Logged bytes db
    → db.memtable.list.count + length os < u64
    → Holds (perform es os) (run db os).memtable
      × Logged (bytes ++ encode_all (map record_of os)) (run db os)
unfolding run
run-Holds [] db es bytes w h (f, l, b) small = (h, (f, l, b ∙ sym (append-nil bytes)))
run-Holds (o ∷ os) db es bytes w (v, same) l small =
    let (fine, v', same', counted) = write-Written db.memtable o v w.0 (omega arith) in
    let (memory, logged) = run_op-write db bytes o l in
    let (holds, logged') =
      run-Holds os (run_op db o).1 (perform es (o ∷ [])) (bytes ++ encode (record_of o)) w.1
        (subst (Holds (perform es (o ∷ []))) (sym memory)
          (v', same' ∙ ap (λ e. perform e (o ∷ [])) same))
        logged (omega (arith, counted, ap (λ (m : Memtable). m.list.count) memory)) in
    (
      subst (λ e. Holds e (run (run_op db o).1 os).memtable) (perform_cons es o os) holds,
      subst (λ b. Logged b (run (run_op db o).1 os))
          (append_assoc bytes (encode (record_of o)) (encode_all (map record_of os))) logged',
    )

create-Holds : (size_limit : ℕ) (coins : ℕ → Bool) → Holds [] (memtable_create size_limit coins)
unfolding SkipList.create
create-Holds zero coins = (create-IsValid coins, refl)
create-Holds (suc n) coins = (create-IsValid coins, refl)

create-count :
    (size_limit : ℕ) (coins : ℕ → Bool) → (memtable_create size_limit coins).list.count ≡ 0
unfolding SkipList.create
create-count zero coins = refl
create-count (suc n) coins = refl

AllWritable-AllFit : (os : List Op) → AllWritable os → AllFit (map record_of os)
AllWritable-AllFit [] w = tt
AllWritable-AllFit (o ∷ os) (w, ws) = (w.fits, AllWritable-AllFit os ws)

log_of-Logged : (bytes : List ℕ) (db : Storage) → Logged bytes db → log_of db ≡ bytes
log_of-Logged bytes db (w, h, b) = rw h b

-- Two engines that every reader finds the same in, whatever the levels below them answer.
abbrev pub SameReads : Storage → Storage → Type 0
SameReads db db' =
    (level_get : List ℕ → Status × List ℕ × Bool) (key : List ℕ)
    → key ≢ []
    → storage_get level_get db' key ≡ storage_get level_get db key

Holds-SameReads :
    (es : List Entry) (db db' : Storage)
    → Holds es db.memtable
    → Holds es db'.memtable
    → SameReads db db'
unfolding storage_get
Holds-SameReads es db db' (v, same) (v', same') level_get key h =
    ap (λ r. or_levels r (level_get key))
      (get_lem db'.memtable.list key v' h
        ∙ ap (λ e. read_entry (lookup key e)) (same' ∙ sym same)
        ∙ sym (get_lem db.memtable.list key v h))

-- Any writes of non-empty keys are made, each of them completely, and the machine stops in the middle of
-- the next one, when only a part of its record has reached the log, or none of it. Then opening the
-- engine from that log succeeds, every key reads as it did before the stop, and the entries of the
-- memtable are those that the finished writes make, in order, of the empty list. The random choices of
-- the skip lists and the options may differ. (Fewer than 2^64 writes; sizes that fit into a record.)
pub storage_open-crash :
    (size_limit size_limit' : ℕ) (coins coins' : ℕ → Bool) (sync_writes sync_writes' : Bool)
    (os : List Op) (next : Op) (k : ℕ)
    → AllWritable os
    → IsWritable next
    → length os < u64
    → k < length (encode (record_of next))
    → let db = run (fresh size_limit coins sync_writes) os in
      (db' : Storage) × (storage_open size_limit' coins' sync_writes'
          (some (log_of db ++ take k (encode (record_of next))))
        ≡ some (some db'))
      × SameReads db db'
      × (entries db'.memtable.list.nodes ≡ perform [] os)
unfolding storage_open
storage_open-crash size_limit size_limit' coins coins' sync_writes sync_writes' os next k w w' small
      cut =
    let bytes =
      log_of (run (fresh size_limit coins sync_writes) os) ++ take k (encode (record_of next)) in
    let (holds, logged) =
      run-Holds os (fresh size_limit coins sync_writes) [] [] w (create-Holds size_limit coins)
        (_, refl, refl) (omega (arith, create-count size_limit coins)) in
    let (mt, replayed, holds') =
      apply_all-Holds os (memtable_create size_limit' coins') [] w (create-Holds size_limit' coins')
        (omega (arith, create-count size_limit' coins')) in
    let db' : Storage = record { memtable = mt; wal = some (open_wal sync_writes' bytes) } in
    (
      db',
      ap
            (λ b. recovered_or sync_writes' bytes (
              wal_recover recover_callback (memtable_create size_limit' coins')
                (b ++ take k (encode (record_of next)))))
            (log_of-Logged _ (run (fresh size_limit coins sync_writes) os) logged)
          ∙ ap (recovered_or sync_writes' bytes) (
              wal_recover-torn recover_callback (memtable_create size_limit' coins')
                (map record_of os) (record_of next) k (AllWritable-AllFit os w) w'.fits cut
              ∙ replayed),
      Holds-SameReads (perform [] os) (run (fresh size_limit coins sync_writes) os) db' holds
          holds',
      holds'.1,
    )
