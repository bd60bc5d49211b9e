-- ===== src/Engine/Storage/Reads.antt =====
-- What a read of the engine finds after a write, and after one that failed.
use first_principle_cs.Base.{
  ℕ, ◌+◌, ◌<◌, ◌≡◌, ◌≢◌, refl, sym, ap, ◌∙◌, List, [], Option, none, some, Bool, true, Bool-cases,
  ◌⊎◌, inl, inr, u64,
}
use first_principle_cs.Engine.SkipList.{Status, ok, io_error}
use first_principle_cs.Engine.SkipList
use first_principle_cs.Engine.SkipList.Map.{Entry, entries, bury}
use first_principle_cs.Engine.SkipList.Put.{IsValid, put_refines}
use first_principle_cs.Engine.SkipList.Get.{
  lookup, read_entry, get_lem, get-put, changed, lookup-store_same, lookup-store_other,
}
use first_principle_cs.Engine.SkipList.Delete.{delete_refines}
use first_principle_cs.Engine.Storage.{
  Io, done, short_write, unsynced, WalFile, Storage, storage_put, storage_delete, storage_get,
  put_logged, delete_logged, or_levels, from_levels,
}

abbrev pub Levels : Type 0
Levels = List ℕ → Status × List ℕ × Bool

-- The write took place in the memtable, or it failed and left the memtable as it was.
abbrev pub Settled : Storage → Status × SkipList.SkipList → Status × Storage → Type 0
Settled db (s, list) (s', db') =
    ((s' ≡ s) × (db'.memtable ≡ record db.memtable { list = list }))
    ⊎ ((s' ≡ io_error) × (db'.memtable ≡ db.memtable))

pub put_logged-Settled :
    (io : Io) (db : Storage) (wal : Option WalFile) (key value : List ℕ)
    → Settled db (SkipList.put db.memtable.list key value) (put_logged io db wal key value)
put_logged-Settled io db none key value = inl (refl, refl)
put_logged-Settled done db (some w) key value = inl (refl, refl)
put_logged-Settled (short_write n) db (some w) key value = inr (refl, refl)
put_logged-Settled unsynced db (some w) key value = elim (Bool-cases w.sync_writes) [
  | inl h ↦ rw h (inr (refl, refl))
  | inr h ↦ rw h (inl (refl, refl))
]

delete_logged-Settled :
    (io : Io) (db : Storage) (wal : Option WalFile) (key : List ℕ)
    → Settled db (SkipList.delete db.memtable.list key) (delete_logged io db wal key)
delete_logged-Settled io db none key = inl (refl, refl)
delete_logged-Settled done db (some w) key = inl (refl, refl)
delete_logged-Settled (short_write n) db (some w) key = inr (refl, refl)
delete_logged-Settled unsynced db (some w) key = elim (Bool-cases w.sync_writes) [
  | inl h ↦ rw h (inr (refl, refl))
  | inr h ↦ rw h (inl (refl, refl))
]

-- What a read finds in a memtable, before the levels.
abbrev read : Levels → Storage → List ℕ → Status × List ℕ
read level_get db key = or_levels (SkipList.get db.memtable.list key) (level_get key)

-- A put of a non-empty key, whether the engine has a log or not and however the write to it ends: it
-- answers STATUS_OK, the key then reads as the value and every other key as before; or it answers
-- STATUS_IO_ERROR and every key reads as before.
pub storage_get-storage_put :
    (level_get : Levels) (io : Io) (db : Storage) (key value other : List ℕ)
    → IsValid db.memtable.list
    → key ≢ []
    → other ≢ []
    → other ≢ key
    → db.memtable.list.count + 1 < u64
    → let (s, db') = storage_put io db key value in
      ((s ≡ ok)
        × (storage_get level_get db' key ≡ (ok, value))
        × (storage_get level_get db' other ≡ storage_get level_get db other))
      ⊎ ((s ≡ io_error)
          × (storage_get level_get db' key ≡ storage_get level_get db key)
          × (storage_get level_get db' other ≡ storage_get level_get db other))
unfolding storage_put storage_get
storage_get-storage_put level_get io db key value other v h h' apart small =
    elim (put_logged-Settled io db db.wal key value) [
      | inl (s, m) ↦
          let (fine, valid, same) = put_refines db.memtable.list key value v h small in
          let (here, there) = get-put db.memtable.list key value other v h h' apart small in
          inl (
            s ∙ fine,
            ap (λ m. or_levels (SkipList.get m.list key) (level_get key)) m
                ∙ ap (λ r. or_levels r (level_get key)) here,
            ap (λ m. or_levels (SkipList.get m.list other) (level_get other)) m
                ∙ ap (λ r. or_levels r (level_get other)) there,
          )
      | inr (s, m) ↦ inr (
        s,
        ap (λ m. or_levels (SkipList.get m.list key) (level_get key)) m,
        ap (λ m. or_levels (SkipList.get m.list other) (level_get other)) m,
      )
    ]

-- A tombstone reads as no entry.
read_entry-bury :
    (key : List ℕ) (es : List Entry)
    → read_entry (lookup key (bury key es)) ≡ (SkipList.not_found, [])
read_entry-bury key es =
    ap read_entry (
      lookup-store_same (λ e. record e { deleted = true })
        (record { key = key; value = []; deleted = true }) (λ e. refl) es)
    ∙ buried (lookup key es)
  where
    buried :
        (o : Option Entry)
        → read_entry (
            some (
              changed
                (λ e. record e { deleted = true })
                (record { key = key; value = []; deleted = true })
                o))
          ≡ (SkipList.not_found, [])
    buried none = refl
    buried (some e) = refl

-- After a delete in the memtable, the key is not found and every other key reads as before.
get-delete :
    (list : SkipList.SkipList) (key other : List ℕ)
    → IsValid list
    → key ≢ []
    → other ≢ []
    → other ≢ key
    → list.count + 1 < u64
    → let list' = (SkipList.delete list key).1 in
      (SkipList.get list' key ≡ (SkipList.not_found, []))
      × (SkipList.get list' other ≡ SkipList.get list other)
get-delete list key other v h h' apart small =
    let (fine, valid, same) = delete_refines list key v h small in
    let list' = (SkipList.delete list key).1 in
    (
      get_lem list' key valid h
          ∙ ap (λ e. read_entry (lookup key e)) same
          ∙ read_entry-bury key (entries list.nodes),
      get_lem list' other valid h'
          ∙ ap (λ e. read_entry (lookup other e)) same
          ∙ ap read_entry (
              lookup-store_other (λ e. record e { deleted = true })
                (record { key = key; value = []; deleted = true }) (λ e. refl) other
                (entries list.nodes) apart)
          ∙ sym (get_lem list other v h'),
    )

-- A delete of a non-empty key, whether the engine has a log or not and however the write to it ends: it
-- answers STATUS_OK, the key then reads as the levels below the memtable answer for it, an older value of
-- theirs included, and every other key as before; or it answers STATUS_IO_ERROR and every key reads as
-- before.
pub storage_get-storage_delete :
    (level_get : Levels) (io : Io) (db : Storage) (key other : List ℕ)
    → IsValid db.memtable.list
    → key ≢ []
    → other ≢ []
    → other ≢ key
    → db.memtable.list.count + 1 < u64
    → let (s, db') = storage_delete io db key in
      ((s ≡ ok)
        × (storage_get level_get db' key ≡ from_levels (level_get key))
        × (storage_get level_get db' other ≡ storage_get level_get db other))
      ⊎ ((s ≡ io_error)
          × (storage_get level_get db' key ≡ storage_get level_get db key)
          × (storage_get level_get db' other ≡ storage_get level_get db other))
unfolding storage_delete storage_get
storage_get-storage_delete level_get io db key other v h h' apart small =
    elim (delete_logged-Settled io db db.wal key) [
      | inl (s, m) ↦
          let (fine, valid, same) = delete_refines db.memtable.list key v h small in
          let (here, there) = get-delete db.memtable.list key other v h h' apart small in
          inl (
            s ∙ fine,
            ap (λ m. or_levels (SkipList.get m.list key) (level_get key)) m
                ∙ ap (λ r. or_levels r (level_get key)) here,
            ap (λ m. or_levels (SkipList.get m.list other) (level_get other)) m
                ∙ ap (λ r. or_levels r (level_get other)) there,
          )
      | inr (s, m) ↦ inr (
        s,
        ap (λ m. or_levels (SkipList.get m.list key) (level_get key)) m,
        ap (λ m. or_levels (SkipList.get m.list other) (level_get other)) m,
      )
    ]
