-- ===== src/Engine/Storage.antt =====
-- storage.c over the memtable and the log: opening with recovery, writes, reads and iterators. The
-- SSTables below are what `level_get` of level.c answers: a status, a value, and whether the value is a
-- deletion. Directories, the manifest and opening the log succeed. A write to the log's file ends as
-- `Io` says.
pub mod Crash
pub mod Reads
use first_principle_cs.Base.{
  ℕ, ◌+◌, List, [], ◌∷◌, ◌++◌, Option, none, some, Bool, true, false, ◌==◌, if◌then◌else◌, length,
  take, add64,
}
use first_principle_cs.Engine.SkipList.{
  SkipNode, SkipList, Status, ok, not_found, corruption, io_error,
}
use first_principle_cs.Engine.SkipList
use first_principle_cs.Engine.Memtable.{
  Memtable, memtable_create, memtable_put, memtable_get, memtable_delete,
}
use first_principle_cs.Engine.Wal.{
  WalRecord, wal_record_put, wal_record_delete, encode, wal_recover,
}

-- Everything is written and synchronised; only so many bytes are written; `fsync` fails.
pub data Io : Type 0 where
  done : Io
  short_write : ℕ → Io
  unsynced : Io

pub record WalFile : Type 0 where
  pub bytes : List ℕ
  pub file_size : ℕ
  pub sync_writes : Bool

pub record Storage : Type 0 where
  pub memtable : Memtable
  pub wal : Option WalFile

abbrev pub wal_write_record : Io → WalFile → WalRecord → Status × WalFile
wal_write_record done wal r = (
  ok,
  record wal { bytes = wal.bytes ++ encode r; file_size = add64 wal.file_size (length (encode r)) },
)
wal_write_record (short_write n) wal r =
    (io_error, record wal { bytes = wal.bytes ++ take n (encode r) })
wal_write_record unsynced wal r = (
  if wal.sync_writes then io_error else ok,
  record wal { bytes = wal.bytes ++ encode r; file_size = add64 wal.file_size (length (encode r)) },
)

abbrev pub wal_write_put : Io → WalFile → List ℕ → List ℕ → Status × WalFile
wal_write_put io wal key value =
    wal_write_record io wal (record { type = wal_record_put; key = key; value = value })

abbrev pub wal_write_delete : Io → WalFile → List ℕ → Status × WalFile
wal_write_delete io wal key =
    wal_write_record io wal (record { type = wal_record_delete; key = key; value = [] })

-- Emptying the log; both calls may fail.
unfoldable pub wal_truncate : Bool → Bool → WalFile → Status × WalFile
wal_truncate false seeks wal = (io_error, wal)
wal_truncate true false wal = (io_error, record wal { bytes = [] })
wal_truncate true true wal = (ok, record wal { bytes = []; file_size = 0 })

abbrev pub with_memtable : Storage → Status × Memtable → Status × Storage
with_memtable db (s, mt) = (s, record db { memtable = mt })

-- The log is written first; only if that succeeds, the memtable.
abbrev pub after_wal : Storage → Status × WalFile → (Storage → Status × Storage) → Status × Storage
after_wal db (Status.ok, wal) next = next (record db { wal = some wal })
after_wal db (s, wal) next = (s, record db { wal = some wal })

abbrev pub put_memtable : List ℕ → List ℕ → Storage → Status × Storage
put_memtable key value db = with_memtable db (memtable_put db.memtable key value)

abbrev pub delete_memtable : List ℕ → Storage → Status × Storage
delete_memtable key db = with_memtable db (memtable_delete db.memtable key)

abbrev pub put_logged : Io → Storage → Option WalFile → List ℕ → List ℕ → Status × Storage
put_logged io db none key value = put_memtable key value db
put_logged io db (some wal) key value =
    after_wal db (wal_write_put io wal key value) (put_memtable key value)

abbrev pub delete_logged : Io → Storage → Option WalFile → List ℕ → Status × Storage
delete_logged io db none key = delete_memtable key db
delete_logged io db (some wal) key =
    after_wal db (wal_write_delete io wal key) (delete_memtable key)

unfoldable pub storage_put : Io → Storage → List ℕ → List ℕ → Status × Storage
storage_put io db key value = put_logged io db db.wal key value

unfoldable pub storage_delete : Io → Storage → List ℕ → Status × Storage
storage_delete io db key = delete_logged io db db.wal key

-- What the levels answer for a key.
abbrev pub from_levels : Status × List ℕ × Bool → Status × List ℕ
from_levels (Status.ok, value, true) = (not_found, [])
from_levels (Status.ok, value, false) = (ok, value)
from_levels (s, value, deleted) = (s, [])

abbrev pub or_levels : Status × List ℕ → Status × List ℕ × Bool → Status × List ℕ
or_levels (Status.ok, value) below = (ok, value)
or_levels (Status.not_found, value) below = from_levels below
or_levels (s, value) below = (s, [])

unfoldable pub storage_get : (List ℕ → Status × List ℕ × Bool) → Storage → List ℕ → Status × List ℕ
storage_get level_get db key = or_levels (memtable_get db.memtable key) (level_get key)

-- The callback of the recovery.
abbrev pub recover_callback : Memtable → WalRecord → Status × Memtable
recover_callback mt r =
    if r.type == wal_record_put
    then memtable_put mt r.key r.value
    else if r.type == wal_record_delete
    then memtable_delete mt r.key
    else (corruption, mt)

abbrev pub open_wal : Bool → List ℕ → WalFile
open_wal sync_writes bytes = record {
  bytes = bytes;
  file_size = length bytes;
  sync_writes = sync_writes;
}

abbrev pub recovered : Bool → List ℕ → Status × Memtable → Option Storage
recovered sync_writes bytes (Status.ok, mt) =
    some (record { memtable = mt; wal = some (open_wal sync_writes bytes) })
recovered sync_writes bytes (Status.not_found, mt) =
    some (record { memtable = mt; wal = some (open_wal sync_writes bytes) })
recovered sync_writes bytes (s, mt) = none

abbrev pub recovered_or : Bool → List ℕ → Option (Status × Memtable) → Option (Option Storage)
recovered_or sync_writes bytes none = none
recovered_or sync_writes bytes (some r) = some (recovered sync_writes bytes r)

-- `path` is the contents of the log in the directory, if a path is given; a log that does not exist is
-- empty. `some none` is the answer NULL.
unfoldable pub storage_open : ℕ → (ℕ → Bool) → Bool → Option (List ℕ) → Option (Option Storage)
storage_open size_limit coins sync_writes none =
    some (some (record { memtable = memtable_create size_limit coins; wal = none }))
storage_open size_limit coins sync_writes (some bytes) =
    recovered_or sync_writes bytes
      (wal_recover recover_callback (memtable_create size_limit coins) bytes)

-- The iterators step over the deleted entries of the memtable.
unfoldable pub skip_deleted : List SkipNode → List SkipNode
skip_deleted [] = []
skip_deleted (n ∷ ns) = let rest = skip_deleted ns in if n.deleted then rest else n ∷ ns

abbrev pub storage_iter_seek_to_first : Storage → List SkipNode
storage_iter_seek_to_first db = skip_deleted (SkipList.seek_to_first db.memtable.list)

abbrev pub storage_iter_seek : Storage → List SkipNode → List ℕ → List SkipNode
storage_iter_seek db current key = skip_deleted (SkipList.seek db.memtable.list current key)

abbrev pub storage_iter_next : List SkipNode → List SkipNode
storage_iter_next current = skip_deleted (SkipList.next current)
