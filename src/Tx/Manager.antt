-- ===== src/Tx/Manager.antt =====
-- tx_manager.c, with conflict.c and visibility.c. A transaction stands in its slot of `active_txs`,
-- from its beginning until it is destroyed, and a pointer to it is its `tx_id`; `none` is the use of a
-- pointer to a transaction that no slot holds, or a search of `tx_get` that is out of fuel. Calls hold the mutex or read only their own transaction,
-- so they are steps one after the other. What goes to the transaction log is a list of events.
pub mod Conflict
pub mod Reads
pub mod OwnWrites
pub mod Slots
pub mod Snapshot
pub mod Versions
pub mod Visible
pub mod Writes
use first_principle_cs.Base.{
  ℕ, zero, suc, ◌+◌, ◌-◌, List, [], ◌∷◌, ◌++◌, Option, none, some, Bool, true, false, ltb, leb,
  ◌==◌, if◌then◌else◌, length, replicate, u64, add64, sub64,
}
use first_principle_cs.Engine.SkipList.{SkipNode}
use first_principle_cs.Engine.SkipList
use first_principle_cs.Engine.Storage.{
  Io, Storage, storage_put, storage_iter_seek, storage_iter_next,
}
use first_principle_cs.Tx.Version.{
  TxStatus, ok, not_found, conflict, io_error, version_encode_key, version_decode_key,
}
use first_principle_cs.Tx.WriteSet.{
  Tx, TxState, committed, WriteEntry, tx_create, tx_clear_writes, same_key, tx_find_write,
  tx_add_write,
}

pub data TxEvent : Type 0 where
  logged_begin logged_commit : ℕ → ℕ → TxEvent
  logged_abort : ℕ → TxEvent

pub record Manager : Type 0 where
  pub storage : Storage
  pub next_tx_id : ℕ
  pub next_ts : ℕ
  pub active_txs : List (Option Tx)
  pub active_count : ℕ
  pub logged : List TxEvent

abbrev pub tx_manager_open : Storage → ℕ → Manager
tx_manager_open storage max_active_txs = record {
  storage = storage;
  next_tx_id = 1;
  next_ts = 1;
  active_txs = replicate max_active_txs none;
  active_count = 0;
  logged = [];
}

-- The first empty slot.
unfoldable pub add_active_tx : List (Option Tx) → Tx → List (Option Tx)
add_active_tx [] tx = []
add_active_tx (none ∷ slots) tx = some tx ∷ slots
add_active_tx (some t ∷ slots) tx = some t ∷ add_active_tx slots tx

unfoldable pub has_empty_slot : List (Option Tx) → Bool
has_empty_slot [] = false
has_empty_slot (none ∷ slots) = true
has_empty_slot (some t ∷ slots) = has_empty_slot slots

unfoldable pub remove_active_tx : List (Option Tx) → ℕ → List (Option Tx)
remove_active_tx [] tx_id = []
remove_active_tx (none ∷ slots) tx_id = none ∷ remove_active_tx slots tx_id
remove_active_tx (some t ∷ slots) tx_id =
    let rest = remove_active_tx slots tx_id in
    if t.tx_id == tx_id then none ∷ slots else some t ∷ rest

-- The transaction that a pointer points to, and a change of it in place.
unfoldable pub find_tx : List (Option Tx) → ℕ → Option Tx
find_tx [] tx_id = none
find_tx (none ∷ slots) tx_id = find_tx slots tx_id
find_tx (some t ∷ slots) tx_id =
    let rest = find_tx slots tx_id in if t.tx_id == tx_id then some t else rest

unfoldable pub set_tx : List (Option Tx) → Tx → List (Option Tx)
set_tx [] tx = []
set_tx (none ∷ slots) tx = none ∷ set_tx slots tx
set_tx (some t ∷ slots) tx =
    let rest = set_tx slots tx in if t.tx_id == tx.tx_id then some tx ∷ slots else some t ∷ rest

abbrev pub with_tx : Manager → Tx → Manager
with_tx tm tx = record tm { active_txs = set_tx tm.active_txs tx }

-- NULL when all slots are taken.
unfoldable pub tx_begin : Manager → Option ℕ × Manager
tx_begin tm = if leb (length tm.active_txs) tm.active_count then (none, tm) else (
  some tm.next_tx_id,
  record tm {
    next_tx_id = add64 tm.next_tx_id 1;
    next_ts = add64 tm.next_ts 1;
    active_txs = add_active_tx tm.active_txs (tx_create tm.next_tx_id tm.next_ts);
    active_count =
        if has_empty_slot tm.active_txs then add64 tm.active_count 1 else tm.active_count;
    logged = tm.logged ++ (logged_begin tm.next_tx_id tm.next_ts ∷ []);
  },
)

-- A transaction is destroyed together with its slot.
abbrev pub drop_tx : Manager → Tx → List TxEvent → Manager
drop_tx tm tx event = record tm {
  active_txs = remove_active_tx tm.active_txs tx.tx_id;
  active_count = sub64 tm.active_count 1;
  logged = tm.logged ++ event;
}

abbrev pub abort_active : Manager → Tx → TxState → TxStatus × Manager
abort_active tm tx TxState.active = (ok, drop_tx tm tx (logged_abort tx.tx_id ∷ []))
abort_active tm tx state = (TxStatus.aborted, tm)

abbrev pub to_tx {ℓ} : {A : Type ℓ} → Manager → ℕ → (Tx → A) → Option A
to_tx tm tx_id f = elim (find_tx tm.active_txs tx_id) [ none ↦ none | some tx ↦ some (f tx) ]

unfoldable pub tx_abort : Manager → ℕ → Option (TxStatus × Manager)
tx_abort tm tx_id = to_tx tm tx_id (λ tx. abort_active tm tx tx.state)

-- conflict.c: the version of the first entry from the newest possible version of the key on.
abbrev pub version_if_same : List ℕ → TxStatus × List ℕ × ℕ → ℕ
version_if_same key (TxStatus.ok, found_key, version) =
    if same_key found_key key then version else 0
version_if_same key (s, found_key, version) = 0

abbrev pub first_version : List ℕ → List SkipNode → ℕ
first_version key [] = 0
first_version key (n ∷ rest) = version_if_same key (version_decode_key n.key)

unfoldable pub get_latest_commit_ts : Storage → List ℕ → ℕ
get_latest_commit_ts storage key =
    first_version key (storage_iter_seek storage [] (version_encode_key key (u64 - 1)))

unfoldable pub check_write_conflicts : Storage → ℕ → List WriteEntry → TxStatus
check_write_conflicts storage start_ts [] = ok
check_write_conflicts storage start_ts (w ∷ ws) =
    let rest = check_write_conflicts storage start_ts ws in
    if ltb start_ts (get_latest_commit_ts storage w.key) then conflict else rest

-- A deletion is stored as the empty value.
abbrev pub stored_value : WriteEntry → List ℕ
stored_value w = if w.is_delete then [] else w.value

-- The loop over the write set; how the write to the storage's log ends is `io 0`, then `io 1`, …
abbrev pub then_write :
    SkipList.Status × Storage → (Storage → SkipList.Status × Storage) → SkipList.Status × Storage
then_write (SkipList.ok, storage) next = next storage
then_write (s, storage) next = (s, storage)

unfoldable pub apply_writes : (ℕ → Io) → Storage → ℕ → List WriteEntry → SkipList.Status × Storage
apply_writes io storage commit_ts [] = (SkipList.ok, storage)
apply_writes io storage commit_ts (w ∷ ws) =
    then_write (storage_put (io 0) storage (version_encode_key w.key commit_ts) (stored_value w))
      (λ storage'. apply_writes (λ k. io (suc k)) storage' commit_ts ws)

-- When a write fails, the transaction stays active, with its commit timestamp.
abbrev pub finish_commit : Manager → Tx → SkipList.Status × Storage → TxStatus × Manager
finish_commit tm tx (SkipList.ok, storage) =
    (ok, drop_tx (record tm { storage = storage }) tx (logged_commit tx.tx_id tx.commit_ts ∷ []))
finish_commit tm tx (s, storage) = (io_error, with_tx (record tm { storage = storage }) tx)

abbrev pub commit_at : (ℕ → Io) → Manager → Tx → TxStatus × Manager
commit_at io tm tx =
    finish_commit (record tm { next_ts = add64 tm.next_ts 1 })
      (record tx { commit_ts = tm.next_ts }) (apply_writes io tm.storage tm.next_ts tx.write_set)

abbrev pub commit_checked : (ℕ → Io) → Manager → Tx → TxStatus → TxStatus × Manager
commit_checked io tm tx TxStatus.conflict = (conflict, drop_tx tm tx [])
commit_checked io tm tx s = commit_at io tm tx

abbrev pub commit_active : (ℕ → Io) → Manager → Tx → TxState → TxStatus × Manager
commit_active io tm tx TxState.active =
    commit_checked io tm tx (check_write_conflicts tm.storage tx.start_ts tx.write_set)
commit_active io tm tx state = (TxStatus.aborted, tm)

unfoldable pub tx_commit : (ℕ → Io) → Manager → ℕ → Option (TxStatus × Manager)
tx_commit io tm tx_id = to_tx tm tx_id (λ tx. commit_active io tm tx tx.state)

abbrev pub put_back : Manager → TxStatus × Tx → TxStatus × Manager
put_back tm (s, tx) = (s, with_tx tm tx)

abbrev pub write_active :
    Manager → Tx → TxState → List ℕ → Option (List ℕ) → Bool → TxStatus × Manager
write_active tm tx TxState.active key value is_delete =
    put_back tm (tx_add_write tx key value is_delete)
write_active tm tx state key value is_delete = (TxStatus.aborted, tm)

unfoldable pub tx_put : Manager → ℕ → List ℕ → List ℕ → Option (TxStatus × Manager)
tx_put tm tx_id key value =
    to_tx tm tx_id (λ tx. write_active tm tx tx.state key (some value) false)

unfoldable pub tx_delete : Manager → ℕ → List ℕ → Option (TxStatus × Manager)
tx_delete tm tx_id key = to_tx tm tx_id (λ tx. write_active tm tx tx.state key none true)

-- The empty value is a deletion.
abbrev pub visible_value : List ℕ → TxStatus × List ℕ
visible_value [] = (not_found, [])
visible_value (b ∷ bs) = (ok, b ∷ bs)

abbrev pub read_version :
    List ℕ
    → ℕ
    → List ℕ
    → TxStatus × List ℕ × ℕ
    → Option (TxStatus × List ℕ)
    → Option (TxStatus × List ℕ)
read_version key start_ts value (TxStatus.ok, found_key, version) next =
    if same_key found_key key
    then if leb version start_ts then some (visible_value value) else next
    else some (not_found, [])
read_version key start_ts value (s, found_key, version) next = next

-- The loop of `tx_get`; `none` is that `fuel` rounds are over and the loop is not.
unfoldable pub scan_versions : ℕ → List ℕ → ℕ → List SkipNode → Option (TxStatus × List ℕ)
scan_versions zero key start_ts [] = some (not_found, [])
scan_versions zero key start_ts (n ∷ rest) = none
scan_versions (suc fuel) key start_ts [] = some (not_found, [])
scan_versions (suc fuel) key start_ts (n ∷ rest) =
    let next = scan_versions fuel key start_ts (storage_iter_next (n ∷ rest)) in
    read_version key start_ts n.value (version_decode_key n.key) next

-- Every round moves the iterator on, so that one for each entry is enough.
unfoldable pub read_storage : Storage → ℕ → List ℕ → Option (TxStatus × List ℕ)
read_storage storage start_ts key =
    let current = storage_iter_seek storage [] (version_encode_key key start_ts) in
    scan_versions (length current) key start_ts current

abbrev pub read_local : Option WriteEntry → Option (TxStatus × List ℕ) → Option (TxStatus × List ℕ)
read_local none stored = stored
read_local (some w) stored = some (if w.is_delete then (not_found, []) else (ok, w.value))

abbrev pub get_active : Manager → Tx → TxState → List ℕ → Option (TxStatus × List ℕ)
get_active tm tx TxState.active key =
    read_local (tx_find_write tx key) (read_storage tm.storage tx.start_ts key)
get_active tm tx state key = some (TxStatus.aborted, [])

unfoldable pub tx_get : Manager → ℕ → List ℕ → Option (TxStatus × List ℕ)
tx_get tm tx_id key = elim (find_tx tm.active_txs tx_id) [
  | none ↦ none
  | some tx ↦ get_active tm tx tx.state key
]

-- visibility.c.
abbrev pub is_version_visible : ℕ → Tx → Bool
is_version_visible version_ts tx = leb version_ts tx.start_ts

unfoldable pub min_snapshot : ℕ → List (Option Tx) → ℕ
min_snapshot min_ts [] = min_ts
min_snapshot min_ts (none ∷ slots) = min_snapshot min_ts slots
min_snapshot min_ts (some t ∷ slots) =
    min_snapshot (if ltb t.start_ts min_ts then t.start_ts else min_ts) slots

abbrev pub get_min_active_snapshot : Manager → ℕ
get_min_active_snapshot tm = min_snapshot (u64 - 1) tm.active_txs
