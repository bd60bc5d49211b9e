-- ===== src/Tx/Tests.antt =====
-- A manager with two live transactions over a storage with one version.
use first_principle_cs.Base.{
  ℕ, ap, get_or, ◌+◌, ◌<◌, ◌≡◌, ◌≢◌, refl, subst, List, [], ◌∷◌, length, u64, false, none, some,
  arith, ◌⊎◌,
}
use first_principle_cs.Engine.Compare.{default_compare, first_or}
use first_principle_cs.Engine.SkipList.{SkipNode, SkipList}
use first_principle_cs.Engine.SkipList.Map.{entries}
use first_principle_cs.Engine.SkipList
use first_principle_cs.Engine.Storage.{storage_put}
use first_principle_cs.Tx.Manager.{apply_writes}
use first_principle_cs.Tx.Manager.Visible.{AllOlder, AllRead, apply_writes-AllRead}
use first_principle_cs.Engine.Storage.{Io, done, Storage}
use first_principle_cs.Tx.Version.{
  TxStatus, ok, not_found, conflict, version_encode_key, version_decode_key,
}
use first_principle_cs.Tx.Version.RoundTrip.{version_decode_key-version_encode_key}
use first_principle_cs.Tx.Version.Order.{default_compare-version_encode_key}
use first_principle_cs.Tx.WriteSet.{Tx, active, WriteEntry}
use first_principle_cs.Tx.Manager.{
  Manager, find_tx, tx_commit, tx_put, tx_delete, tx_get, read_storage, scan_versions,
}
use first_principle_cs.Tx.Manager.Versions.{newest}
use first_principle_cs.Tx.Manager.Reads.{IsStore, seen, read_storage_lem, scan_versions_enough}
use first_principle_cs.Tx.Manager.Writes.{IsKey}
use first_principle_cs.Tx.Manager.Slots.{IsConsistent}
use first_principle_cs.Tx.Manager.Snapshot.{OtherSteps, here, then_step, commits, tx_get_repeatable}
use first_principle_cs.Tx.Manager.Conflict.{SomeLater, NoneLater, Stored, tx_commit_first_wins}
use first_principle_cs.Tx.Manager.OwnWrites.{tx_get_own_writes}
use Prim.Native.Nat.{compare}

-- The key of one byte.
abbrev key_a : List ℕ
key_a = 97 ∷ []

abbrev key_b : List ℕ
key_b = 98 ∷ []

abbrev stored_node : SkipNode
stored_node = record {
  key = version_encode_key key_a 1;
  value = 5 ∷ [];
  deleted = false;
  level = 1;
}

abbrev stored_list : SkipList
stored_list = record {
  nodes = stored_node ∷ [];
  level = 1;
  count = 1;
  memory_usage = 300;
  coins = λ k. false;
}

abbrev store_a : Storage
store_a = record {
  memtable = record { list = stored_list; size_limit = 1000; seq_num = 0 };
  wal = none;
}

abbrev reader : Tx
reader = record {
  tx_id = 2;
  start_ts = 2;
  commit_ts = 0;
  state = active;
  write_set = [];
  write_capacity = 16;
}

abbrev write_a : WriteEntry
write_a = record { key = key_a; value = 6 ∷ []; is_delete = false }

abbrev writer : Tx
writer = record {
  tx_id = 3;
  start_ts = 3;
  commit_ts = 0;
  state = active;
  write_set = write_a ∷ [];
  write_capacity = 16;
}

abbrev two_active : Manager
two_active = record {
  storage = store_a;
  next_tx_id = 4;
  next_ts = 4;
  active_txs = some reader ∷ some writer ∷ none ∷ [];
  active_count = 2;
  logged = [];
}

key_a-IsKey : IsKey key_a
key_a-IsKey = record { nonempty = λ h. cc; no_sep = (omega arith, tt) }

store_a-IsStore : IsStore store_a
store_a-IsStore = record {
  valid = record {
    ascending = (tt, tt);
    leveled = (omega arith, omega arith, tt);
    positive = omega arith;
    bounded = omega arith;
    counted = refl;
  };
  versions = (
    record {
      key = key_a;
      version = 1;
      shape = refl;
      nonempty = λ h. cc;
      no_sep = (omega arith, tt);
      small = omega arith;
    },
    tt,
  );
  live = (refl, tt);
}

two_active-IsConsistent : IsConsistent two_active
two_active-IsConsistent = record {
  store = store_a-IsStore;
  slots = (
    record { began = omega arith; writes = tt; in_use = refl },
    (record { began = omega arith; writes = (key_a-IsKey, tt); in_use = refl }, tt),
  );
  small = omega arith;
}

find_reader : find_tx two_active.active_txs 2 ≡ some reader
unfolding find_tx
find_reader = refl

find_writer : find_tx two_active.active_txs 3 ≡ some writer
unfolding find_tx
find_writer = refl

version_decode_key-version_encode_key_example :
    version_decode_key (version_encode_key (97 ∷ 0 ∷ []) 258) ≡ (ok, 97 ∷ 0 ∷ [], 258)
version_decode_key-version_encode_key_example =
    version_decode_key-version_encode_key (97 ∷ 0 ∷ []) 258 (λ h. cc) (omega arith)

default_compare-version_encode_key_example :
    default_compare (version_encode_key key_a 7) (version_encode_key key_a 300)
    ≡ first_or (default_compare key_a key_a) (compare 300 7)
default_compare-version_encode_key_example =
    default_compare-version_encode_key key_a key_a 7 300 (omega arith, tt) (omega arith, tt)
      (omega arith) (omega arith)

read_storage_lem_example :
    read_storage store_a 2 key_a ≡ some (seen (newest key_a 2 (entries (stored_node ∷ []))))
read_storage_lem_example =
    read_storage_lem store_a 2 key_a store_a-IsStore (λ h. cc) (omega arith, tt) (omega arith)

scan_versions_enough_example :
    (r : TxStatus × List ℕ) × (scan_versions 1 key_a 2 (stored_node ∷ []) ≡ some r)
    × (scan_versions 9 key_a 2 (stored_node ∷ []) ≡ some r)
scan_versions_enough_example = scan_versions_enough 9 key_a 2 (stored_node ∷ []) (omega arith)

abbrev all_done : ℕ → Io
all_done k = done

tx_commit_first_wins_example :
    (s : TxStatus) × (tm' : Manager) × (tx_commit all_done two_active 3 ≡ some (s, tm'))
    × (((s ≡ conflict) × SomeLater store_a 3 (write_a ∷ []) × (tm'.storage ≡ store_a))
        ⊎ (NoneLater store_a 3 (write_a ∷ [])
            × Stored
                (apply_writes all_done store_a two_active.next_ts (write_a ∷ []))
                s
                tm'.storage))
tx_commit_first_wins_example =
    tx_commit_first_wins all_done two_active 3 writer two_active-IsConsistent find_writer

-- The writer commits while the reader is active.
writer_room : (tx : Tx) → find_tx two_active.active_txs 3 ≡ some tx → 1 + length tx.write_set < u64
unfolding find_tx
writer_room tx e =
    let same : writer ≡ tx = cc in
    subst (λ (t : Tx). 1 + length t.write_set < u64) same (omega arith)

outcome :
    (s : TxStatus) × (tm' : Manager) × (tx_commit all_done two_active 3 ≡ some (s, tm'))
    × (((s ≡ conflict) × SomeLater store_a 3 (write_a ∷ []) × (tm'.storage ≡ store_a))
        ⊎ (NoneLater store_a 3 (write_a ∷ [])
            × Stored
                (apply_writes all_done store_a two_active.next_ts (write_a ∷ []))
                s
                tm'.storage))
outcome = tx_commit_first_wins all_done two_active 3 writer two_active-IsConsistent find_writer

abbrev committed_manager : Manager
committed_manager = outcome.1

writer_commits : OtherSteps 2 two_active committed_manager
writer_commits = then_step here (
    commits all_done 3 outcome.0 committed_manager (omega arith) (omega arith) writer_room
      outcome.2)

tx_get_repeatable_example :
    (r : TxStatus × List ℕ) × (tx_get two_active 2 key_a ≡ some r)
    × (tx_get committed_manager 2 key_a ≡ some r)
    × IsConsistent committed_manager
tx_get_repeatable_example =
    tx_get_repeatable 2 two_active committed_manager reader key_a two_active-IsConsistent
      find_reader writer_commits key_a-IsKey

keys_apart : key_b ≢ key_a
keys_apart h = omega (arith, ap (λ k. get_or k 0 0) h)

tx_get_own_writes_example :
    ((tm' : Manager) × (tx_put two_active 2 key_a (8 ∷ []) ≡ some (ok, tm'))
      × (tx_get tm' 2 key_a ≡ some (ok, 8 ∷ []))
      × (tx_get tm' 2 key_b ≡ tx_get two_active 2 key_b))
    × ((tm' : Manager) × (tx_delete two_active 2 key_a ≡ some (ok, tm'))
        × (tx_get tm' 2 key_a ≡ some (not_found, []))
        × (tx_get tm' 2 key_b ≡ tx_get two_active 2 key_b))
tx_get_own_writes_example =
    tx_get_own_writes two_active 2 reader key_a (8 ∷ []) key_b two_active-IsConsistent find_reader
      keys_apart

abbrev empty_store : Storage
empty_store = record {
  memtable = record {
    list = record { nodes = []; level = 1; count = 0; memory_usage = 200; coins = λ k. false };
    size_limit = 1000;
    seq_num = 0;
  };
  wal = none;
}

empty_store-IsStore : IsStore empty_store
empty_store-IsStore = record {
  valid = record {
    ascending = tt;
    leveled = tt;
    positive = omega arith;
    bounded = omega arith;
    counted = refl;
  };
  versions = tt;
  live = tt;
}

write_a-AllOlder : AllOlder 4 empty_store (write_a ∷ [])
unfolding newest
write_a-AllOlder = ((λ ts. tt), tt)

write_a_ok : (apply_writes all_done empty_store 4 (write_a ∷ [])).0 ≡ SkipList.ok
unfolding apply_writes storage_put SkipList.put version_encode_key
write_a_ok = refl

apply_writes-AllRead_example :
    AllRead 4 (apply_writes all_done empty_store 4 (write_a ∷ [])).1 (write_a ∷ [])
apply_writes-AllRead_example =
    apply_writes-AllRead all_done empty_store 4 (write_a ∷ []) empty_store-IsStore (key_a-IsKey, tt)
      (tt, tt) write_a-AllOlder (omega arith) (omega arith) write_a_ok
