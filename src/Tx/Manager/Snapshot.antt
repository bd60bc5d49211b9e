-- ===== src/Tx/Manager/Snapshot.antt =====
-- Snapshot isolation: what a transaction reads does not depend on what others do meanwhile.
use first_principle_cs.Base.{
  ℕ, ◌+◌, ◌<◌, ◌≤◌, ◌≡◌, ◌≢◌, refl, sym, ap, subst, ◌∙◌, List, [], Option, none, some, Option-cases,
  Bool, true, false, inl, inr, leb, if_case, length, u64, add64, arith,
}
use first_principle_cs.Engine.SkipList
use first_principle_cs.Engine.SkipList.Map.{entries}
use first_principle_cs.Engine.Storage.{Io, Storage}
use first_principle_cs.Tx.Version.{TxStatus}
use first_principle_cs.Tx.WriteSet.{WriteEntry, Tx, tx_create, tx_add_write, tx_find_write}
use first_principle_cs.Tx.Manager.{
  Manager, TxEvent, find_tx, to_tx, with_tx, drop_tx, tx_begin, abort_active, tx_abort,
  check_write_conflicts, apply_writes, finish_commit, commit_at, commit_checked, commit_active,
  tx_commit, write_active, tx_put, tx_delete, get_active, read_local, tx_get,
}
use first_principle_cs.Tx.Manager.Versions.{newest}
use first_principle_cs.Tx.Manager.Reads.{seen, read_storage_lem}
use first_principle_cs.Tx.Manager.Writes.{IsKey, HiddenFrom, nodes_of, apply_writes-HiddenFrom}
use first_principle_cs.Tx.Manager.Slots.{
  IsLive, IsConsistent, AllSlots-later, find_tx-AllSlots, set_tx-AllSlots,
  remove_active_tx-AllSlots, add_active_tx-AllSlots, find_tx-set_tx, find_tx-remove_active_tx,
  find_tx-add_active_tx, tx_add_write-IsLive,
}

-- Keys are not empty and do not contain the separator; the counters do not reach their ends.
pub data OtherStep (b : ℕ) (tm : Manager) : Manager → Type 0 where
  begins : tm.next_tx_id ≢ b → tm.next_ts + 1 < u64 → OtherStep b tm (tx_begin tm).1
  puts :
      (id : ℕ) (key value : List ℕ) (s : TxStatus) (tm' : Manager)
      → id ≢ b
      → IsKey key
      → tx_put tm id key value ≡ some (s, tm')
      → OtherStep b tm tm'
  deletes :
      (id : ℕ) (key : List ℕ) (s : TxStatus) (tm' : Manager)
      → id ≢ b
      → IsKey key
      → tx_delete tm id key ≡ some (s, tm')
      → OtherStep b tm tm'
  aborts :
      (id : ℕ) (s : TxStatus) (tm' : Manager)
      → id ≢ b
      → tx_abort tm id ≡ some (s, tm')
      → OtherStep b tm tm'
  commits :
      (io : ℕ → Io) (id : ℕ) (s : TxStatus) (tm' : Manager)
      → id ≢ b
      → tm.next_ts + 1 < u64
      → ((tx : Tx)
          → find_tx tm.active_txs id ≡ some tx
          → tm.storage.memtable.list.count + length tx.write_set < u64)
      → tx_commit io tm id ≡ some (s, tm')
      → OtherStep b tm tm'

pub data OtherSteps (b : ℕ) (tm : Manager) : Manager → Type 0 where
  here : OtherSteps b tm tm
  then_step : {t u : Manager} → OtherSteps b tm t → OtherStep b t u → OtherSteps b tm u

-- What a step of another transaction leaves to transaction `b`.
pub record Kept (b : ℕ) (tm tm' : Manager) : Type 0 where
  pub consistent : IsConsistent tm'
  pub same_tx : find_tx tm'.active_txs b ≡ find_tx tm.active_txs b
  pub same_versions :
      (key : List ℕ) (ts : ℕ)
      → ts < tm.next_ts
      → newest key ts (entries (nodes_of tm'.storage))
        ≡ newest key ts (entries (nodes_of tm.storage))
  pub later : tm.next_ts ≤ tm'.next_ts

Kept-refl : (b : ℕ) (tm : Manager) → IsConsistent tm → Kept b tm tm
Kept-refl b tm c = record {
  consistent = c;
  same_tx = refl;
  same_versions = λ key ts h. refl;
  later = omega arith;
}

Kept-trans : (b : ℕ) (tm t u : Manager) → Kept b tm t → Kept b t u → Kept b tm u
Kept-trans b tm t u k l = record {
  consistent = l.consistent;
  same_tx = l.same_tx ∙ k.same_tx;
  same_versions =
      λ key ts h. l.same_versions key ts (omega (arith, h, k.later)) ∙ k.same_versions key ts h;
  later = omega (arith, k.later, l.later);
}

with_tx-Kept :
    (b : ℕ) (tm : Manager) (tx : Tx)
    → IsConsistent tm
    → tx.tx_id ≢ b
    → IsLive tm.next_ts tx
    → Kept b tm (with_tx tm tx)
with_tx-Kept b tm tx c h l = record {
  consistent = record {
    store = c.store;
    slots = set_tx-AllSlots tm.next_ts tm.active_txs tx l c.slots;
    small = c.small;
  };
  same_tx = find_tx-set_tx b tm.active_txs tx h;
  same_versions = λ key ts h. refl;
  later = omega arith;
}

drop_tx-Kept :
    (b : ℕ) (tm : Manager) (tx : Tx) (event : List TxEvent)
    → IsConsistent tm
    → tx.tx_id ≢ b
    → Kept b tm (drop_tx tm tx event)
drop_tx-Kept b tm tx event c h = record {
  consistent = record {
    store = c.store;
    slots = remove_active_tx-AllSlots tm.next_ts tx.tx_id tm.active_txs c.slots;
    small = c.small;
  };
  same_tx = find_tx-remove_active_tx b tx.tx_id tm.active_txs h;
  same_versions = λ key ts h. refl;
  later = omega arith;
}

-- The result of an operation on a transaction.
to_tx-some :
    (tm : Manager) (id : ℕ) (f : Tx → TxStatus × Manager) (s : TxStatus) (tm' : Manager)
    → to_tx tm id f ≡ some (s, tm')
    → (tx : Tx) × (find_tx tm.active_txs id ≡ some tx) × ((f tx).1 ≡ tm')
to_tx-some tm id f s tm' = elim (Option-cases (find_tx tm.active_txs id)) [
  | inl e ↦ λ h. absurd (nothing (s, tm') (sym (ap (choose f) e) ∙ h))
  | inr (tx, e) ↦
      λ h. (tx, e, ap (λ (r : Option (TxStatus × Manager)). result r) (sym (ap (choose f) e) ∙ h))
]
  where
    choose : (Tx → TxStatus × Manager) → Option Tx → Option (TxStatus × Manager)
    choose f o = elim o [ none ↦ none | some tx ↦ some (f tx) ]

    nothing : (r : TxStatus × Manager) → none ≢ some r
    nothing r h = cc

    result : Option (TxStatus × Manager) → Manager
    result none = tm
    result (some r) = r.1

begins-Kept :
    (b : ℕ) (tm : Manager)
    → IsConsistent tm
    → tm.next_tx_id ≢ b
    → tm.next_ts + 1 < u64
    → Kept b tm (tx_begin tm).1
unfolding tx_begin
begins-Kept b tm c h small =
    if_case (λ (r : Option ℕ × Manager). Kept b tm r.1) (leb (length tm.active_txs) tm.active_count)
      _ _ (λ _. Kept-refl b tm c)
      (λ _. record {
        consistent = record {
          store = c.store;
          slots =
              add_active_tx-AllSlots (add64 tm.next_ts 1) tm.active_txs
                (tx_create tm.next_tx_id tm.next_ts)
                (record { began = omega arith; writes = tt; in_use = refl })
                (AllSlots-later tm.next_ts (add64 tm.next_ts 1) tm.active_txs (omega arith)
                  c.slots);
          small = omega arith;
        };
        same_tx = find_tx-add_active_tx b tm.active_txs (tx_create tm.next_tx_id tm.next_ts) h;
        same_versions = λ key ts h. refl;
        later = omega arith;
      })

put_back-Kept :
    (b : ℕ) (tm : Manager) (tx : Tx) (key : List ℕ) (value : Option (List ℕ)) (d : Bool)
    → IsConsistent tm
    → tx.tx_id ≢ b
    → IsLive tm.next_ts tx
    → IsKey key
    → Kept b tm (write_active tm tx tx.state key value d).1
put_back-Kept b tm tx key value d c h l k =
    let (live, id) = tx_add_write-IsLive tm.next_ts tx key value d l k in
    subst (λ st. Kept b tm (write_active tm tx st key value d).1) (sym l.in_use)
      (with_tx-Kept b tm (tx_add_write tx key value d).1 c (λ e. h (sym id ∙ e)) live)

aborts-Kept :
    (b : ℕ) (tm : Manager) (tx : Tx)
    → IsConsistent tm
    → tx.tx_id ≢ b
    → IsLive tm.next_ts tx
    → Kept b tm (abort_active tm tx tx.state).1
aborts-Kept b tm tx c h l =
    subst (λ st. Kept b tm (abort_active tm tx st).1) (sym l.in_use) (drop_tx-Kept b tm tx _ c h)

-- The manager after the writes of a commit, whatever came of them.
advanced : Manager → Storage → Manager
advanced tm storage = record tm { next_ts = add64 tm.next_ts 1; storage = storage }

advanced-Kept :
    (b : ℕ) (tm : Manager) (storage : Storage)
    → IsConsistent tm
    → tm.next_ts + 1 < u64
    → HiddenFrom tm.next_ts tm.storage storage
    → Kept b tm (advanced tm storage)
unfolding advanced
advanced-Kept b tm storage c small (is_store, hidden) = record {
  consistent = record {
    store = is_store;
    slots = AllSlots-later tm.next_ts (add64 tm.next_ts 1) tm.active_txs (omega arith) c.slots;
    small = omega arith;
  };
  same_tx = refl;
  same_versions = hidden;
  later = omega arith;
}

finish_commit-Kept :
    (b : ℕ) (tm : Manager) (tx : Tx) (p : SkipList.Status × Storage)
    → IsConsistent tm
    → tm.next_ts + 1 < u64
    → tx.tx_id ≢ b
    → IsLive tm.next_ts tx
    → HiddenFrom tm.next_ts tm.storage p.1
    → Kept b tm (finish_commit (record tm { next_ts = add64 tm.next_ts 1 }) tx p).1
unfolding advanced
finish_commit-Kept b tm tx (s, storage) c small h l hidden = go s
  where
    kept : Kept b tm (advanced tm storage)
    kept = advanced-Kept b tm storage c small hidden

    live : IsLive (add64 tm.next_ts 1) tx
    live = record { began = omega (arith, l.began); writes = l.writes; in_use = l.in_use }

    left : Kept b tm (with_tx (advanced tm storage) tx)
    left =
        Kept-trans b tm (advanced tm storage) _ kept
          (with_tx-Kept b (advanced tm storage) tx kept.consistent h live)

    go :
        (s : SkipList.Status)
        → Kept b tm (finish_commit (record tm { next_ts = add64 tm.next_ts 1 }) tx (s, storage)).1
    go SkipList.ok =
        Kept-trans b tm (advanced tm storage) _ kept
          (drop_tx-Kept b (advanced tm storage) tx _ kept.consistent h)
    go SkipList.not_found = left
    go SkipList.corruption = left
    go SkipList.io_error = left
    go SkipList.invalid_arg = left
    go SkipList.no_memory = left

commits-Kept :
    (b : ℕ) (io : ℕ → Io) (tm : Manager) (tx : Tx)
    → IsConsistent tm
    → tm.next_ts + 1 < u64
    → tm.storage.memtable.list.count + length tx.write_set < u64
    → tx.tx_id ≢ b
    → IsLive tm.next_ts tx
    → Kept b tm (commit_active io tm tx tx.state).1
commits-Kept b io tm tx c small room h l =
    subst (λ st. Kept b tm (commit_active io tm tx st).1) (sym l.in_use)
      (go (check_write_conflicts tm.storage tx.start_ts tx.write_set))
  where
    stamped : Tx
    stamped = record tx { commit_ts = tm.next_ts }

    done : Kept b tm (commit_at io tm tx).1
    done =
        finish_commit-Kept b tm stamped (apply_writes io tm.storage tm.next_ts tx.write_set) c small
          h (record { began = l.began; writes = l.writes; in_use = l.in_use })
          (apply_writes-HiddenFrom io tm.storage tm.next_ts tx.write_set c.store l.writes c.small
            room)

    go : (s : TxStatus) → Kept b tm (commit_checked io tm tx s).1
    go TxStatus.ok = done
    go TxStatus.not_found = done
    go TxStatus.conflict = drop_tx-Kept b tm tx [] c h
    go TxStatus.aborted = done
    go TxStatus.io_error = done
    go TxStatus.invalid_arg = done
    go TxStatus.no_memory = done
    go TxStatus.corruption = done

-- An operation on the transaction `id`, through its pointer.
on_tx-Kept :
    (b : ℕ) (tm : Manager) (id : ℕ) (f : Tx → TxStatus × Manager) (s : TxStatus) (tm' : Manager)
    → IsConsistent tm
    → id ≢ b
    → to_tx tm id f ≡ some (s, tm')
    → ((tx : Tx)
        → find_tx tm.active_txs id ≡ some tx
        → tx.tx_id ≢ b
        → IsLive tm.next_ts tx
        → Kept b tm (f tx).1)
    → Kept b tm tm'
on_tx-Kept b tm id f s tm' c h r kept =
    let (tx, e, same) = to_tx-some tm id f s tm' r in
    let (live, numbered) = find_tx-AllSlots tm.next_ts id tm.active_txs tx c.slots e in
    subst (Kept b tm) same (kept tx e (λ q. h (sym numbered ∙ q)) live)

OtherStep-Kept : (b : ℕ) (tm tm' : Manager) → IsConsistent tm → OtherStep b tm tm' → Kept b tm tm'
unfolding tx_put tx_delete tx_abort tx_commit
OtherStep-Kept b tm tm' c (begins h small) = begins-Kept b tm c h small
OtherStep-Kept b tm tm' c (puts id key value s t h k r) =
    on_tx-Kept b tm id _ s tm' c h r
      (λ tx e n l. put_back-Kept b tm tx key (some value) false c n l k)
OtherStep-Kept b tm tm' c (deletes id key s t h k r) =
    on_tx-Kept b tm id _ s tm' c h r (λ tx e n l. put_back-Kept b tm tx key none true c n l k)
OtherStep-Kept b tm tm' c (aborts id s t h r) =
    on_tx-Kept b tm id _ s tm' c h r (λ tx e n l. aborts-Kept b tm tx c n l)
OtherStep-Kept b tm tm' c (commits io id s t h small room r) =
    on_tx-Kept b tm id _ s tm' c h r (λ tx e n l. commits-Kept b io tm tx c small (room tx e) n l)

OtherSteps-Kept : (b : ℕ) (tm tm' : Manager) → IsConsistent tm → OtherSteps b tm tm' → Kept b tm tm'
OtherSteps-Kept b tm tm' c here = Kept-refl b tm c
OtherSteps-Kept b tm tm' c (then_step {t} steps step) =
    let k = OtherSteps-Kept b tm t c steps in
    Kept-trans b tm t tm' k (OtherStep-Kept b t tm' k.consistent step)

active_read :
    (tm : Manager) (tx : Tx) (key : List ℕ)
    → IsConsistent tm
    → IsLive tm.next_ts tx
    → IsKey key
    → get_active tm tx tx.state key
      ≡ read_local
          (tx_find_write tx key)
          (some (seen (newest key tx.start_ts (entries (nodes_of tm.storage)))))
active_read tm tx key c l k =
    ap (λ st. get_active tm tx st key) l.in_use
    ∙ ap (read_local (tx_find_write tx key)) (
        read_storage_lem tm.storage tx.start_ts key c.store k.nonempty k.no_sep
          (omega (arith, l.began, c.small)))

pub found_tx :
    (tm : Manager) (b : ℕ) (tx : Tx) (key : List ℕ)
    → find_tx tm.active_txs b ≡ some tx
    → tx_get tm b key ≡ get_active tm tx tx.state key
unfolding tx_get
found_tx tm b tx key e =
    ap (λ (o : Option Tx). elim o [ none ↦ none | some t ↦ get_active tm t t.state key ]) e

read_local-some :
    (o : Option WriteEntry) (stored : TxStatus × List ℕ)
    → (r : TxStatus × List ℕ) × (read_local o (some stored) ≡ some r)
read_local-some none stored = (stored, refl)
read_local-some (some w) stored = (_, refl)

-- Repeatable reads: whatever other transactions do, begin, write, delete, abort, and commit with any
-- outcome of their writes to the disk, in any order and number, reading a key has a result
-- for a live transaction, and the same one as before, and the manager's invariant is kept. (Keys are not empty and do not contain
-- the separator; the counters do not reach their ends.)
pub tx_get_repeatable :
    (b : ℕ) (tm tm' : Manager) (tx : Tx) (key : List ℕ)
    → IsConsistent tm
    → find_tx tm.active_txs b ≡ some tx
    → OtherSteps b tm tm'
    → IsKey key
    → (r : TxStatus × List ℕ) × (tx_get tm b key ≡ some r)
      × (tx_get tm' b key ≡ some r)
      × IsConsistent tm'
tx_get_repeatable b tm tm' tx key c e steps k =
    let kept = OtherSteps-Kept b tm tm' c steps in
    let (live, numbered) = find_tx-AllSlots tm.next_ts b tm.active_txs tx c.slots e in
    let live' : IsLive tm'.next_ts tx = record {
      began = omega (arith, live.began, kept.later);
      writes = live.writes;
      in_use = live.in_use;
    } in
    let (r, first) =
      read_local-some (tx_find_write tx key)
        (seen (newest key tx.start_ts (entries (nodes_of tm.storage)))) in
    (
      r,
      found_tx tm b tx key e ∙ active_read tm tx key c live k ∙ first,
      found_tx tm' b tx key (kept.same_tx ∙ e)
          ∙ active_read tm' tx key kept.consistent live' k
          ∙ ap (λ o. read_local (tx_find_write tx key) (some (seen o)))
              (kept.same_versions key tx.start_ts live.began)
          ∙ first,
      kept.consistent,
    )
