-- ===== src/Tx/Manager/Conflict.antt =====
-- First committer wins: when a commit is refused.
use first_principle_cs.Base.{
  ℕ, ◌-◌, ◌<◌, ◌≤◌, ◌≡◌, ◌≢◌, refl, sym, ap, subst, ◌∙◌, List, [], ◌∷◌, Option, none, some, false,
  ◌⊎◌, inl, inr, ltb, ltb→lt, if_case, u64, add64, arith,
}
use first_principle_cs.Engine.SkipList
use first_principle_cs.Engine.SkipList.Map.{entries}
use first_principle_cs.Engine.Storage.{Io, Storage}
use first_principle_cs.Tx.Version.{TxStatus, ok, conflict, io_error}
use first_principle_cs.Tx.WriteSet.{Tx, WriteEntry}
use first_principle_cs.Tx.Manager.{
  Manager, find_tx, get_latest_commit_ts, check_write_conflicts, apply_writes, finish_commit,
  commit_checked, commit_active, tx_commit,
}
use first_principle_cs.Tx.Manager.Versions.{newest}
use first_principle_cs.Tx.Manager.Reads.{IsStore, version_or_zero, get_latest_commit_ts_lem}
use first_principle_cs.Tx.Manager.Writes.{AllKeys, nodes_of}
use first_principle_cs.Tx.Manager.Slots.{IsConsistent, find_tx-AllSlots}

-- The newest version of a key in the storage, 0 if there is none.
abbrev pub newest_of : Storage → List ℕ → ℕ
newest_of storage key = version_or_zero (newest key (u64 - 1) (entries (nodes_of storage)))

-- A key of the write set has a version after the snapshot; or none has.
abbrev pub SomeLater : Storage → ℕ → List WriteEntry → Type 0
SomeLater storage start_ts [] = ⊥
SomeLater storage start_ts (w ∷ ws) =
    (start_ts < newest_of storage w.key) ⊎ SomeLater storage start_ts ws

abbrev pub NoneLater : Storage → ℕ → List WriteEntry → Type 0
NoneLater storage start_ts [] = Unit {0}
NoneLater storage start_ts (w ∷ ws) =
    (newest_of storage w.key ≤ start_ts) × NoneLater storage start_ts ws

abbrev Checked : Storage → ℕ → List WriteEntry → TxStatus → Type 0
Checked storage start_ts ws s =
    ((s ≡ conflict) × SomeLater storage start_ts ws) ⊎ ((s ≡ ok) × NoneLater storage start_ts ws)

check_write_conflicts-Checked :
    (storage : Storage) (start_ts : ℕ) (ws : List WriteEntry)
    → IsStore storage
    → AllKeys ws
    → Checked storage start_ts ws (check_write_conflicts storage start_ts ws)
unfolding check_write_conflicts
check_write_conflicts-Checked storage start_ts [] s k = inr (refl, tt)
check_write_conflicts-Checked storage start_ts (w ∷ ws) s (k, ks) =
    if_case (Checked storage start_ts (w ∷ ws)) (ltb start_ts (get_latest_commit_ts storage w.key))
      _ _
      (λ h.
        inl (
          refl,
          inl (omega (arith, latest, ltb→lt start_ts (get_latest_commit_ts storage w.key) h)),
        ))
      (λ h. elim (check_write_conflicts-Checked storage start_ts ws s ks) [
        | inl (c, later) ↦ inl (c, inr later)
        | inr (fine, none_later) ↦ inr (fine, (omega (arith, latest, not_later h), none_later))
      ])
  where
    latest : get_latest_commit_ts storage w.key ≡ newest_of storage w.key
    latest = get_latest_commit_ts_lem storage w.key s k.nonempty k.no_sep

    not_later :
        ltb start_ts (get_latest_commit_ts storage w.key) ≡ false
        → get_latest_commit_ts storage w.key ≤ start_ts
    not_later h = ground arith

-- The storage has the write set under the next timestamp, as far as the writes went, and the answer is
-- TX_OK exactly if they all did.
abbrev pub Stored : SkipList.Status × Storage → TxStatus → Storage → Type 0
Stored (written, storage) s after =
    (after ≡ storage)
    × (((s ≡ ok) × (written ≡ SkipList.ok)) ⊎ ((s ≡ io_error) × (written ≢ SkipList.ok)))

-- A commit's outcome.
abbrev Decided : (ℕ → Io) → Manager → Tx → TxStatus × Manager → Type 0
Decided io tm tx (s, tm') =
    ((s ≡ conflict) × SomeLater tm.storage tx.start_ts tx.write_set × (tm'.storage ≡ tm.storage))
    ⊎ (NoneLater tm.storage tx.start_ts tx.write_set
        × Stored (apply_writes io tm.storage tm.next_ts tx.write_set) s tm'.storage)

finish_commit-Stored :
    (tm : Manager) (tx : Tx) (p : SkipList.Status × Storage)
    → let (s, tm') = finish_commit tm tx p in Stored p s tm'.storage
finish_commit-Stored tm tx (SkipList.ok, storage) = (refl, inl (refl, refl))
finish_commit-Stored tm tx (SkipList.not_found, storage) = (refl, inr (refl, λ e. cc))
finish_commit-Stored tm tx (SkipList.corruption, storage) = (refl, inr (refl, λ e. cc))
finish_commit-Stored tm tx (SkipList.io_error, storage) = (refl, inr (refl, λ e. cc))
finish_commit-Stored tm tx (SkipList.invalid_arg, storage) = (refl, inr (refl, λ e. cc))
finish_commit-Stored tm tx (SkipList.no_memory, storage) = (refl, inr (refl, λ e. cc))

commit_checked-Decided :
    (io : ℕ → Io) (tm : Manager) (tx : Tx) (s : TxStatus)
    → Checked tm.storage tx.start_ts tx.write_set s
    → Decided io tm tx (commit_checked io tm tx s)
commit_checked-Decided io tm tx s (inl (c, later)) =
    subst (λ s. Decided io tm tx (commit_checked io tm tx s)) (sym c) (inl (refl, later, refl))
commit_checked-Decided io tm tx s (inr (fine, none_later)) =
    subst (λ s. Decided io tm tx (commit_checked io tm tx s)) (sym fine)
      (inr (
        none_later,
        finish_commit-Stored (record tm { next_ts = add64 tm.next_ts 1 })
            (record tx { commit_ts = tm.next_ts })
            (apply_writes io tm.storage tm.next_ts tx.write_set),
      ))

-- First committer wins: the commit of a live transaction answers TX_CONFLICT, and leaves the storage
-- as it was, if some key of its write set has a version in the storage after its snapshot; if none has,
-- the storage is afterwards what writing the write set under the next timestamp has made of it, and the
-- answer is TX_OK if all of these writes succeeded, and TX_IO_ERROR if one failed.
pub tx_commit_first_wins :
    (io : ℕ → Io) (tm : Manager) (id : ℕ) (tx : Tx)
    → IsConsistent tm
    → find_tx tm.active_txs id ≡ some tx
    → (s : TxStatus) × (tm' : Manager) × (tx_commit io tm id ≡ some (s, tm'))
      × (((s ≡ conflict)
            × SomeLater tm.storage tx.start_ts tx.write_set
            × (tm'.storage ≡ tm.storage))
          ⊎ (NoneLater tm.storage tx.start_ts tx.write_set
              × Stored (apply_writes io tm.storage tm.next_ts tx.write_set) s tm'.storage))
unfolding tx_commit
tx_commit_first_wins io tm id tx c e =
    let (live, numbered) = find_tx-AllSlots tm.next_ts id tm.active_txs tx c.slots e in
    let checked = check_write_conflicts tm.storage tx.start_ts tx.write_set in
    let r = commit_checked io tm tx checked in
    (
      r.0,
      r.1,
      ap (λ (o : Option Tx). elim o [ none ↦ none | some t ↦ some (commit_active io tm t t.state) ])
            e
          ∙ ap (λ st. some (commit_active io tm tx st)) live.in_use,
      commit_checked-Decided io tm tx checked
          (check_write_conflicts-Checked tm.storage tx.start_ts tx.write_set c.store live.writes),
    )
