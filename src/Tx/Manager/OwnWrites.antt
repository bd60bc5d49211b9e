-- ===== src/Tx/Manager/OwnWrites.antt =====
-- A transaction reads its own writes.
use first_principle_cs.Base.{
  ℕ, ◌≡◌, ◌≢◌, refl, sym, ap, ◌∙◌, List, [], ◌∷◌, ◌++◌, Option, none, some, Bool, true, false,
  Bool-cases, inl, inr, ◌==◌, ==_iff, leb, if_case, if◌then◌else◌, length,
}
use first_principle_cs.Tx.Version.{TxStatus, ok, not_found}
use first_principle_cs.Tx.WriteSet.{
  Tx, WriteEntry, same_key, find_write, tx_find_write, update_write, append_write, add_or_update,
  tx_add_write,
}
use first_principle_cs.Tx.Manager.{
  Manager, to_tx, find_tx, set_tx, with_tx, write_active, tx_put, tx_delete, read_local,
  read_storage, get_active, tx_get,
}
use first_principle_cs.Tx.Manager.Versions.{same_key_refl, same_key-eq}
use first_principle_cs.Tx.Manager.Slots.{IsConsistent, find_tx-AllSlots}
use first_principle_cs.Tx.Manager.Snapshot.{found_tx}

-- What a transaction has buffered under a key: a value, a deletion, or nothing.
abbrev written : Option WriteEntry → Option (List ℕ × Bool)
written none = none
written (some w) = some (w.value, w.is_delete)

not_same_key : (a b : List ℕ) → a ≢ b → same_key a b ≡ false
not_same_key a b h = elim (Bool-cases (same_key a b)) [
  | inl e ↦ absurd (h (same_key-eq a b e))
  | inr e ↦ e
]

written-update_write :
    (ws : List WriteEntry) (key value : List ℕ) (d : Bool) (w : WriteEntry)
    → find_write ws key ≡ some w
    → written (find_write (update_write ws key value d) key) ≡ some (value, d)
unfolding find_write update_write
written-update_write [] key value d w = λ h. cc
written-update_write (x ∷ ws) key value d w = elim (Bool-cases (same_key x.key key)) [
  | inl same ↦ λ _. rw (same, same) refl
  | inr other ↦ λ h.
      ap
        (λ b. written (
          find_write
            (if b
              then record x { value = value; is_delete = d } ∷ ws
              else x ∷ update_write ws key value d)
            key))
        other
      ∙ ap (λ b. written (if b then some x else find_write (update_write ws key value d) key)) other
      ∙ written-update_write ws key value d w
          (sym (ap (λ b. if b then some x else find_write ws key) other) ∙ h)
]

find_write-update_write :
    (ws : List WriteEntry) (key value other : List ℕ) (d : Bool)
    → other ≢ key
    → find_write (update_write ws key value d) other ≡ find_write ws other
unfolding find_write update_write
find_write-update_write [] key value other d h = refl
find_write-update_write (x ∷ ws) key value other d h =
    if_case (λ r. find_write r other ≡ find_write (x ∷ ws) other) (same_key x.key key) _ _
      (λ same. rw (not_same_key x.key other (λ e. h (sym e ∙ same_key-eq x.key key same))) refl)
      (λ _.
        ap (λ r. if same_key x.key other then some x else r)
          (find_write-update_write ws key value other d h))

find_write-append :
    (ws : List WriteEntry) (w : WriteEntry) (key : List ℕ)
    → find_write ws key ≡ none
    → w.key ≡ key
    → find_write (ws ++ (w ∷ [])) key ≡ some w
unfolding find_write
find_write-append [] w key h e =
    ap (λ b. if b then some w else none) (ap (λ k. same_key k key) e ∙ same_key_refl key)
find_write-append (x ∷ ws) w key h e = elim (Bool-cases (same_key x.key key)) [
  | inl same ↦ absurd (cc (sym (ap (λ b. if b then some x else find_write ws key) same) ∙ h))
  | inr other ↦
      ap (λ b. if b then some x else find_write (ws ++ (w ∷ [])) key) other
      ∙ find_write-append ws w key
          (sym (ap (λ b. if b then some x else find_write ws key) other) ∙ h) e
]

find_write-append_other :
    (ws : List WriteEntry) (w : WriteEntry) (other : List ℕ)
    → other ≢ w.key
    → find_write (ws ++ (w ∷ [])) other ≡ find_write ws other
unfolding find_write
find_write-append_other [] w other h =
    ap (λ b. if b then some w else none) (not_same_key w.key other (λ e. h (sym e)))
find_write-append_other (x ∷ ws) w other h =
    ap (λ r. if same_key x.key other then some x else r) (find_write-append_other ws w other h)

-- The transaction with a write added.
record Buffered (tx : Tx) (key value : List ℕ) (d : Bool) (tx' : Tx) : Type 0 where
  here : written (tx_find_write tx' key) ≡ some (value, d)
  elsewhere : (other : List ℕ) → other ≢ key → tx_find_write tx' other ≡ tx_find_write tx other
  same_id : tx'.tx_id ≡ tx.tx_id
  same_start : tx'.start_ts ≡ tx.start_ts
  same_state : tx'.state ≡ tx.state

add_or_update-Buffered :
    (tx : Tx) (o : Option WriteEntry) (key value : List ℕ) (d : Bool)
    → tx_find_write tx key ≡ o
    → Buffered tx key value d (add_or_update tx o key value d)
add_or_update-Buffered tx (some w) key value d e = record {
  here = written-update_write tx.write_set key value d w e;
  elsewhere = λ other h. find_write-update_write tx.write_set key value other d h;
  same_id = refl;
  same_start = refl;
  same_state = refl;
}
add_or_update-Buffered tx none key value d e =
    if_case (λ (t : Tx). Buffered tx key value d (append_write t w))
      (leb tx.write_capacity (length tx.write_set)) _ _
      (λ _. record {
        here = ap written (find_write-append tx.write_set w key e refl);
        elsewhere = λ other h. find_write-append_other tx.write_set w other h;
        same_id = refl;
        same_start = refl;
        same_state = refl;
      })
      (λ _. record {
        here = ap written (find_write-append tx.write_set w key e refl);
        elsewhere = λ other h. find_write-append_other tx.write_set w other h;
        same_id = refl;
        same_start = refl;
        same_state = refl;
      })
  where
    w : WriteEntry
    w = record { key = key; value = value; is_delete = d }

read_local-written :
    (o : Option WriteEntry) (value : List ℕ) (d : Bool) (stored : Option (TxStatus × List ℕ))
    → written o ≡ some (value, d)
    → read_local o stored ≡ some (if d then (not_found, []) else (ok, value))
read_local-written none value d stored h = cc
read_local-written (some w) value d stored h = ap choose h
  where
    choose : Option (List ℕ × Bool) → Option (TxStatus × List ℕ)
    choose none = none
    choose (some (v, b)) = some (if b then (not_found, []) else (ok, v))

find_tx-set_tx_self :
    (id : ℕ) (slots : List (Option Tx)) (tx tx' : Tx)
    → find_tx slots id ≡ some tx
    → tx'.tx_id ≡ id
    → find_tx (set_tx slots tx') id ≡ some tx'
unfolding find_tx set_tx
find_tx-set_tx_self id [] tx tx' h e = cc
find_tx-set_tx_self id (none ∷ slots) tx tx' h e = find_tx-set_tx_self id slots tx tx' h e
find_tx-set_tx_self id (some t ∷ slots) tx tx' h e = elim (Bool-cases (t.tx_id == id)) [
  | inl same ↦
      ap (λ b. find_tx (if b then some tx' ∷ slots else some t ∷ set_tx slots tx') id)
        (ap (t.tx_id ==◌) e ∙ same)
      ∙ ap (λ b. if b then some tx' else find_tx slots id) ((==_iff tx'.tx_id id).1 e)
  | inr other ↦
      ap (λ b. find_tx (if b then some tx' ∷ slots else some t ∷ set_tx slots tx') id)
        (ap (t.tx_id ==◌) e ∙ other)
      ∙ ap (λ b. if b then some t else find_tx (set_tx slots tx') id) other
      ∙ find_tx-set_tx_self id slots tx tx'
          (sym (ap (λ b. if b then some t else find_tx slots id) other) ∙ h) e
]

-- What the transaction reads with the write added.
own_read :
    (tm : Manager) (id : ℕ) (tx tx' : Tx) (key value other : List ℕ) (d : Bool)
    → IsConsistent tm
    → find_tx tm.active_txs id ≡ some tx
    → other ≢ key
    → Buffered tx key value d tx'
    → (tx_get (with_tx tm tx') id key ≡ some (if d then (not_found, []) else (ok, value)))
      × (tx_get (with_tx tm tx') id other ≡ tx_get tm id other)
own_read tm id tx tx' key value other d c e apart b =
    let (live, numbered) = find_tx-AllSlots tm.next_ts id tm.active_txs tx c.slots e in
    let there = find_tx-set_tx_self id tm.active_txs tx tx' e (b.same_id ∙ numbered) in
    let in_use = b.same_state ∙ live.in_use in
    (
      found_tx (with_tx tm tx') id tx' key there
          ∙ ap (λ st. get_active (with_tx tm tx') tx' st key) in_use
          ∙ read_local-written (tx_find_write tx' key) value d
              (read_storage tm.storage tx'.start_ts key) b.here,
      found_tx (with_tx tm tx') id tx' other there
          ∙ ap (λ st. get_active (with_tx tm tx') tx' st other) in_use
          ∙ ap (λ o. read_local o (read_storage tm.storage tx'.start_ts other))
              (b.elsewhere other apart)
          ∙ ap (λ t. read_local (tx_find_write tx other) (read_storage tm.storage t other))
              b.same_start
          ∙ sym (ap (λ st. get_active tm tx st other) live.in_use)
          ∙ sym (found_tx tm id tx other e),
    )

-- Read your writes: a live transaction can put every value under every key, the key then reads as the
-- value, and every other key as before; it can delete every key, the key is then not found, and every
-- other key reads as before.
pub tx_get_own_writes :
    (tm : Manager) (id : ℕ) (tx : Tx) (key value other : List ℕ)
    → IsConsistent tm
    → find_tx tm.active_txs id ≡ some tx
    → other ≢ key
    → ((tm' : Manager) × (tx_put tm id key value ≡ some (ok, tm'))
        × (tx_get tm' id key ≡ some (ok, value))
        × (tx_get tm' id other ≡ tx_get tm id other))
      × ((tm' : Manager) × (tx_delete tm id key ≡ some (ok, tm'))
          × (tx_get tm' id key ≡ some (not_found, []))
          × (tx_get tm' id other ≡ tx_get tm id other))
unfolding tx_put tx_delete tx_add_write
tx_get_own_writes tm id tx key value other c e apart =
    let (live, numbered) = find_tx-AllSlots tm.next_ts id tm.active_txs tx c.slots e in
    let put = add_or_update tx (tx_find_write tx key) key value false in
    let deleted = add_or_update tx (tx_find_write tx key) key [] true in
    let (here, there) =
      own_read tm id tx put key value other false c e apart
        (add_or_update-Buffered tx (tx_find_write tx key) key value false refl) in
    let (here', there') =
      own_read tm id tx deleted key [] other true c e apart
        (add_or_update-Buffered tx (tx_find_write tx key) key [] true refl) in
    (
      (
        with_tx tm put,
        reached (λ t. write_active tm t t.state key (some value) false)
            ∙ ap (λ st. some (write_active tm tx st key (some value) false)) live.in_use,
        here,
        there,
      ),
      (
        with_tx tm deleted,
        reached (λ t. write_active tm t t.state key none true)
            ∙ ap (λ st. some (write_active tm tx st key none true)) live.in_use,
        here',
        there',
      ),
    )
  where
    reached : (f : Tx → TxStatus × Manager) → to_tx tm id f ≡ some (f tx)
    reached f = ap (λ (o : Option Tx). elim o [ none ↦ none | some t ↦ some (f t) ]) e
