-- ===== src/Tx/Manager/Slots.antt =====
-- The slots of the active transactions, and the invariant of the manager.
use first_principle_cs.Base.{
  ℕ, ◌<◌, ◌≤◌, ◌≡◌, ◌≢◌, refl, sym, ap, subst, ◌∙◌, List, [], ◌∷◌, ◌++◌, Option, none, some, Bool,
  true, false, ◌==◌, ==_iff, leb, if_case, if◌then◌else◌, length, u64, arith,
}
use first_principle_cs.Tx.WriteSet.{
  Tx, active, WriteEntry, same_key, tx_find_write, update_write, append_write, add_or_update,
  tx_add_write,
}
use first_principle_cs.Tx.Manager.{Manager, find_tx, set_tx, remove_active_tx, add_active_tx}
use first_principle_cs.Tx.Manager.Reads.{IsStore}
use first_principle_cs.Tx.Manager.Writes.{IsKey, AllKeys}

-- A live transaction took its snapshot before the next timestamp, and has buffered writes of keys.
pub record IsLive (next_ts : ℕ) (tx : Tx) : Type 0 where
  pub began : tx.start_ts < next_ts
  pub writes : AllKeys tx.write_set
  pub in_use : tx.state ≡ active

abbrev pub AllSlots : ℕ → List (Option Tx) → Type 0
AllSlots n [] = Unit {0}
AllSlots n (none ∷ slots) = AllSlots n slots
AllSlots n (some t ∷ slots) = IsLive n t × AllSlots n slots

pub record IsConsistent (tm : Manager) : Type 0 where
  pub store : IsStore tm.storage
  pub slots : AllSlots tm.next_ts tm.active_txs
  pub small : tm.next_ts < u64

pub AllSlots-later :
    (n m : ℕ) (slots : List (Option Tx)) → n ≤ m → AllSlots n slots → AllSlots m slots
AllSlots-later n m [] h s = tt
AllSlots-later n m (none ∷ slots) h s = AllSlots-later n m slots h s
AllSlots-later n m (some t ∷ slots) h (l, s) = (
  record { began = omega (arith, l.began, h); writes = l.writes; in_use = l.in_use },
  AllSlots-later n m slots h s,
)

pub find_tx-AllSlots :
    (n id : ℕ) (slots : List (Option Tx)) (tx : Tx)
    → AllSlots n slots
    → find_tx slots id ≡ some tx
    → IsLive n tx × (tx.tx_id ≡ id)
unfolding find_tx
find_tx-AllSlots n id [] tx s = λ h. cc
find_tx-AllSlots n id (none ∷ slots) tx s = find_tx-AllSlots n id slots tx s
find_tx-AllSlots n id (some t ∷ slots) tx (l, s) =
    if_case (λ o. o ≡ some tx → IsLive n tx × (tx.tx_id ≡ id)) (t.tx_id == id) _ _
      (λ same. λ h.
        let e : t ≡ tx = cc in
        (subst (IsLive n) e l, ap (λ (x : Tx). x.tx_id) (sym e) ∙ (==_iff t.tx_id id).0 same))
      (λ _. find_tx-AllSlots n id slots tx s)

pub set_tx-AllSlots :
    (n : ℕ) (slots : List (Option Tx)) (tx : Tx)
    → IsLive n tx
    → AllSlots n slots
    → AllSlots n (set_tx slots tx)
unfolding set_tx
set_tx-AllSlots n [] tx l s = tt
set_tx-AllSlots n (none ∷ slots) tx l s = set_tx-AllSlots n slots tx l s
set_tx-AllSlots n (some t ∷ slots) tx l (h, s) =
    if_case (AllSlots n) (t.tx_id == tx.tx_id) _ _ (λ _. (l, s))
      (λ _. (h, set_tx-AllSlots n slots tx l s))

pub remove_active_tx-AllSlots :
    (n id : ℕ) (slots : List (Option Tx))
    → AllSlots n slots
    → AllSlots n (remove_active_tx slots id)
unfolding remove_active_tx
remove_active_tx-AllSlots n id [] s = tt
remove_active_tx-AllSlots n id (none ∷ slots) s = remove_active_tx-AllSlots n id slots s
remove_active_tx-AllSlots n id (some t ∷ slots) (h, s) =
    if_case (AllSlots n) (t.tx_id == id) _ _ (λ _. s)
      (λ _. (h, remove_active_tx-AllSlots n id slots s))

pub add_active_tx-AllSlots :
    (n : ℕ) (slots : List (Option Tx)) (tx : Tx)
    → IsLive n tx
    → AllSlots n slots
    → AllSlots n (add_active_tx slots tx)
unfolding add_active_tx
add_active_tx-AllSlots n [] tx l s = tt
add_active_tx-AllSlots n (none ∷ slots) tx l s = (l, s)
add_active_tx-AllSlots n (some t ∷ slots) tx l (h, s) = (h, add_active_tx-AllSlots n slots tx l s)

not_same : (a b : ℕ) → a ≢ b → (a == b) ≡ false
not_same a b h = ground arith

-- What happens to one transaction leaves the others where they are.
pub find_tx-set_tx :
    (b : ℕ) (slots : List (Option Tx)) (tx : Tx)
    → tx.tx_id ≢ b
    → find_tx (set_tx slots tx) b ≡ find_tx slots b
unfolding find_tx set_tx
find_tx-set_tx b [] tx h = refl
find_tx-set_tx b (none ∷ slots) tx h = find_tx-set_tx b slots tx h
find_tx-set_tx b (some t ∷ slots) tx h =
    if_case (λ r. find_tx r b ≡ find_tx (some t ∷ slots) b) (t.tx_id == tx.tx_id) _ _
      (λ same.
        ap (λ c. if c then some tx else find_tx slots b) (not_same tx.tx_id b h)
        ∙ sym (
            ap (λ c. if c then some t else find_tx slots b)
              (not_same t.tx_id b (λ e. h (sym ((==_iff t.tx_id tx.tx_id).0 same) ∙ e)))))
      (λ _. ap (λ r. if t.tx_id == b then some t else r) (find_tx-set_tx b slots tx h))

pub find_tx-remove_active_tx :
    (b id : ℕ) (slots : List (Option Tx))
    → id ≢ b
    → find_tx (remove_active_tx slots id) b ≡ find_tx slots b
unfolding find_tx remove_active_tx
find_tx-remove_active_tx b id [] h = refl
find_tx-remove_active_tx b id (none ∷ slots) h = find_tx-remove_active_tx b id slots h
find_tx-remove_active_tx b id (some t ∷ slots) h =
    if_case (λ r. find_tx r b ≡ find_tx (some t ∷ slots) b) (t.tx_id == id) _ _
      (λ same. sym (
        ap (λ c. if c then some t else find_tx slots b)
          (not_same t.tx_id b (λ e. h (sym ((==_iff t.tx_id id).0 same) ∙ e)))))
      (λ _. ap (λ r. if t.tx_id == b then some t else r) (find_tx-remove_active_tx b id slots h))

pub find_tx-add_active_tx :
    (b : ℕ) (slots : List (Option Tx)) (tx : Tx)
    → tx.tx_id ≢ b
    → find_tx (add_active_tx slots tx) b ≡ find_tx slots b
unfolding find_tx add_active_tx
find_tx-add_active_tx b [] tx h = refl
find_tx-add_active_tx b (none ∷ slots) tx h =
    ap (λ c. if c then some tx else find_tx slots b) (not_same tx.tx_id b h)
find_tx-add_active_tx b (some t ∷ slots) tx h =
    ap (λ r. if t.tx_id == b then some t else r) (find_tx-add_active_tx b slots tx h)

-- A buffered write keeps the keys of the write set such as may be written.
update_write-AllKeys :
    (ws : List WriteEntry) (key value : List ℕ) (d : Bool)
    → AllKeys ws
    → AllKeys (update_write ws key value d)
unfolding update_write
update_write-AllKeys [] key value d k = tt
update_write-AllKeys (w ∷ ws) key value d (k, ks) =
    if_case AllKeys (same_key w.key key) _ _ (λ _. (k, ks))
      (λ _. (k, update_write-AllKeys ws key value d ks))

AllKeys-append :
    (ws : List WriteEntry) (w : WriteEntry) → AllKeys ws → IsKey w.key → AllKeys (ws ++ (w ∷ []))
AllKeys-append [] w k i = (i, tt)
AllKeys-append (x ∷ ws) w (k, ks) i = (k, AllKeys-append ws w ks i)

add_or_update-IsLive :
    (n : ℕ) (tx : Tx) (o : Option WriteEntry) (key value : List ℕ) (d : Bool)
    → IsLive n tx
    → IsKey key
    → IsLive n (add_or_update tx o key value d)
      × ((add_or_update tx o key value d).tx_id ≡ tx.tx_id)
add_or_update-IsLive n tx (some w) key value d l k = (
  record {
    began = l.began;
    writes = update_write-AllKeys tx.write_set key value d l.writes;
    in_use = l.in_use;
  },
  refl,
)
add_or_update-IsLive n tx none key value d l k =
    if_case
      (λ (t : Tx).
        IsLive n (append_write t (record { key = key; value = value; is_delete = d }))
        × ((append_write t (record { key = key; value = value; is_delete = d })).tx_id ≡ tx.tx_id))
      (leb tx.write_capacity (length tx.write_set)) _ _
      (λ _. (
        record {
          began = l.began;
          writes = AllKeys-append tx.write_set _ l.writes k;
          in_use = l.in_use;
        },
        refl,
      ))
      (λ _. (
        record {
          began = l.began;
          writes = AllKeys-append tx.write_set _ l.writes k;
          in_use = l.in_use;
        },
        refl,
      ))

pub tx_add_write-IsLive :
    (n : ℕ) (tx : Tx) (key : List ℕ) (value : Option (List ℕ)) (d : Bool)
    → IsLive n tx
    → IsKey key
    → IsLive n (tx_add_write tx key value d).1 × ((tx_add_write tx key value d).1.tx_id ≡ tx.tx_id)
unfolding tx_add_write
tx_add_write-IsLive n tx key value true l k =
    add_or_update-IsLive n tx (tx_find_write tx key) key [] true l k
tx_add_write-IsLive n tx key none false l k = (l, refl)
tx_add_write-IsLive n tx key (some v) false l k =
    add_or_update-IsLive n tx (tx_find_write tx key) key v false l k
