-- ===== src/Tx/WriteSet.antt =====
-- tx.c: a transaction and the writes that it has buffered. `none` as a value is NULL. Allocation
-- succeeds. The writes are those below `write_count`, their number.
use first_principle_cs.Base.{
  ℕ, ◌*◌, List, [], ◌∷◌, ◌++◌, Option, none, some, Bool, true, false, leb, if◌then◌else◌, length,
}
use first_principle_cs.Engine.Compare.{default_compare, is_equal}
use first_principle_cs.Tx.Version.{TxStatus, ok, invalid_arg}

pub data TxState : Type 0 where
  active committed aborted : TxState

pub record WriteEntry : Type 0 where
  pub key : List ℕ
  pub value : List ℕ
  pub is_delete : Bool

pub record Tx : Type 0 where
  pub tx_id : ℕ
  pub start_ts : ℕ
  pub commit_ts : ℕ
  pub state : TxState
  pub write_set : List WriteEntry
  pub write_capacity : ℕ

abbrev pub tx_write_set_init_capacity : ℕ
tx_write_set_init_capacity = 16

abbrev pub tx_create : ℕ → ℕ → Tx
tx_create tx_id start_ts = record {
  tx_id = tx_id;
  start_ts = start_ts;
  commit_ts = 0;
  state = active;
  write_set = [];
  write_capacity = tx_write_set_init_capacity;
}

abbrev pub tx_clear_writes : Tx → Tx
tx_clear_writes tx = record tx { write_set = [] }

-- The same length and the same bytes.
abbrev pub same_key : List ℕ → List ℕ → Bool
same_key a b = is_equal (default_compare a b)

unfoldable pub find_write : List WriteEntry → List ℕ → Option WriteEntry
find_write [] key = none
find_write (w ∷ ws) key =
    let rest = find_write ws key in if same_key w.key key then some w else rest

abbrev pub tx_find_write : Tx → List ℕ → Option WriteEntry
tx_find_write tx key = find_write tx.write_set key

-- The first entry of the key, changed where it stands.
unfoldable pub update_write : List WriteEntry → List ℕ → List ℕ → Bool → List WriteEntry
update_write [] key value is_delete = []
update_write (w ∷ ws) key value is_delete =
    let rest = update_write ws key value is_delete in
    if same_key w.key key
    then (record w { value = value; is_delete = is_delete }) ∷ ws
    else w ∷ rest

-- The array is doubled when it is full.
abbrev pub grow_writes : Tx → Tx
grow_writes tx =
    if leb tx.write_capacity (length tx.write_set)
    then record tx { write_capacity = tx.write_capacity * 2 }
    else tx

abbrev pub append_write : Tx → WriteEntry → Tx
append_write tx w = record tx { write_set = tx.write_set ++ (w ∷ []) }

abbrev pub add_or_update : Tx → Option WriteEntry → List ℕ → List ℕ → Bool → Tx
add_or_update tx (some w) key value is_delete = record tx {
  write_set = update_write tx.write_set key value is_delete;
}
add_or_update tx none key value is_delete =
    append_write (grow_writes tx) (record { key = key; value = value; is_delete = is_delete })

-- A deletion has no value, a write must have one.
unfoldable pub tx_add_write : Tx → List ℕ → Option (List ℕ) → Bool → TxStatus × Tx
tx_add_write tx key value true = (ok, add_or_update tx (tx_find_write tx key) key [] true)
tx_add_write tx key none false = (invalid_arg, tx)
tx_add_write tx key (some value) false =
    (ok, add_or_update tx (tx_find_write tx key) key value false)
