-- ===== src/Engine/SkipList/Get.antt =====
-- Reading and deleting: `skiplist_get`, `skiplist_contains`, `skiplist_delete` on the sorted map.
use Prim.Native.Nat.{lt, eq, gt}
use first_principle_cs.Base.{
  ℕ, ◌+◌, ◌<◌, ◌≡◌, ◌≢◌, refl, sym, ap, ◌∙◌, List, [], ◌∷◌, Option, none, some, false,
  if◌then◌else◌, u64,
}
use first_principle_cs.Engine.Compare.{
  default_compare, by_order, order_case, is_less, is_equal, default_compare-eq,
  default_compare_refl, default_compare-gt_trans,
}
use first_principle_cs.Engine.SkipList.{
  SkipNode, SkipList, Status, ok, not_found, found, put, value_of, get,
}
use first_principle_cs.Engine.SkipList.Search.{drop_below}
use first_principle_cs.Engine.SkipList.Map.{Entry, entry_of, entries, store}
use first_principle_cs.Engine.SkipList.Put.{IsValid, put_refines, find-drop_below}

-- The entry of a key in a sorted list of entries.
abbrev pub lookup : List ℕ → List Entry → Option Entry
lookup key [] = none
lookup key (e ∷ es) =
    let rest = lookup key es in by_order (default_compare e.key key) rest (some e) none

abbrev pub entry_found : Option SkipNode → Option Entry
entry_found none = none
entry_found (some n) = some (entry_of n)

pub found-lookup :
    (key : List ℕ) (ns : List SkipNode)
    → entry_found (found key (drop_below key ns)) ≡ lookup key (entries ns)
found-lookup key [] = refl
found-lookup key (n ∷ ns) =
    order_case (λ r. entry_found (found key (drop_below key (n ∷ ns))) ≡ r)
      (default_compare n.key key) _ _ _ (λ less. rw less (found-lookup key ns))
      (λ equal.
        stop (ap is_less equal) ∙ ap (λ o. entry_found (if is_equal o then some n else none)) equal)
      (λ more.
        stop (ap is_less more) ∙ ap (λ o. entry_found (if is_equal o then some n else none)) more)
  where
    stop :
        is_less (default_compare n.key key) ≡ false
        → entry_found (found key (drop_below key (n ∷ ns))) ≡ entry_found (found key (n ∷ ns))
    stop h = ap (λ b. entry_found (found key (if b then drop_below key ns else n ∷ ns))) h

-- What a reader sees of an entry.
abbrev pub read_entry : Option Entry → Status × List ℕ
read_entry none = (not_found, [])
read_entry (some e) = if e.deleted then (not_found, []) else (ok, e.value)

value_of-read_entry : (o : Option SkipNode) → value_of o ≡ read_entry (entry_found o)
value_of-read_entry none = refl
value_of-read_entry (some n) = refl

-- `skiplist_get` gives the value of the key's entry, and finds nothing where there is none or a
-- tombstone.
pub get_lem :
    (list : SkipList) (key : List ℕ)
    → IsValid list
    → key ≢ []
    → get list key ≡ read_entry (lookup key (entries list.nodes))
unfolding get
get_lem list [] v h = absurd (h refl)
get_lem list (b ∷ bs) v h =
    ap (λ p. value_of (found (b ∷ bs) p)) (find-drop_below list (b ∷ bs) v)
    ∙ value_of-read_entry _
    ∙ ap read_entry (found-lookup (b ∷ bs) list.nodes)

-- A lookup, by how the first key compares.
pub lookup_past :
    (key : List ℕ) (e : Entry) (es : List Entry)
    → default_compare e.key key ≡ lt
    → lookup key (e ∷ es) ≡ lookup key es
lookup_past key e es h = ap (λ o. by_order o (lookup key es) (some e) none) h

pub lookup_here :
    (key : List ℕ) (e : Entry) (es : List Entry)
    → default_compare e.key key ≡ eq
    → lookup key (e ∷ es) ≡ some e
lookup_here key e es h = ap (λ o. by_order o (lookup key es) (some e) none) h

pub lookup_over :
    (key : List ℕ) (e : Entry) (es : List Entry)
    → default_compare e.key key ≡ gt
    → lookup key (e ∷ es) ≡ none
lookup_over key e es h = ap (λ o. by_order o (lookup key es) (some e) none) h

-- The key's own entry after a store.
abbrev pub changed : (Entry → Entry) → Entry → Option Entry → Entry
changed change new none = new
changed change new (some e) = change e

module _ (change : Entry → Entry) (new : Entry) (keys : (e : Entry) → (change e).key ≡ e.key) where
  pub lookup-store_same :
      (es : List Entry)
      → lookup new.key (store change new es) ≡ some (changed change new (lookup new.key es))
  lookup-store_same [] = lookup_here new.key new [] (default_compare_refl new.key)
  lookup-store_same (e ∷ es) =
      order_case (λ r. lookup new.key r ≡ some (changed change new (lookup new.key (e ∷ es))))
        (default_compare e.key new.key) _ _ _
        (λ less.
          lookup_past new.key e _ less
          ∙ lookup-store_same es
          ∙ ap (λ o. some (changed change new o)) (sym (lookup_past new.key e es less)))
        (λ equal.
          lookup_here new.key (change e) es (ap (λ k. default_compare k new.key) (keys e) ∙ equal)
          ∙ ap (λ o. some (changed change new o)) (sym (lookup_here new.key e es equal)))
        (λ more.
          lookup_here new.key new (e ∷ es) (default_compare_refl new.key)
          ∙ ap (λ o. some (changed change new o)) (sym (lookup_over new.key e es more)))

  pub lookup-store_other :
      (key : List ℕ) (es : List Entry)
      → key ≢ new.key
      → lookup key (store change new es) ≡ lookup key es
  lookup-store_other key [] other =
      order_case (λ r. r ≡ none) (default_compare new.key key) _ _ _ (λ _. refl)
        (λ equal. absurd (other (sym (default_compare-eq new.key key equal)))) (λ _. refl)
  lookup-store_other key (e ∷ es) other =
      order_case (λ r. lookup key r ≡ lookup key (e ∷ es)) (default_compare e.key new.key) _ _ _
        (λ less.
          ap (λ r. by_order (default_compare e.key key) r (some e) none)
            (lookup-store_other key es other))
        (λ equal.
          ap (λ k. by_order (default_compare k key) (lookup key es) (some (change e)) none) (keys e)
          ∙ order_case (λ r. r ≡ lookup key (e ∷ es)) (default_compare e.key key) _ _ _
              (λ less. sym (lookup_past key e es less))
              (λ same. absurd (
                other (
                  sym (default_compare-eq e.key key same)
                  ∙ default_compare-eq e.key new.key equal)))
              (λ more. sym (lookup_over key e es more)))
        (λ more.
          order_case (λ r. r ≡ lookup key (e ∷ es)) (default_compare new.key key) _ _ _ (λ _. refl)
            (λ equal. absurd (other (sym (default_compare-eq new.key key equal))))
            (λ before.
              sym (lookup_over key e es (default_compare-gt_trans e.key new.key key more before))))

-- After a put, the key has the value and every other key reads as before.
pub get-put :
    (list : SkipList) (key value other : List ℕ)
    → IsValid list
    → key ≢ []
    → other ≢ []
    → other ≢ key
    → list.count + 1 < u64
    → let list' = (put list key value).1 in
      (get list' key ≡ (ok, value)) × (get list' other ≡ get list other)
get-put list key value other v h h' apart small =
    let (s, valid, same) = put_refines list key value v h small in
    let list' = (put list key value).1 in
    let change : Entry → Entry = λ e. record e { value = value; deleted = false } in
    let new : Entry = record { key = key; value = value; deleted = false } in
    (
      get_lem list' key valid h
          ∙ ap (λ es. read_entry (lookup key es)) same
          ∙ ap read_entry (lookup-store_same change new (λ e. refl) (entries list.nodes))
          ∙ written (lookup key (entries list.nodes)),
      get_lem list' other valid h'
          ∙ ap (λ es. read_entry (lookup other es)) same
          ∙ ap read_entry
              (lookup-store_other change new (λ e. refl) other (entries list.nodes) apart)
          ∙ sym (get_lem list other v h'),
    )
  where
    written :
        (o : Option Entry)
        → read_entry (
            some (
              changed
                (λ e. record e { value = value; deleted = false })
                (record { key = key; value = value; deleted = false })
                o))
          ≡ (ok, value)
    written none = refl
    written (some e) = refl
