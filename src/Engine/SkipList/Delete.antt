-- ===== src/Engine/SkipList/Delete.antt =====
-- `skiplist_delete`: tombstones.
use Prim.Native.Nat.{lt, eq, gt}
use first_principle_cs.Base.{
  ℕ, ◌+◌, ◌≤◌, ◌<◌, ◌≡◌, ◌≢◌, refl, sym, ap, subst, ◌∙◌, List, [], ◌∷◌, Option, none, some, true,
  false, if◌then◌else◌, if_case, length, u64, arith,
}
use first_principle_cs.Engine.Compare.{
  default_compare, by_order, order_case, is_equal, default_compare_refl,
}
use first_principle_cs.Engine.SkipList.{
  SkipNode, SkipList, Status, ok, find, found, splice, put, mark_at, mark, delete_found, then_mark,
  delete,
}
use first_principle_cs.Engine.SkipList.Search.{drop_below}
use first_principle_cs.Engine.SkipList.Map.{
  Entry, entry_of, entries, store, assign, bury, new_place, length-drop_below,
}
use first_principle_cs.Engine.SkipList.Put.{
  IsValid, put_refines, stored, find-drop_below, length-splice,
}
use first_principle_cs.Engine.SkipList.Get.{
  lookup, entry_found, found-lookup, lookup_past, lookup_here, lookup-store_same,
}

abbrev Buried : SkipList → List ℕ → SkipList → Type 0
Buried list key list' = IsValid list' × (entries list'.nodes ≡ bury key (entries list.nodes))

abbrev delete_node : SkipNode → SkipNode
delete_node n = record n { deleted = true }

mark_at-Buried :
    (list : SkipList) (place : List SkipNode) (key : List ℕ) (e : Entry)
    → IsValid list
    → place ≡ drop_below key list.nodes
    → entry_found (found key place) ≡ some e
    → Buried list key (mark_at list place key)
mark_at-Buried list [] key e v p = λ h. cc
mark_at-Buried list (n ∷ rest) key e v p =
    if_case (λ o. entry_found o ≡ some e → Buried list key (mark_at list (n ∷ rest) key))
      (is_equal (default_compare n.key key)) _ _
      (λ equal. λ _. subst (Buried list key) (ap (λ b. if b then after else list) (sym equal)) (
        stored list after delete_node (λ x. record x { deleted = true }) new v (λ n. refl)
          (λ n. refl) (λ n. refl)
          (subst (λ q. after.nodes ≡ splice list.nodes q (new_place delete_node new q)) p
            (ap
              (λ b.
                splice list.nodes (n ∷ rest) (if b then delete_node n ∷ rest else new ∷ n ∷ rest))
              (sym equal)))
          (omega arith) v.bounded (omega arith) v.positive
          (omega (
            arith,
            v.counted,
            length-splice list.nodes (n ∷ rest) (delete_node n ∷ rest) short,
            short,
          ))))
      (λ other. λ h. cc)
  where
    after : SkipList
    after = record list { nodes = splice list.nodes (n ∷ rest) (delete_node n ∷ rest) }

    new : SkipNode
    new = record { key = key; value = []; deleted = true; level = 1 }

    short : length (n ∷ rest) ≤ length list.nodes
    short = omega (arith, ap length p, length-drop_below key list.nodes)

mark-Buried :
    (list : SkipList) (key : List ℕ) (e : Entry)
    → IsValid list
    → lookup key (entries list.nodes) ≡ some e
    → Buried list key (mark list key)
mark-Buried list key e v h =
    mark_at-Buried list (find list key) key e v (find-drop_below list key v) (
      ap (λ p. entry_found (found key p)) (find-drop_below list key v)
      ∙ found-lookup key list.nodes
      ∙ h)

-- A store, by how the first key compares.
module _ (change : Entry → Entry) (new e : Entry) (es : List Entry) where
  store_past :
      default_compare e.key new.key ≡ lt → store change new (e ∷ es) ≡ e ∷ store change new es
  store_past h = ap (λ o. by_order o (e ∷ store change new es) (change e ∷ es) (new ∷ e ∷ es)) h

  store_here : default_compare e.key new.key ≡ eq → store change new (e ∷ es) ≡ change e ∷ es
  store_here h = ap (λ o. by_order o (e ∷ store change new es) (change e ∷ es) (new ∷ e ∷ es)) h

  store_over : default_compare e.key new.key ≡ gt → store change new (e ∷ es) ≡ new ∷ e ∷ es
  store_over h = ap (λ o. by_order o (e ∷ store change new es) (change e ∷ es) (new ∷ e ∷ es)) h

abbrev tombstone : List ℕ → Entry
tombstone key = record { key = key; value = []; deleted = true }

abbrev entomb : Entry → Entry
entomb e = record e { deleted = true }

abbrev blank : List ℕ → Entry
blank key = record { key = key; value = []; deleted = false }

-- An assignment where nothing was, and then a tombstone, is a tombstone.
bury-assign :
    (key : List ℕ) (es : List Entry)
    → lookup key es ≡ none
    → bury key (assign key [] es) ≡ bury key es
bury-assign key [] h = store_here entomb (tombstone key) (blank key) [] (default_compare_refl key)
bury-assign key (e ∷ es) h =
    order_case (λ r. bury key r ≡ bury key (e ∷ es)) (default_compare e.key key) _ _ _
      (λ less.
        store_past entomb (tombstone key) e (assign key [] es) less
        ∙ ap (e ∷◌) (bury-assign key es (sym (lookup_past key e es less) ∙ h))
        ∙ sym (store_past entomb (tombstone key) e es less))
      (λ equal. absurd (cc (lookup_here key e es equal, h)))
      (λ more.
        store_here entomb (tombstone key) (blank key) (e ∷ es) (default_compare_refl key)
        ∙ sym (store_over entomb (tombstone key) e es more))

then_mark-ok :
    (key : List ℕ) (r : Status × SkipList) → r.0 ≡ ok → then_mark r key ≡ (ok, mark r.1 key)
then_mark-ok key (Status.ok, list) h = refl
then_mark-ok key (Status.not_found, list) h = cc
then_mark-ok key (Status.corruption, list) h = cc
then_mark-ok key (Status.io_error, list) h = cc
then_mark-ok key (Status.invalid_arg, list) h = cc
then_mark-ok key (Status.no_memory, list) h = cc

abbrev DeleteDone : SkipList → List ℕ → Status × SkipList → Type 0
DeleteDone list key (s, list') = (s ≡ ok) × Buried list key list'

found-entries :
    (list : SkipList) (key : List ℕ) (o : Option SkipNode)
    → IsValid list
    → o ≡ found key (find list key)
    → lookup key (entries list.nodes) ≡ entry_found o
found-entries list key o v e =
    sym (found-lookup key list.nodes)
    ∙ ap (λ p. entry_found (found key p)) (sym (find-drop_below list key v))
    ∙ ap entry_found (sym e)

delete_found-done :
    (list : SkipList) (key : List ℕ) (o : Option SkipNode)
    → IsValid list
    → key ≢ []
    → list.count + 1 < u64
    → o ≡ found key (find list key)
    → DeleteDone list key (delete_found list key o)
unfolding delete_found
delete_found-done list key (some n) v h small e =
    (refl, mark-Buried list key (entry_of n) v (found-entries list key (some n) v e))
delete_found-done list key none v h small e =
    let (fine, valid, same) = put_refines list key [] v h small in
    let change : Entry → Entry = λ x. record x { value = []; deleted = false } in
    let (valid', same') = mark-Buried (put list key []).1 key _ valid (
      ap (lookup key) same
      ∙ lookup-store_same change (blank key) (λ x. refl) (entries list.nodes)) in
    subst (DeleteDone list key) (sym (then_mark-ok key (put list key []) fine)) (
      refl,
      (
        valid',
        same'
            ∙ ap (bury key) same
            ∙ bury-assign key (entries list.nodes) (found-entries list key none v e),
      ),
    )

-- `skiplist_delete` on a well-formed list, for a key that is not empty, keeps the list well formed, and
-- leaves a tombstone under the key: its entry is marked, or a marked one is added in its place.
pub delete_refines :
    (list : SkipList) (key : List ℕ)
    → IsValid list
    → key ≢ []
    → list.count + 1 < u64
    → let (s, list') = delete list key in
      (s ≡ ok) × IsValid list' × (entries list'.nodes ≡ bury key (entries list.nodes))
unfolding delete
delete_refines list [] v h small = absurd (h refl)
delete_refines list (b ∷ bs) v h small =
    let (fine, (valid, same)) = delete_found-done list (b ∷ bs) _ v h small refl in
    (fine, valid, same)
