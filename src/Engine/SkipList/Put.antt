-- ===== src/Engine/SkipList/Put.antt =====
-- `skiplist_put` refines assignment to a sorted map.
use first_principle_cs.Base.{
  ℕ, zero, suc, ◌+◌, ◌-◌, ◌≤◌, ◌<◌, ◌≡◌, ◌≢◌, refl, sym, ap, subst, ◌∙◌, List, [], ◌∷◌, Bool, false,
  if◌then◌else◌, if_case, length, length-append, length-take, take, u64, arith,
}
use first_principle_cs.Engine.Compare.{default_compare, is_equal}
use first_principle_cs.Engine.SkipList.{
  SkipNode, SkipList, ok, create, find, splice, random_level, update_value, insert_node, put_at,
  put, skiplist_max_level, search,
}
use first_principle_cs.Engine.SkipList.Map.{
  Entry, entry_of, entries, store, assign, new_place, length-drop_below, splice-new_place,
  entries-store_node, store_node-Ascending, store_node-AllLevels,
}
use first_principle_cs.Engine.SkipList.Search.{Ascending, AllLevels, drop_below, search-drop_below}

pub record IsValid (list : SkipList) : Type 0 where
  pub ascending : Ascending list.nodes
  pub leveled : AllLevels list.level list.nodes
  pub positive : 1 ≤ list.level
  pub bounded : list.level ≤ skiplist_max_level
  pub counted : list.count ≡ length list.nodes

random_level-bounds :
    (rounds level : ℕ) (coins : ℕ → Bool)
    → (level ≤ (random_level rounds level coins).0)
      × ((random_level rounds level coins).0 ≤ level + rounds)
unfolding random_level
random_level-bounds zero level coins = omega arith
random_level-bounds (suc rounds) level coins =
    let (low, high) = random_level-bounds rounds (level + 1) (λ k. coins (suc k)) in
    if_case (λ (r : ℕ × (ℕ → Bool)). (level ≤ r.0) × (r.0 ≤ level + suc rounds)) (coins 0) _ _
      (λ _. omega (arith, low, high)) (λ _. omega arith)

pub find-drop_below :
    (list : SkipList) (key : List ℕ) → IsValid list → find list key ≡ drop_below key list.nodes
find-drop_below list key v =
    ap (λ i. search i key list.nodes) {y = suc (list.level - 1)} (omega (arith, v.positive))
    ∙ search-drop_below (list.level - 1) list.level key list.nodes v.ascending v.leveled

pub create-IsValid : (coins : ℕ → Bool) → IsValid (create coins)
unfolding create
create-IsValid coins = record {
  ascending = tt;
  leveled = tt;
  positive = omega arith;
  bounded = omega arith;
  counted = refl;
}

pub length-splice :
    (ns place new : List SkipNode)
    → length place ≤ length ns
    → length (splice ns place new) ≡ length ns - length place + length new
length-splice ns place new h = omega (
  arith,
  length-append (take (length ns - length place) ns) new,
  length-take (length ns - length place) ns,
)

-- A list with the new node, or the changed ones, in its place.
pub stored :
    (list list' : SkipList) (change : SkipNode → SkipNode) (change' : Entry → Entry)
    (new : SkipNode)
    → IsValid list
    → ((n : SkipNode) → (change n).key ≡ n.key)
    → ((n : SkipNode) → (change n).level ≡ n.level)
    → ((n : SkipNode) → entry_of (change n) ≡ change' (entry_of n))
    → list'.nodes
      ≡ splice list.nodes
          (drop_below new.key list.nodes)
          (new_place change new (drop_below new.key list.nodes))
    → list.level ≤ list'.level
    → list'.level ≤ skiplist_max_level
    → 1 ≤ new.level
    → new.level ≤ list'.level
    → list'.count ≡ length list'.nodes
    → IsValid list' × (entries list'.nodes ≡ store change' (entry_of new) (entries list.nodes))
stored list list' change change' new v keys levels same nodes a b c d counted =
    let e = nodes ∙ splice-new_place change new list.nodes in
    (
      record {
        ascending =
            subst Ascending (sym e) (store_node-Ascending change new list.nodes keys v.ascending);
        leveled = subst (AllLevels list'.level) (sym e) (
            store_node-AllLevels change new list.level list'.level list.nodes levels a c d
              v.leveled);
        positive = omega (arith, v.positive, a);
        bounded = b;
        counted = counted;
      },
      ap entries e ∙ entries-store_node change change' new list.nodes same,
    )

abbrev PutDone : SkipList → List ℕ → List ℕ → SkipList → Type 0
PutDone list key value list' =
    IsValid list' × (entries list'.nodes ≡ assign key value (entries list.nodes))

abbrev assign_node : List ℕ → SkipNode → SkipNode
assign_node value n = record n { value = value; deleted = false }

insert_node-done :
    (list : SkipList) (place : List SkipNode) (key value : List ℕ)
    → IsValid list
    → list.count + 1 < u64
    → place ≡ drop_below key list.nodes
    → ((new : SkipNode) → new.key ≡ key → new_place (assign_node value) new place ≡ new ∷ place)
    → PutDone list key value (insert_node list place key value)
insert_node-done list place key value v small e fresh =
    let (low, high) = random_level-bounds (skiplist_max_level - 1) 1 list.coins in
    stored list (insert_node list place key value) (assign_node value)
      (λ x. record x { value = value; deleted = false }) new v (λ n. refl) (λ n. refl) (λ n. refl)
      (subst
        (λ p.
          splice list.nodes place (new ∷ place)
          ≡ splice list.nodes p (new_place (assign_node value) new p))
        e (ap (splice list.nodes place) (sym (fresh new refl))))
      (ground arith) (ground (arith, high, v.bounded)) low (ground arith)
      (omega (arith, v.counted, length-splice list.nodes place (new ∷ place) short, short))
  where
    new : SkipNode
    new = record {
      key = key;
      value = value;
      deleted = false;
      level = (random_level (skiplist_max_level - 1) 1 list.coins).0;
    }

    short : length place ≤ length list.nodes
    short = omega (arith, ap length e, length-drop_below key list.nodes)

put_at-done :
    (list : SkipList) (place : List SkipNode) (key value : List ℕ)
    → IsValid list
    → list.count + 1 < u64
    → place ≡ drop_below key list.nodes
    → PutDone list key value (put_at list place key value)
put_at-done list [] key value v small e =
    insert_node-done list [] key value v small e (λ new h. refl)
put_at-done list (n ∷ rest) key value v small e =
    if_case (PutDone list key value) (is_equal (default_compare n.key key)) _ _
      (λ equal.
        stored list (update_value list (n ∷ rest) n rest value) (assign_node value)
          (λ x. record x { value = value; deleted = false }) updated v (λ n. refl) (λ n. refl)
          (λ n. refl)
          (subst
            (λ p.
              splice list.nodes (n ∷ rest) (assign_node value n ∷ rest)
              ≡ splice list.nodes p (new_place (assign_node value) updated p))
            e
            (ap
              (λ b.
                splice list.nodes (n ∷ rest)
                  (if b then assign_node value n ∷ rest else updated ∷ n ∷ rest))
              (sym equal)))
          (omega arith) v.bounded (omega arith) v.positive
          (omega (
            arith,
            v.counted,
            length-splice list.nodes (n ∷ rest) (assign_node value n ∷ rest) short,
            short,
          )))
      (λ other. insert_node-done list (n ∷ rest) key value v small e (λ new h.
        ap
          (λ k.
            if is_equal (default_compare n.key k)
            then assign_node value n ∷ rest
            else new ∷ n ∷ rest)
          h
        ∙ ap (λ b. if b then assign_node value n ∷ rest else new ∷ n ∷ rest) other))
  where
    updated : SkipNode
    updated = record { key = key; value = value; deleted = false; level = 1 }

    short : length (n ∷ rest) ≤ length list.nodes
    short = omega (arith, ap length e, length-drop_below key list.nodes)

-- `skiplist_put` on a well-formed list, for a key that is not empty, keeps the list well formed, and
-- changes its entries as an assignment to a sorted map does: the key's entry gets the value and is not
-- deleted, an entry is added in its place if there was none, and all others stay.
pub put_refines :
    (list : SkipList) (key value : List ℕ)
    → IsValid list
    → key ≢ []
    → list.count + 1 < u64
    → let (s, list') = put list key value in
      (s ≡ ok) × IsValid list' × (entries list'.nodes ≡ assign key value (entries list.nodes))
unfolding put
put_refines list [] value v h small = absurd (h refl)
put_refines list (b ∷ bs) value v h small =
    let (valid, same) =
      put_at-done list (find list (b ∷ bs)) (b ∷ bs) value v small
        (find-drop_below list (b ∷ bs) v) in
    (refl, valid, same)
