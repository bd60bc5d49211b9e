-- ===== src/Engine/SkipList/Map.antt =====
-- The skip list seen as a sorted list of entries, its numbers of levels forgotten.
use Prim.Native.Nat.{lt}
use first_principle_cs.Base.{
  ℕ, suc, ◌-◌, ◌≤◌, ◌≡◌, refl, sym, ap, subst, ◌∙◌, List, [], ◌∷◌, ◌++◌, Bool, true, false,
  if◌then◌else◌, length, take, map, arith,
}
use first_principle_cs.Engine.Compare.{
  default_compare, by_order, order_case, is_less, is_equal, default_compare_trans,
  default_compare-gt,
}
use first_principle_cs.Engine.SkipList.{SkipNode, splice}
use first_principle_cs.Engine.SkipList.Search.{AllAbove, Ascending, AllLevels, drop_below}

-- A key with its value, or a tombstone.
pub record Entry : Type 0 where
  pub key : List ℕ
  pub value : List ℕ
  pub deleted : Bool

abbrev pub entry_of : SkipNode → Entry
entry_of n = record { key = n.key; value = n.value; deleted = n.deleted }

abbrev pub entries : List SkipNode → List Entry
entries = map entry_of

-- Storing an entry in its place: what was there under the key gives way to `change` of it, and where
-- nothing was, `new` is added.
abbrev pub store : (Entry → Entry) → Entry → List Entry → List Entry
store change new [] = new ∷ []
store change new (e ∷ es) =
    let rest = store change new es in
    by_order (default_compare e.key new.key) (e ∷ rest) (change e ∷ es) (new ∷ e ∷ es)

abbrev pub assign : List ℕ → List ℕ → List Entry → List Entry
assign key value =
    store (λ e. record e { value = value; deleted = false })
      (record { key = key; value = value; deleted = false })

abbrev pub bury : List ℕ → List Entry → List Entry
bury key =
    store (λ e. record e { deleted = true }) (record { key = key; value = []; deleted = true })

-- Storing a node among nodes, in the same way.
abbrev pub store_node : (SkipNode → SkipNode) → SkipNode → List SkipNode → List SkipNode
store_node change new [] = new ∷ []
store_node change new (n ∷ ns) =
    let rest = store_node change new ns in
    by_order (default_compare n.key new.key) (n ∷ rest) (change n ∷ ns) (new ∷ n ∷ ns)

-- What stands from the found place on afterwards.
abbrev pub new_place : (SkipNode → SkipNode) → SkipNode → List SkipNode → List SkipNode
new_place change new [] = new ∷ []
new_place change new (n ∷ rest) =
    if is_equal (default_compare n.key new.key) then change n ∷ rest else new ∷ n ∷ rest

pub length-drop_below : (key : List ℕ) (ns : List SkipNode) → length (drop_below key ns) ≤ length ns
length-drop_below key [] = omega arith
length-drop_below key (n ∷ ns) = ground (arith, length-drop_below key ns)

pub splice-new_place :
    (change : SkipNode → SkipNode) (new : SkipNode) (ns : List SkipNode)
    → splice ns (drop_below new.key ns) (new_place change new (drop_below new.key ns))
      ≡ store_node change new ns
splice-new_place change new [] = refl
splice-new_place change new (n ∷ ns) =
    order_case
      (λ r.
        splice (n ∷ ns) (drop_below new.key (n ∷ ns))
          (new_place change new (drop_below new.key (n ∷ ns)))
        ≡ r)
      (default_compare n.key new.key) _ _ _
      (λ less. rw less (
        ap (λ k. take k (n ∷ ns) ++ new_place change new d) {y = suc (length ns - length d)}
          (omega (arith, length-drop_below new.key ns))
        ∙ ap (n ∷◌) (splice-new_place change new ns)))
      (λ equal.
        stop (ap is_less equal)
        ∙ ap (λ o. if is_equal o then change n ∷ ns else new ∷ n ∷ ns) equal)
      (λ more.
        stop (ap is_less more) ∙ ap (λ o. if is_equal o then change n ∷ ns else new ∷ n ∷ ns) more)
  where
    d : List SkipNode
    d = drop_below new.key ns

    stop :
        is_less (default_compare n.key new.key) ≡ false
        → splice
            (n ∷ ns)
            (drop_below new.key (n ∷ ns))
            (new_place change new (drop_below new.key (n ∷ ns)))
          ≡ new_place change new (n ∷ ns)
    stop h =
        ap (λ b. let r = if b then d else n ∷ ns in splice (n ∷ ns) r (new_place change new r)) h
        ∙ ap (λ k. take k (n ∷ ns) ++ new_place change new (n ∷ ns))
            {x = length (n ∷ ns) - length (n ∷ ns)} {y = 0} (omega arith)

pub entries-store_node :
    (change : SkipNode → SkipNode) (change' : Entry → Entry) (new : SkipNode) (ns : List SkipNode)
    → ((n : SkipNode) → entry_of (change n) ≡ change' (entry_of n))
    → entries (store_node change new ns) ≡ store change' (entry_of new) (entries ns)
entries-store_node change change' new [] h = refl
entries-store_node change change' new (n ∷ ns) h =
    ground (arith, entries-store_node change change' new ns h, h n)

-- What the new node and the changed ones keep.
store_node-AllAbove :
    (change : SkipNode → SkipNode) (new : SkipNode) (key : List ℕ) (ns : List SkipNode)
    → ((n : SkipNode) → (change n).key ≡ n.key)
    → default_compare key new.key ≡ lt
    → AllAbove key ns
    → AllAbove key (store_node change new ns)
store_node-AllAbove change new key [] h a b = (a, tt)
store_node-AllAbove change new key (n ∷ ns) h a b =
    order_case (AllAbove key) (default_compare n.key new.key) _ _ _
      (λ less. (b.0, store_node-AllAbove change new key ns h a b.1))
      (λ equal. (ap (default_compare key) (h n) ∙ b.0, b.1)) (λ more. (a, b))

AllAbove-trans :
    (a b : List ℕ) (ns : List SkipNode) → default_compare a b ≡ lt → AllAbove b ns → AllAbove a ns
AllAbove-trans a b [] h k = tt
AllAbove-trans a b (n ∷ ns) h k =
    (default_compare_trans a b n.key h k.0, AllAbove-trans a b ns h k.1)

pub store_node-Ascending :
    (change : SkipNode → SkipNode) (new : SkipNode) (ns : List SkipNode)
    → ((n : SkipNode) → (change n).key ≡ n.key)
    → Ascending ns
    → Ascending (store_node change new ns)
store_node-Ascending change new [] h a = (tt, tt)
store_node-Ascending change new (n ∷ ns) h a =
    order_case Ascending (default_compare n.key new.key) _ _ _
      (λ less. (
        store_node-AllAbove change new n.key ns h less a.0,
        store_node-Ascending change new ns h a.1,
      ))
      (λ equal. (subst (λ k. AllAbove k ns) (sym (h n)) a.0, a.1))
      (λ more.
        let before = default_compare-gt n.key new.key more in
        ((before, AllAbove-trans new.key n.key ns before a.0), a))

AllLevels-le : (low top : ℕ) (ns : List SkipNode) → low ≤ top → AllLevels low ns → AllLevels top ns
AllLevels-le low top [] h a = tt
AllLevels-le low top (n ∷ ns) h a = (a.0, omega (arith, a.1), AllLevels-le low top ns h a.2)

pub store_node-AllLevels :
    (change : SkipNode → SkipNode) (new : SkipNode) (low top : ℕ) (ns : List SkipNode)
    → ((n : SkipNode) → (change n).level ≡ n.level)
    → low ≤ top
    → 1 ≤ new.level
    → new.level ≤ top
    → AllLevels low ns
    → AllLevels top (store_node change new ns)
store_node-AllLevels change new low top [] h a b c d = (b, c, tt)
store_node-AllLevels change new low top (n ∷ ns) h a b c d =
    order_case (AllLevels top) (default_compare n.key new.key) _ _ _
      (λ less. (d.0, omega (arith, d.1), store_node-AllLevels change new low top ns h a b c d.2))
      (λ equal. (omega (arith, h n, d.0), omega (arith, h n, d.1), AllLevels-le low top ns a d.2))
      (λ more. (b, c, (d.0, omega (arith, d.1), AllLevels-le low top ns a d.2)))
