-- ===== src/Engine/SkipList.antt =====
-- skiplist.c. `forward[i]` of a node is the next node behind it that has more than `i` levels, so the
-- nodes in the order of `forward[0]`, each with its number of levels, determine every pointer; the
-- header stands before the first of them. A place in the list is what follows it. Allocation succeeds,
-- the comparison is the default one, and `coins` are the results of the later tests
-- `rand() / RAND_MAX < SKIPLIST_P`. A NULL value is the empty list. Sizes are those of a 64-bit machine.
pub mod Delete
pub mod Get
pub mod Map
pub mod Put
pub mod Search
use Prim.Native.Nat.{compare, Ordering}
use first_principle_cs.Base.{
  ℕ, zero, suc, ◌+◌, ◌-◌, ◌*◌, List, [], ◌∷◌, ◌++◌, Option, none, some, Bool, true, false, ltb,
  ◌==◌, if◌then◌else◌, length, take, add64, sub64,
}
use first_principle_cs.Engine.Compare.{default_compare, is_less, is_equal}

pub data Status : Type 0 where
  ok not_found corruption io_error invalid_arg no_memory : Status

pub record SkipNode : Type 0 where
  pub key : List ℕ
  pub value : List ℕ
  pub deleted : Bool
  pub level : ℕ

pub record SkipList : Type 0 where
  pub nodes : List SkipNode
  pub level : ℕ
  pub count : ℕ
  pub memory_usage : ℕ
  pub coins : ℕ → Bool

abbrev pub skiplist_max_level : ℕ
skiplist_max_level = 12

abbrev pub size_of_list : ℕ
size_of_list = 40

abbrev pub size_of_node : ℕ
size_of_node = 56

abbrev pub size_of_pointer : ℕ
size_of_pointer = 8

-- The loop of `random_level`, `rounds` below the highest level: the test is made before the bound is
-- looked at.
unfoldable pub random_level : ℕ → ℕ → (ℕ → Bool) → ℕ × (ℕ → Bool)
random_level zero level coins = (level, λ k. coins (suc k))
random_level (suc rounds) level coins =
    let higher = random_level rounds (level + 1) (λ k. coins (suc k)) in
    if coins 0 then higher else (level, λ k. coins (suc k))

unfoldable pub create : (ℕ → Bool) → SkipList
create coins = record {
  nodes = [];
  level = 1;
  count = 0;
  memory_usage = size_of_list + size_of_node + size_of_pointer * skiplist_max_level;
  coins = coins;
}

-- The inner loop on level `i`, from the place before `rest`: `scan` is what is left of `rest` in the
-- search for the next node of that level.
unfoldable pub walk : ℕ → List ℕ → List SkipNode → List SkipNode → List SkipNode
walk i key rest [] = rest
walk i key rest (n ∷ scan) =
    let past = walk i key scan scan in
    let skip = walk i key rest scan in
    if ltb i n.level then if is_less (default_compare n.key key) then past else rest else skip

-- The outer loop, on the levels below `i` from the highest down.
unfoldable pub search : ℕ → List ℕ → List SkipNode → List SkipNode
search zero key rest = rest
search (suc i) key rest = search i key (walk i key rest rest)

abbrev pub find : SkipList → List ℕ → List SkipNode
find list key = search list.level key list.nodes

-- The node that the search ends at, if it has the key.
abbrev pub found : List ℕ → List SkipNode → Option SkipNode
found key [] = none
found key (n ∷ rest) = if is_equal (default_compare n.key key) then some n else none

-- The list with other nodes in place of those from the found place on.
abbrev pub splice : List SkipNode → List SkipNode → List SkipNode → List SkipNode
splice nodes rest new = take (length nodes - length rest) nodes ++ new

abbrev pub update_value : SkipList → List SkipNode → SkipNode → List SkipNode → List ℕ → SkipList
update_value list place n rest value = record list {
  nodes = splice list.nodes place (record n { value = value; deleted = false } ∷ rest);
  memory_usage = add64 (sub64 list.memory_usage (length n.value)) (length value);
}

abbrev pub insert_node : SkipList → List SkipNode → List ℕ → List ℕ → SkipList
insert_node list place key value =
    let (new_level, coins) = random_level (skiplist_max_level - 1) 1 list.coins in
    record list {
      nodes =
          splice list.nodes place
            (record { key = key; value = value; deleted = false; level = new_level } ∷ place);
      level = if ltb list.level new_level then new_level else list.level;
      count = add64 list.count 1;
      memory_usage =
          add64 list.memory_usage
            (size_of_node + size_of_pointer * new_level + length key + length value);
      coins = coins;
    }

abbrev pub put_at : SkipList → List SkipNode → List ℕ → List ℕ → SkipList
put_at list [] key value = insert_node list [] key value
put_at list (n ∷ rest) key value =
    if is_equal (default_compare n.key key)
    then update_value list (n ∷ rest) n rest value
    else insert_node list (n ∷ rest) key value

unfoldable pub put : SkipList → List ℕ → List ℕ → Status × SkipList
put list [] value = (invalid_arg, list)
put list (b ∷ bs) value = (ok, put_at list (find list (b ∷ bs)) (b ∷ bs) value)

abbrev pub value_of : Option SkipNode → Status × List ℕ
value_of none = (not_found, [])
value_of (some n) = if n.deleted then (not_found, []) else (ok, n.value)

unfoldable pub get : SkipList → List ℕ → Status × List ℕ
get list [] = (invalid_arg, [])
get list (b ∷ bs) = value_of (found (b ∷ bs) (find list (b ∷ bs)))

abbrev pub mark_at : SkipList → List SkipNode → List ℕ → SkipList
mark_at list [] key = list
mark_at list (n ∷ rest) key =
    if is_equal (default_compare n.key key)
    then record list { nodes = splice list.nodes (n ∷ rest) (record n { deleted = true } ∷ rest) }
    else list

abbrev pub mark : SkipList → List ℕ → SkipList
mark list key = mark_at list (find list key) key

abbrev pub then_mark : Status × SkipList → List ℕ → Status × SkipList
then_mark (ok, list) key = (ok, mark list key)
then_mark (s, list) key = (s, list)

-- A tombstone is marked in place, or inserted and then marked.
unfoldable pub delete_found : SkipList → List ℕ → Option SkipNode → Status × SkipList
delete_found list key (some n) = (ok, mark list key)
delete_found list key none = then_mark (put list key []) key

unfoldable pub delete : SkipList → List ℕ → Status × SkipList
delete list [] = (invalid_arg, list)
delete list (b ∷ bs) = delete_found list (b ∷ bs) (found (b ∷ bs) (find list (b ∷ bs)))

abbrev pub is_found : Option SkipNode → Bool
is_found none = false
is_found (some n) = true

unfoldable pub contains : SkipList → List ℕ → Bool
contains list [] = false
contains list (b ∷ bs) = is_found (found (b ∷ bs) (find list (b ∷ bs)))

-- An iterator is the nodes from its current one on; seeking for the empty key moves nothing.
unfoldable pub seek_to_first : SkipList → List SkipNode
seek_to_first list = list.nodes

unfoldable pub seek : SkipList → List SkipNode → List ℕ → List SkipNode
seek list current [] = current
seek list current (b ∷ bs) = find list (b ∷ bs)

unfoldable pub next : List SkipNode → List SkipNode
next [] = []
next (n ∷ rest) = rest
