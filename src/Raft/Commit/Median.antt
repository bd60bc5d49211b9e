-- ===== src/Raft/Commit/Median.antt =====
-- `raft_get_majority_match_index`: the middle of the sorted match indices.
use first_principle_cs.Base.{
  ℕ, zero, suc, ◌+◌, ◌-◌, ◌/◌, ◌%◌, ◌≤◌, ◌<◌, ◌≡◌, refl, sym, ap, subst, ◌∙◌, ◌⊎◌, List, [], ◌∷◌,
  Bool, true, false, ◌&&◌, not, leb, if_case, get_or, length, map, length-map, arith,
}
use first_principle_cs.Raft.Types.{Role}
use first_principle_cs.Raft.Log
use first_principle_cs.Raft.Node.{Node, is_leader_role}
use first_principle_cs.Raft.Commit.{majority_match_index, match_indices, is_empty}
use first_principle_cs.Raft.Safety.Ballot.{count_true}

abbrev pub AllAbove : ℕ → List ℕ → Type 0
AllAbove a [] = Unit {0}
AllAbove a (x ∷ xs) = (a ≤ x) × AllAbove a xs

abbrev pub Ascending : List ℕ → Type 0
Ascending [] = Unit {0}
Ascending (x ∷ xs) = AllAbove x xs × Ascending xs

-- What `qsort` with `compare_uint64` does: it rearranges, into ascending order.
pub record Sorts (qsort : List ℕ → List ℕ) : Type 0 where
  pub ascending : (xs : List ℕ) → Ascending (qsort xs)
  pub rearranged :
      (p : ℕ → Bool) (xs : List ℕ) → count_true (map p (qsort xs)) ≡ count_true (map p xs)

-- More than half of the nodes hold the index: the leader, by its own log, or by what it knows of them.
pub record KnownByMajority (node : Node) (n : ℕ) : Type 0 where
  pub nodes : List Bool
  pub sized : length nodes ≡ node.num_nodes
  pub majority : node.num_nodes / 2 < count_true nodes
  pub held :
      (j : ℕ)
      → get_or nodes j false ≡ true
      → ((j ≡ node.node_id) × (n ≤ Log.last_index node.log)) ⊎ (n ≤ get_or node.match_index j 0)

above_all : (a : ℕ) (xs : List ℕ) → AllAbove a xs → count_true (map (leb a) xs) ≡ length xs
above_all a [] h = refl
above_all a (x ∷ xs) h = ground (arith, above_all a xs h.1)

count_more : (b : Bool) (bs : List Bool) → count_true bs ≤ count_true (b ∷ bs)
count_more true bs = omega arith
count_more false bs = omega arith

count_middle :
    (xs : List ℕ) (k : ℕ)
    → Ascending xs
    → k < length xs
    → length xs - k ≤ count_true (map (leb (get_or xs k 0)) xs)
count_middle [] k h l = absurd (omega arith)
count_middle (x ∷ xs) zero h l = ground (arith, above_all x xs h.0)
count_middle (x ∷ xs) (suc k) h l = omega (
  arith,
  count_middle xs k h.1 (omega arith),
  count_more (leb (get_or xs k 0) x) (map (leb (get_or xs k 0)) xs),
)

count_const : (xs : List ℕ) → count_true (map (λ _. true) xs) ≡ length xs
count_const [] = refl
count_const (x ∷ xs) = ap suc (count_const xs)

length-match_indices :
    (k i self last : ℕ) (matches : List ℕ) → length (match_indices k i self last matches) ≡ k
unfolding match_indices
length-match_indices zero i self last matches = refl
length-match_indices (suc k) i self last matches =
    ap suc (length-match_indices k (suc i) self last matches)

get_or-match_indices :
    (k i self last n : ℕ) (matches : List ℕ) (j : ℕ)
    → get_or (map (leb n) (match_indices k i self last matches)) j false ≡ true
    → ((i + j ≡ self) × (n ≤ last)) ⊎ (n ≤ get_or matches (i + j) 0)
unfolding match_indices
get_or-match_indices zero i self last n matches j h = cc
get_or-match_indices (suc k) i self last n matches zero h =
    subst (λ m. ((m ≡ self) × (n ≤ last)) ⊎ (n ≤ get_or matches m 0)) {x = i} (omega arith)
      (ground arith)
get_or-match_indices (suc k) i self last n matches (suc j) h =
    subst (λ m. ((m ≡ self) × (n ≤ last)) ⊎ (n ≤ get_or matches m 0)) {x = suc i + j} (omega arith)
      (get_or-match_indices k (suc i) self last n matches j h)

-- With a sorting `qsort`, on a leader of an odd number of nodes, more than half of the nodes hold the
-- index that `raft_get_majority_match_index` returns.
pub majority_match_index-KnownByMajority :
    (qsort : List ℕ → List ℕ) (node : Node)
    → Sorts qsort
    → node.role ≡ Role.leader
    → node.num_nodes % 2 ≡ 1
    → is_empty node.match_index ≡ false
    → KnownByMajority node (majority_match_index qsort node)
unfolding majority_match_index
majority_match_index-KnownByMajority qsort node s leads odd some_match =
    if_case (KnownByMajority node) (is_leader_role node.role && not (is_empty node.match_index)) _ _
      (λ _. record {
        nodes = map (leb middle) all;
        sized = length-map all (leb middle) ∙ sized;
        majority = most;
        held = λ j h.
            subst
              (λ m.
                ((m ≡ node.node_id) × (middle ≤ Log.last_index node.log))
                ⊎ (middle ≤ get_or node.match_index m 0))
              {x = 0 + j} (omega arith)
              (get_or-match_indices node.num_nodes 0 node.node_id (Log.last_index node.log) middle
                node.match_index j h);
      })
      (λ other. absurd (cc (other, ap is_leader_role leads, some_match)))
  where
    all : List ℕ
    all = match_indices node.num_nodes 0 node.node_id (Log.last_index node.log) node.match_index

    middle : ℕ
    middle = get_or (qsort all) (node.num_nodes / 2) 0

    sized : length all ≡ node.num_nodes
    sized =
        length-match_indices node.num_nodes 0 node.node_id (Log.last_index node.log)
          node.match_index

    permuted : length (qsort all) ≡ node.num_nodes
    permuted =
        sym (count_const (qsort all)) ∙ s.rearranged (λ _. true) all ∙ count_const all ∙ sized

    most : node.num_nodes / 2 < count_true (map (leb middle) all)
    most = omega (
      arith,
      odd,
      permuted,
      s.rearranged (leb middle) all,
      count_middle (qsort all) (node.num_nodes / 2) (s.ascending all)
          (omega (arith, permuted, odd)),
    )
