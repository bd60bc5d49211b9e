-- ===== src/Raft/Commit/Tests.antt =====
-- A leader of three nodes with three entries in its log, of which node 1 holds all and node 2 one.
use first_principle_cs.Raft.Safety.Ballot.{count_true}
use first_principle_cs.Base.{
  ℕ, leb, leb→le, map, if_case, if◌then◌else◌, ◌≤◌, ◌-◌, ◌≡◌, refl, pos, List, [], ◌∷◌, Bool, true,
  false, arith, max,
}
use first_principle_cs.Raft.Types.{ok, Role}
use first_principle_cs.Raft.Log
use first_principle_cs.Raft.Log.Tests.{three, three-IsValid}
use first_principle_cs.Raft.Node.{Node, apply_committed}
use first_principle_cs.Raft.Node.Apply.{Applied, apply_committed-Applied}
use first_principle_cs.Raft.Commit.{advance_commit_index, majority_match_index}
use first_principle_cs.Raft.Commit.Advance.{
  count_true-cons, Advanced, advance_commit_index-Advanced,
}
use first_principle_cs.Raft.Commit.Median.{
  Sorts, KnownByMajority, majority_match_index-KnownByMajority, Ascending, AllAbove,
}

abbrev pub boss : Node
boss = record {
  node_id = 0;
  num_nodes = 3;
  has_apply = true;
  has_send = true;
  role = Role.leader;
  current_term = 2;
  voted_for = pos 0;
  commit_index = 1;
  last_applied = 0;
  next_index = 4 ∷ 4 ∷ 2 ∷ [];
  match_index = 0 ∷ 3 ∷ 1 ∷ [];
  log = three;
  running = true;
  current_leader = pos 0;
  votes_received = 2;
  votes_granted = true ∷ true ∷ false ∷ [];
  election_timeout_ms = 150;
  election_timer_ms = 0;
  heartbeat_timer_ms = 0;
  has_storage = false;
  sent = [];
  applied = [];
  saved = [];
  rand = λ k. k;
}

advance_commit_index-Advanced_example :
    ((advance_commit_index boss).0 ≡ ok) × Advanced boss (advance_commit_index boss).1
unfolding Log.last_index
advance_commit_index-Advanced_example =
    advance_commit_index-Advanced boss refl (omega arith) (omega arith) (omega arith)

apply_committed-Applied_example :
    let next = apply_committed boss in
    (next.last_applied ≡ max boss.last_applied boss.commit_index)
    × Applied boss next (boss.commit_index - boss.last_applied)
apply_committed-Applied_example =
    apply_committed-Applied boss three-IsValid refl (omega arith) (omega arith) (omega arith)

-- Insertion sort does what is asked of `qsort`.
insert : ℕ → List ℕ → List ℕ
insert x [] = x ∷ []
insert x (y ∷ ys) = let rest = insert x ys in if leb x y then x ∷ y ∷ ys else y ∷ rest

insertion_sort : List ℕ → List ℕ
unfolding insert
insertion_sort [] = []
insertion_sort (x ∷ xs) = insert x (insertion_sort xs)

insert-AllAbove : (a x : ℕ) (ys : List ℕ) → a ≤ x → AllAbove a ys → AllAbove a (insert x ys)
unfolding insert
insert-AllAbove a x [] h k = (h, tt)
insert-AllAbove a x (y ∷ ys) h k =
    if_case (AllAbove a) (leb x y) _ _ (λ _. (h, k)) (λ _. (k.0, insert-AllAbove a x ys h k.1))

AllAbove-le : (a b : ℕ) (ys : List ℕ) → a ≤ b → AllAbove b ys → AllAbove a ys
AllAbove-le a b [] h k = tt
AllAbove-le a b (y ∷ ys) h k = (omega (arith, k.0), AllAbove-le a b ys h k.1)

insert-Ascending : (x : ℕ) (ys : List ℕ) → Ascending ys → Ascending (insert x ys)
unfolding insert
insert-Ascending x [] k = (tt, tt)
insert-Ascending x (y ∷ ys) k =
    if_case Ascending (leb x y) _ _
      (λ h. ((leb→le x y h, AllAbove-le x y ys (leb→le x y h) k.0), k))
      (λ h. (insert-AllAbove y x ys (ground arith) k.0, insert-Ascending x ys k.1))

insertion_sort-Ascending : (xs : List ℕ) → Ascending (insertion_sort xs)
unfolding insertion_sort
insertion_sort-Ascending [] = tt
insertion_sort-Ascending (x ∷ xs) =
    insert-Ascending x (insertion_sort xs) (insertion_sort-Ascending xs)

count_true-insert :
    (p : ℕ → Bool) (x : ℕ) (ys : List ℕ)
    → count_true (map p (insert x ys)) ≡ count_true (p x ∷ map p ys)
unfolding insert
count_true-insert p x [] = refl
count_true-insert p x (y ∷ ys) =
    if_case (λ r. count_true (map p r) ≡ count_true (p x ∷ p y ∷ map p ys)) (leb x y) _ _
      (λ _. refl)
      (λ _. omega (
        arith,
        count_true-insert p x ys,
        count_true-cons (p x) (map p ys),
        count_true-cons (p y) (map p ys),
        count_true-cons (p x) (p y ∷ map p ys),
        count_true-cons (p y) (map p (insert x ys)),
      ))

count_true-insertion_sort :
    (p : ℕ → Bool) (xs : List ℕ) → count_true (map p (insertion_sort xs)) ≡ count_true (map p xs)
unfolding insertion_sort
count_true-insertion_sort p [] = refl
count_true-insertion_sort p (x ∷ xs) = omega (
  arith,
  count_true-insert p x (insertion_sort xs),
  count_true-insertion_sort p xs,
  count_true-cons (p x) (map p xs),
  count_true-cons (p x) (map p (insertion_sort xs)),
)

insertion_sort-Sorts : Sorts insertion_sort
insertion_sort-Sorts = record {
  ascending = insertion_sort-Ascending;
  rearranged = count_true-insertion_sort;
}

majority_match_index-KnownByMajority_example :
    KnownByMajority boss (majority_match_index insertion_sort boss)
majority_match_index-KnownByMajority_example =
    majority_match_index-KnownByMajority insertion_sort boss insertion_sort-Sorts refl refl refl
