-- ===== src/Raft/Commit/Advance.antt =====
-- `raft_advance_commit_index`: which index it commits.
use first_principle_cs.Base.{
  ℕ, zero, suc, ◌+◌, ◌-◌, ◌/◌, ◌≤◌, ◌<◌, ◌≡◌, refl, sym, ap, ◌∙◌, ◌⊎◌, inl, inr, List, [], ◌∷◌,
  Bool, true, false, ◌||◌, ltb, leb, ◌==◌, if◌then◌else◌, if_case, Bool-cases, get_or, length,
  subst, add64, u64, ltb→lt, lt→ltb, and_left, and_right, ==_iff, arith,
}
use first_principle_cs.Raft.Types.{Status, ok, Role}
use first_principle_cs.Raft.Log
use first_principle_cs.Raft.Node.{Node, is_leader_role, apply_committed, apply_rounds, apply_next}
use first_principle_cs.Raft.Safety.Ballot.{count_true}
use first_principle_cs.Raft.Commit.{
  scan_commit, can_commit, newest_commit, advance_commit_index, count_replicas,
}

-- The scan ends at its start or at an index of its range that can be committed, and not before any such.
record Scanned (node : Node) (rounds n best r : ℕ) : Type 0 where
  from_best : best ≤ r
  kind : (r ≡ best) ⊎ ((n ≤ r) × (r < n + rounds) × (can_commit node r ≡ true))
  greatest : (k : ℕ) → n ≤ k → k < n + rounds → can_commit node k ≡ true → k ≤ r

le_cases : (n k : ℕ) → n ≤ k → (n ≡ k) ⊎ (n + 1 ≤ k)
le_cases n k h = elim (Bool-cases (ltb n k)) [
  | inl below ↦ inr (omega (arith, ltb→lt n k below))
  | inr above ↦ inl (ground arith)
]

add64_small : (n : ℕ) → n + 1 < u64 → add64 n 1 ≡ n + 1
add64_small n h = omega arith

scan_commit-Scanned :
    (node : Node) (rounds n best : ℕ)
    → best < n
    → n + rounds < u64
    → Scanned node rounds n best (scan_commit node rounds n best)
unfolding scan_commit
scan_commit-Scanned node zero n best h small = record {
  from_best = omega arith;
  kind = inl refl;
  greatest = λ k a b c. absurd (omega arith);
}
scan_commit-Scanned node (suc rounds) n best h small = elim (Bool-cases (can_commit node n)) [
  | inl can ↦
      let r = scan_commit-Scanned node rounds (n + 1) n (omega arith) (omega arith) in
      rw (can, next)
        (record {
          from_best = omega (arith, r.from_best);
          kind = inr (elim r.kind [
            | inl same ↦ (omega arith, omega arith, rw same can)
            | inr (a, b, good) ↦ (omega arith, omega arith, good)
          ]);
          greatest = λ k a b good. elim (le_cases n k a) [
            | inl same ↦ omega (arith, r.from_best)
            | inr above ↦ r.greatest k (omega arith) (omega arith) good
          ];
        })
  | inr cannot ↦
      let r = scan_commit-Scanned node rounds (n + 1) best (omega arith) (omega arith) in
      rw (cannot, next)
        (record {
          from_best = r.from_best;
          kind = elim r.kind [
            | inl same ↦ inl same
            | inr (a, b, good) ↦ inr (omega arith, omega arith, good)
          ];
          greatest = λ k a b good. elim (le_cases n k a) [
            | inl same ↦ absurd (cc (cannot, good, same))
            | inr above ↦ r.greatest k (omega arith) (omega arith) good
          ];
        })
]
  where
    next : add64 n 1 ≡ n + 1
    next = add64_small n (omega arith)

-- The nodes from number `i` on that hold index `n`: the leader itself, and those known to.
holders : ℕ → ℕ → ℕ → ℕ → List ℕ → List Bool
holders zero i self n matches = []
holders (suc k) i self n matches =
    (i == self || leb n (get_or matches i 0)) ∷ holders k (suc i) self n matches

length-holders : (k i self n : ℕ) (matches : List ℕ) → length (holders k i self n matches) ≡ k
unfolding holders
length-holders zero i self n matches = refl
length-holders (suc k) i self n matches = ap suc (length-holders k (suc i) self n matches)

get_or-holders :
    (k i self n : ℕ) (matches : List ℕ) (j : ℕ)
    → get_or (holders k i self n matches) j false ≡ true
    → (i + j ≡ self) ⊎ (n ≤ get_or matches (i + j) 0)
unfolding holders
get_or-holders zero i self n matches j h = cc
get_or-holders (suc k) i self n matches zero h = ground arith
get_or-holders (suc k) i self n matches (suc j) h =
    subst (λ m. (m ≡ self) ⊎ (n ≤ get_or matches m 0)) {x = suc i + j} (omega arith)
      (get_or-holders k (suc i) self n matches j h)

pub count_true-cons :
    (b : Bool) (bs : List Bool) → count_true (b ∷ bs) ≡ (if b then 1 else 0) + count_true bs
count_true-cons true bs = omega arith
count_true-cons false bs = omega arith

count_true-holders_above :
    (k i self n : ℕ) (matches : List ℕ)
    → self < i
    → count_true (holders k i self n matches) ≡ count_replicas k i self n matches
unfolding holders count_replicas
count_true-holders_above zero i self n matches a = refl
count_true-holders_above (suc k) i self n matches a = ground (
  arith,
  count_true-cons (i == self || leb n (get_or matches i 0)) (holders k (suc i) self n matches),
  count_true-holders_above k (suc i) self n matches (omega arith),
)

-- The leader is counted once more where it is in the range.
count_true-holders :
    (k i self n : ℕ) (matches : List ℕ)
    → i ≤ self
    → self < i + k
    → count_true (holders k i self n matches) ≡ 1 + count_replicas k i self n matches
unfolding holders count_replicas
count_true-holders zero i self n matches a b = absurd (omega arith)
count_true-holders (suc k) i self n matches a b = elim (le_cases i self a) [
  | inl same ↦ ground (
    arith,
    same,
    count_true-cons (i == self || leb n (get_or matches i 0)) (holders k (suc i) self n matches),
    count_true-holders_above k (suc i) self n matches (omega arith),
  )
  | inr above ↦ ground (
    arith,
    above,
    count_true-cons (i == self || leb n (get_or matches i 0)) (holders k (suc i) self n matches),
    count_true-holders k (suc i) self n matches (omega arith) (omega arith),
  )
]

pub record HeldByMajority (node : Node) (n : ℕ) : Type 0 where
  pub nodes : List Bool
  pub sized : length nodes ≡ node.num_nodes
  pub majority : node.num_nodes / 2 < count_true nodes
  pub held :
      (j : ℕ) → get_or nodes j false ≡ true → (j ≡ node.node_id) ⊎ (n ≤ get_or node.match_index j 0)

can_commit-HeldByMajority :
    (node : Node) (n : ℕ)
    → node.node_id < node.num_nodes
    → can_commit node n ≡ true
    → HeldByMajority node n × (Log.term_at node.log n ≡ node.current_term)
unfolding can_commit
can_commit-HeldByMajority node n h can =
    let counted =
      count_true-holders node.num_nodes 0 node.node_id n node.match_index (omega arith)
        (omega arith) in
    (
      record {
        nodes = holders node.num_nodes 0 node.node_id n node.match_index;
        sized = length-holders node.num_nodes 0 node.node_id n node.match_index;
        majority = omega (
          arith,
          counted,
          ltb→lt _ _ (and_left _ (Log.term_at node.log n == node.current_term) can),
        );
        held = λ j g.
            subst (λ m. (m ≡ node.node_id) ⊎ (n ≤ get_or node.match_index m 0)) {x = 0 + j}
              (omega arith) (get_or-holders node.num_nodes 0 node.node_id n node.match_index j g);
      },
      (==_iff (Log.term_at node.log n) node.current_term).0 (
          and_right
            (ltb (node.num_nodes / 2)
              (1 + count_replicas node.num_nodes 0 node.node_id n node.match_index))
            _ can),
    )

holders-get_or :
    (k i self n : ℕ) (matches : List ℕ) (j : ℕ)
    → j < k
    → (i + j ≡ self) ⊎ (n ≤ get_or matches (i + j) 0)
    → get_or (holders k i self n matches) j false ≡ true
unfolding holders
holders-get_or zero i self n matches j l h = absurd (omega arith)
holders-get_or (suc k) i self n matches zero l h =
    ground (
      arith,
      subst (λ m. (m ≡ self) ⊎ (n ≤ get_or matches m 0)) {x = i + 0} {y = i} (omega arith) h,
    )
holders-get_or (suc k) i self n matches (suc j) l h =
    holders-get_or k (suc i) self n matches j (omega arith)
      (subst (λ m. (m ≡ self) ⊎ (n ≤ get_or matches m 0)) {x = i + suc j} (omega arith) h)

count_true_le :
    (xs ys : List Bool)
    → length xs ≡ length ys
    → ((j : ℕ) → j < length xs → get_or xs j false ≡ true → get_or ys j false ≡ true)
    → count_true xs ≤ count_true ys
count_true_le [] ys e h = omega arith
count_true_le (x ∷ xs) [] e h = absurd (omega arith)
count_true_le (x ∷ xs) (y ∷ ys) e h =
    let rest = count_true_le xs ys (omega arith) (λ j l. h (suc j) (omega arith)) in
    ground (arith, count_true-cons x xs, count_true-cons y ys, h 0 (omega arith))

HeldByMajority-can_commit :
    (node : Node) (n : ℕ)
    → node.node_id < node.num_nodes
    → HeldByMajority node n
    → Log.term_at node.log n ≡ node.current_term
    → can_commit node n ≡ true
unfolding can_commit
HeldByMajority-can_commit node n h m now =
    let counted =
      count_true-holders node.num_nodes 0 node.node_id n node.match_index (omega arith)
        (omega arith) in
    let more =
      count_true_le m.nodes (holders node.num_nodes 0 node.node_id n node.match_index)
        (m.sized ∙ sym (length-holders node.num_nodes 0 node.node_id n node.match_index))
        (λ j l g.
          holders-get_or node.num_nodes 0 node.node_id n node.match_index j
            (omega (arith, l, m.sized))
            (subst (λ i. (i ≡ node.node_id) ⊎ (n ≤ get_or node.match_index i 0)) {y = 0 + j}
              (omega arith) (m.held j g))) in
    rw
      (
        lt→ltb (node.num_nodes / 2)
            (1 + count_replicas node.num_nodes 0 node.node_id n node.match_index)
            (omega (arith, counted, more, m.majority)),
        now,
      )
      ((==_iff node.current_term node.current_term).1 refl)

-- What committing does not change, for a change of `last_applied` and `applied` only.
apply_rounds-commit_index :
    (n : ℕ) (node : Node) → (apply_rounds n node).commit_index ≡ node.commit_index
unfolding apply_rounds apply_next
apply_rounds-commit_index zero node = refl
apply_rounds-commit_index (suc n) node = apply_rounds-commit_index n (apply_next node)

apply_committed-commit_index :
    (node : Node) → (apply_committed node).commit_index ≡ node.commit_index
unfolding apply_committed
apply_committed-commit_index node =
    if_case (λ (r : Node). r.commit_index ≡ node.commit_index) node.has_apply _ _
      (λ _. apply_rounds-commit_index _ node) (λ _. refl)

-- The commit index of `next` is that of `node`, or the greatest one that may be committed.
pub record Advanced (node next : Node) : Type 0 where
  pub monotone : node.commit_index ≤ next.commit_index
  pub backed :
      node.commit_index < next.commit_index
      → (next.commit_index ≤ Log.last_index node.log)
        × HeldByMajority node next.commit_index
        × (Log.term_at node.log next.commit_index ≡ node.current_term)
  pub greatest :
      (k : ℕ)
      → node.commit_index < k
      → k ≤ Log.last_index node.log
      → HeldByMajority node k
      → Log.term_at node.log k ≡ node.current_term
      → k ≤ next.commit_index

not_lt→eq : (a b : ℕ) → a ≤ b → ltb a b ≡ false → a ≡ b
not_lt→eq a b h stays = ground arith

scanned_newest :
    (node : Node)
    → node.commit_index + 1 < u64
    → newest_commit node
      ≡ scan_commit node
          (Log.last_index node.log - node.commit_index)
          (node.commit_index + 1)
          node.commit_index
scanned_newest node small =
    ap (λ n. scan_commit node (Log.last_index node.log - node.commit_index) n node.commit_index)
      (add64_small node.commit_index small)

newest-Advanced :
    (node next : Node)
    → node.node_id < node.num_nodes
    → node.commit_index ≤ Log.last_index node.log
    → Log.last_index node.log + 1 < u64
    → next.commit_index ≡ newest_commit node
    → Advanced node next
newest-Advanced node next h within small same =
    let scan =
      scan_commit-Scanned node (Log.last_index node.log - node.commit_index) (node.commit_index + 1)
        node.commit_index (omega arith) (omega arith) in
    let e = same ∙ scanned_newest node (omega arith) in
    record {
      monotone = omega (arith, e, scan.from_best);
      backed = λ above. elim scan.kind [
        | inl stays ↦ absurd (omega (arith, e, stays))
        | inr (a, b, can) ↦
            let (held, now) = can_commit-HeldByMajority node next.commit_index h (rw e can) in
            (omega (arith, e, b), held, now)
      ];
      greatest = λ k a b held now. omega (
        arith,
        e,
        scan.greatest k (omega arith) (omega arith) (HeldByMajority-can_commit node k h held now),
      );
    }

stays_Advanced :
    (node : Node)
    → node.node_id < node.num_nodes
    → node.commit_index ≤ Log.last_index node.log
    → Log.last_index node.log + 1 < u64
    → ltb node.commit_index (newest_commit node) ≡ false
    → Advanced node node
stays_Advanced node h within small stays =
    let scan =
      scan_commit-Scanned node (Log.last_index node.log - node.commit_index) (node.commit_index + 1)
        node.commit_index (omega arith) (omega arith) in
    newest-Advanced node node h within small
      (not_lt→eq _ _ (omega (arith, scanned_newest node (omega arith), scan.from_best)) stays)

-- On a leader with a number below that of the nodes, whose commit index is within its log and whose
-- last index is not the greatest number of 64 bits, `raft_advance_commit_index` never moves the commit
-- index back; it moves it only to an index of the log that more than half of the nodes hold and whose
-- entry is of the current term; and it leaves no greater such index behind.
pub advance_commit_index-Advanced :
    (node : Node)
    → node.role ≡ Role.leader
    → node.node_id < node.num_nodes
    → node.commit_index ≤ Log.last_index node.log
    → Log.last_index node.log + 1 < u64
    → ((advance_commit_index node).0 ≡ ok) × Advanced node (advance_commit_index node).1
unfolding advance_commit_index
advance_commit_index-Advanced node leads h within small =
    if_case (λ (r : Status × Node). (r.0 ≡ ok) × Advanced node r.1) (is_leader_role node.role) _ _
      (λ _.
        if_case (λ (r : Status × Node). (r.0 ≡ ok) × Advanced node r.1)
          (ltb node.commit_index (newest_commit node)) _ _
          (λ _. (refl, newest-Advanced node _ h within small (apply_committed-commit_index _)))
          (λ stays. (refl, stays_Advanced node h within small stays)))
      (λ other. absurd (cc (other, leads)))
