-- ===== src/Raft/Safety/Leaders.antt =====
-- Election safety: over a whole run, the votes that made two leaders of one term cannot both be there.
use first_principle_cs.Base.{
  ℕ, suc, ◌+◌, ◌/◌, ◌≤◌, ◌<◌, ◌≡◌, refl, sym, ap, subst, ◌∙◌, inl, inr, pos, no_id, List, [], ◌∷◌,
  Bool, true, false, length, get_or, arith,
}
use first_principle_cs.Raft.Types.{Role}
use first_principle_cs.Raft.Node.{on_disk}
use first_principle_cs.Raft.Safety.Ballot.{count_true, is_idle, last_or, In}
use first_principle_cs.Raft.Safety.Cluster.{
  Answers, AllOk, on_disk_ok, Cluster, Reach, Initial, Saved, ClusterInv, Reach-ClusterInv,
  Reach-Saved, Initial-ClusterInv,
}

-- Two majorities share a member.
majorities_meet :
    (xs ys : List Bool)
    → length xs ≡ length ys
    → length xs < count_true xs + count_true ys
    → (j : ℕ) × (j < length xs) × (get_or xs j false ≡ true) × (get_or ys j false ≡ true)
majorities_meet [] [] e h = absurd (omega arith)
majorities_meet [] (y ∷ ys) e h = absurd (omega arith)
majorities_meet (x ∷ xs) [] e h = absurd (omega arith)
majorities_meet (true ∷ xs) (true ∷ ys) e h = (0, omega arith, refl, refl)
majorities_meet (true ∷ xs) (false ∷ ys) e h =
    let (j, l, a, b) = majorities_meet xs ys (omega arith) (omega arith) in
    (suc j, omega arith, a, b)
majorities_meet (false ∷ xs) (true ∷ ys) e h =
    let (j, l, a, b) = majorities_meet xs ys (omega arith) (omega arith) in
    (suc j, omega arith, a, b)
majorities_meet (false ∷ xs) (false ∷ ys) e h =
    let (j, l, a, b) = majorities_meet xs ys (omega arith) (omega arith) in
    (suc j, omega arith, a, b)

-- More than half of the `n` nodes have asked their storage to save a vote for node `i` in term `t`.
record Supported (n : ℕ) (c : Cluster) (i t : ℕ) : Type 0 where
  voters : List Bool
  sized : length voters ≡ n
  majority : n / 2 < count_true voters
  saved : (j : ℕ) → get_or voters j false ≡ true → Saved c i t j

-- The votes for node `i` in term `t` of more than half of the `n` nodes have been on their disks.
pub record Elected (answers : Answers) (n : ℕ) (c : Cluster) (i t : ℕ) : Type 0 where
  pub voters : List Bool
  pub sized : length voters ≡ n
  pub majority : n / 2 < count_true voters
  pub saved :
      (j : ℕ)
      → j < n
      → get_or voters j false ≡ true
      → In (t, pos i) (on_disk (answers j) (c j).saved)

abbrev pub Leads : Cluster → ℕ → ℕ → Type 0
Leads c i t = ((c i).role ≡ Role.leader) × ((c i).current_term ≡ t)

Leads-Supported :
    (n : ℕ) (c : Cluster) (i t : ℕ) → ClusterInv n c → i < n → Leads c i t → Supported n c i t
Leads-Supported n c i t v h (leads, now) =
    let b = v.ballots i h in
    let s = b.standing (ap is_idle leads) in
    record {
      voters = (c i).votes_granted;
      sized = s.sized;
      majority = b.elected leads;
      saved = λ j g.
          subst (λ u. Saved c i u j) now
            (elim (s.backed j g) [
              | inl e ↦ subst (Saved c i (c i).current_term) (sym e) s.own_saved
              | inr known ↦ known
            ]);
    }

Supported-unique :
    (n : ℕ) (c : Cluster) (i k t : ℕ)
    → ClusterInv n c
    → Supported n c i t
    → Supported n c k t
    → i ≡ k
Supported-unique n c i k t v a b =
    let (j, h, x, y) =
      majorities_meet a.voters b.voters (a.sized ∙ sym b.sized)
        (omega (arith, a.sized, a.majority, b.majority)) in
    cc (
      (v.ballots j (omega (arith, h, a.sized))).once t (pos i) (pos k) (a.saved j x) (b.saved j y)
        (λ e. cc) (λ e. cc))

-- In a cluster of two or more persistent nodes created over data directories without a saved state,
-- while no node that acts is at the last term of its counter and every attempt of the nodes to save the
-- term and the vote succeeds: whatever the nodes do and whatever is delivered, lost, repeated or
-- reordered, and whichever nodes stop and restart, the votes of more than half of the nodes for a leader
-- in its term have been written to their disks.
pub leader-Elected :
    {answers : Answers} {n : ℕ} {c d : Cluster} (i t : ℕ)
    → AllOk n answers
    → 2 ≤ n
    → Initial n c
    → Reach answers n c d
    → i < n
    → Leads d i t
    → Elected answers n d i t
leader-Elected {answers} {n} {c} {d} i t fine many start r h l =
    let s = Leads-Supported n d i t (Reach-ClusterInv fine many (Initial-ClusterInv start) r) h l in
    record {
      voters = s.voters;
      sized = s.sized;
      majority = s.majority;
      saved = λ j k g.
          subst (In (t, pos i)) (sym (on_disk_ok (answers j) (d j).saved (λ x. fine j x k)))
            (s.saved j g);
    }

-- Election safety, in a cluster of two or more persistent nodes created over data directories without
-- a saved state, while no node that acts is at the last term of its counter and every attempt of the
-- nodes to save the term and the vote succeeds. Whatever the nodes do, whatever messages are delivered,
-- lost, repeated or reordered, and whichever nodes stop and restart from their data directories: if a
-- node leads in some term at one moment, and a node leads in that term at that or any later moment,
-- they are the same node.
pub election_safety :
    {answers : Answers} {n : ℕ} {c d e : Cluster} (i k t : ℕ)
    → AllOk n answers
    → 2 ≤ n
    → Initial n c
    → Reach answers n c d
    → Reach answers n d e
    → i < n
    → k < n
    → Leads d i t
    → Leads e k t
    → i ≡ k
election_safety {answers} {n} {c} {d} {e} i k t fine many start r r' h h' l l' =
    let v = Reach-ClusterInv fine many (Initial-ClusterInv start) r in
    let first = Leads-Supported n d i t v h l in
    let w = Reach-ClusterInv fine many v r' in
    Supported-unique n e i k t w
      (record {
        voters = first.voters;
        sized = first.sized;
        majority = first.majority;
        saved = λ j g. Reach-Saved i t j fine many v r' (first.saved j g);
      })
      (Leads-Supported n e k t w h' l')

-- In a cluster of two or more persistent nodes created over data directories without a saved state,
-- while no node that acts is at the last term of its counter and every attempt of the nodes to save the
-- term and the vote succeeds: in any run with lost, repeated and reordered messages, stops and
-- restarts, the term and the vote of every node are at every moment what was last written to its disk,
-- or 0 and none if nothing was.
pub votes_durable :
    {answers : Answers} {n : ℕ} {c d : Cluster} (i : ℕ)
    → AllOk n answers
    → 2 ≤ n
    → Initial n c
    → Reach answers n c d
    → i < n
    → last_or (0, no_id) (on_disk (answers i) (d i).saved) ≡ ((d i).current_term, (d i).voted_for)
votes_durable {answers} {n} {c} {d} i fine many start r h =
    ap (last_or (0, no_id)) (on_disk_ok (answers i) (d i).saved (λ k. fine i k h))
    ∙ ((Reach-ClusterInv fine many (Initial-ClusterInv start) r).ballots i h).durable
