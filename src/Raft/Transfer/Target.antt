-- ===== src/Raft/Transfer/Target.antt =====
-- Whom a transfer of the leadership goes to, and when that node is told.
use first_principle_cs.Base.{
  ℕ, zero, suc, ◌+◌, ◌≤◌, ◌<◌, ◌≡◌, ◌≢◌, refl, sym, ap, subst, ◌∙◌, ◌⊎◌, inl, inr, ℤ, pos, negsuc,
  List, true, ltb, leb, leb→le, ◌==◌, ==_iff, ltb→lt, Bool-cases, if_case, get_or, arith,
}
use first_principle_cs.Raft.Types.{Status, ok}
use first_principle_cs.Raft.Log
use first_principle_cs.Raft.Message.{timeout_now}
use first_principle_cs.Raft.Node.{Node, is_leader_role, send}
use first_principle_cs.Raft.Transfer.{
  Transfer, pending, sending, pick_target, check_target, check_leader, check_progress,
  begin_transfer, begin_picked, transfer_to, transfer_leadership,
}

-- The result of the loop is where it began, with no better node; or it is the best node of its range.
abbrev Picked : ℕ → ℕ → ℕ → List ℕ → ℕ → ℤ → ℤ → Type 0
Picked n i self matches best target result =
    ((result ≡ target) × ((j : ℕ) → i ≤ j → j < i + n → j ≢ self → get_or matches j 0 ≤ best))
    ⊎ ((t : ℕ) × (result ≡ pos t)
        × (i ≤ t)
        × (t < i + n)
        × (t ≢ self)
        × (best < get_or matches t 0)
        × ((j : ℕ) → i ≤ j → j < i + n → j ≢ self → get_or matches j 0 ≤ get_or matches t 0))

below_or_here : (i j : ℕ) → i ≤ j → (i ≡ j) ⊎ (suc i ≤ j)
below_or_here i j h = elim (Bool-cases (i == j)) [
  | inl e ↦ inl ((==_iff i j).0 e)
  | inr e ↦ inr (ground arith)
]

-- A bound on what stands at `i` and behind it.
bound_from :
    (n i self b : ℕ) (matches : List ℕ)
    → (i ≢ self → get_or matches i 0 ≤ b)
    → ((j : ℕ) → suc i ≤ j → j < suc i + n → j ≢ self → get_or matches j 0 ≤ b)
    → (j : ℕ) → i ≤ j
    → j < i + suc n
    → j ≢ self
    → get_or matches j 0 ≤ b
bound_from n i self b matches first rest j above below other = elim (below_or_here i j above) [
  | inl e ↦ subst (λ k. get_or matches k 0 ≤ b) e (first (λ same. other (sym e ∙ same)))
  | inr after ↦ rest j after (omega arith) other
]

skip-Picked :
    (n i self : ℕ) (matches : List ℕ) (best : ℕ) (target r : ℤ)
    → (i ≢ self → get_or matches i 0 ≤ best)
    → Picked n (suc i) self matches best target r
    → Picked (suc n) i self matches best target r
skip-Picked n i self matches best target r first p = elim p [
  | inl (e, bound) ↦ inl (e, bound_from n i self best matches first bound)
  | inr (t, e, low, high, other, better, bound) ↦ inr (
    t,
    e,
    omega arith,
    omega arith,
    other,
    better,
    bound_from n i self (get_or matches t 0) matches (λ here. omega (arith, first here, better))
        bound,
  )
]

take-Picked :
    (n i self : ℕ) (matches : List ℕ) (best : ℕ) (target r : ℤ)
    → i ≢ self
    → best < get_or matches i 0
    → Picked n (suc i) self matches (get_or matches i 0) (pos i) r
    → Picked (suc n) i self matches best target r
take-Picked n i self matches best target r peer above p = elim p [
  | inl (e, bound) ↦ inr (
    i,
    e,
    omega arith,
    omega arith,
    peer,
    above,
    bound_from n i self (get_or matches i 0) matches (λ _. omega arith) bound,
  )
  | inr (t, e, low, high, other, better, bound) ↦ inr (
    t,
    e,
    omega arith,
    omega arith,
    other,
    omega (arith, above, better),
    bound_from n i self (get_or matches t 0) matches (λ _. omega (arith, better)) bound,
  )
]

pick_target-Picked :
    (n i self : ℕ) (matches : List ℕ) (best : ℕ) (target : ℤ)
    → Picked n i self matches best target (pick_target n i self matches best target)
unfolding pick_target
pick_target-Picked zero i self matches best target = inl (refl, λ j a b c. absurd (omega arith))
pick_target-Picked (suc n) i self matches best target =
    if_case P (i == self) _ _
      (λ me.
        skip-Picked n i self matches best target _ (λ other. absurd (other ((==_iff i self).0 me)))
          (pick_target-Picked n (suc i) self matches best target))
      (λ peer.
        if_case P (ltb best (get_or matches i 0)) _ _
          (λ better.
            take-Picked n i self matches best target _ (λ e. ground arith) (ltb→lt _ _ better)
              (pick_target-Picked n (suc i) self matches (get_or matches i 0) (pos i)))
          (λ worse.
            skip-Picked n i self matches best target _ (λ _. ground arith)
              (pick_target-Picked n (suc i) self matches best target)))
  where
    P : ℤ → Type 0
    P r = Picked (suc n) i self matches best target r

-- What a transfer that was begun has come to: the target is a peer; it waits, or the target has the
-- leader's whole log and has been told to start an election.
pub record Offered (node : Node) (next : Node) (transfer : Transfer) : Type 0 where
  pub target : ℕ
  pub chosen : transfer.target ≡ pos target
  pub peer : target ≢ node.node_id
  pub member : target < node.num_nodes
  pub told :
      ((transfer.state ≡ pending)
        × (get_or node.match_index target 0 < Log.last_index node.log)
        × (next ≡ node))
      ⊎ ((transfer.state ≡ sending)
          × (Log.last_index node.log ≤ get_or node.match_index target 0)
          × (next
              ≡ send node (pos target) (
                  timeout_now (record { term = node.current_term; leader_id = pos node.node_id }))))

begin_transfer-Offered :
    (node : Node) (t : ℕ)
    → is_leader_role node.role ≡ true
    → t ≢ node.node_id
    → t < node.num_nodes
    → Offered node (begin_transfer node (pos t)).1 (begin_transfer node (pos t)).2
unfolding check_progress check_leader check_target
begin_transfer-Offered node t leads peer member =
    if_case P (is_leader_role node.role) _ _
      (λ _.
        if_case P (leb node.num_nodes t) _ _ (λ outside. absurd (ground arith))
          (λ _.
            if_case P (leb (Log.last_index node.log) (get_or node.match_index t 0)) _ _
              (λ caught_up. record {
                target = t;
                chosen = refl;
                peer = peer;
                member = member;
                told = inr (refl, leb→le _ _ caught_up, refl);
              })
              (λ behind. record {
                target = t;
                chosen = refl;
                peer = peer;
                member = member;
                told = inl (refl, ground arith, refl);
              })))
      (λ other. absurd (cc (other, leads)))
  where
    P : Node × Transfer → Type 0
    P r = Offered node r.0 r.1

abbrev Outcome : Node → Status × Node × Transfer → Type 0
Outcome node r = r.0 ≡ ok → Offered node r.1 r.2

begin_picked-Outcome :
    (node : Node) (transfer : Transfer) (i : ℕ) (r : ℤ)
    → is_leader_role node.role ≡ true
    → Picked node.num_nodes 0 node.node_id node.match_index 0 (negsuc i) r
    → Outcome node (begin_picked node transfer r)
unfolding begin_picked
begin_picked-Outcome node transfer i r leads p h = elim p [
  | inl (e, none) ↦ absurd (cc (sym (ap (λ k. (begin_picked node transfer k).0) e) ∙ h))
  | inr (t, e, low, high, other, better, bound) ↦
      subst (λ k. Offered node (begin_picked node transfer k).1 (begin_picked node transfer k).2)
        (sym e) (begin_transfer-Offered node t leads other (omega arith))
]

transfer_to-Outcome :
    (node : Node) (transfer : Transfer) (target : ℤ)
    → is_leader_role node.role ≡ true
    → Outcome node (transfer_to node transfer target)
unfolding transfer_to
transfer_to-Outcome node transfer (pos t) leads =
    if_case (Outcome node) (t == node.node_id) _ _ (λ _. λ h. cc)
      (λ peer.
        if_case (Outcome node) (leb node.num_nodes t) _ _ (λ _. λ h. cc)
          (λ member. λ h. begin_transfer-Offered node t leads (λ e. ground arith) (ground arith)))
transfer_to-Outcome node transfer (negsuc i) leads =
    begin_picked-Outcome node transfer i _ leads
      (pick_target-Picked node.num_nodes 0 node.node_id node.match_index 0 (negsuc i))

-- If `raft_transfer_leadership` returns RAFT_OK, its target is another node of the cluster, and that
-- node is told to start an election exactly if it is known to have the leader's whole log; otherwise
-- the transfer waits and nothing is sent.
pub transfer_leadership-Offered :
    (node : Node) (target : ℤ) (transfer : Transfer)
    → (transfer_leadership node target transfer).0 ≡ ok
    → Offered node
        (transfer_leadership node target transfer).1
        (transfer_leadership node target transfer).2
unfolding transfer_leadership
transfer_leadership-Offered node target transfer =
    if_case (Outcome node) node.running _ _
      (λ _.
        if_case (Outcome node) (is_leader_role node.role) _ _
          (λ leads. transfer_to-Outcome node transfer target leads) (λ _. λ h. cc))
      (λ _. λ h. cc)

-- Without a target, `raft_transfer_leadership` picks, if any other node has a match index above 0, one
-- with the greatest; and if none has, it picks none.
pub pick_target_lem :
    (node : Node) (i : ℕ)
    → let picked = pick_target node.num_nodes 0 node.node_id node.match_index 0 (negsuc i) in
      ((picked ≡ negsuc i)
        × ((j : ℕ) → j < node.num_nodes → j ≢ node.node_id → get_or node.match_index j 0 ≡ 0))
      ⊎ ((t : ℕ) × (picked ≡ pos t)
          × (t < node.num_nodes)
          × (t ≢ node.node_id)
          × (0 < get_or node.match_index t 0)
          × ((j : ℕ)
              → j < node.num_nodes
              → j ≢ node.node_id
              → get_or node.match_index j 0 ≤ get_or node.match_index t 0))
pick_target_lem node i =
    elim (pick_target-Picked node.num_nodes 0 node.node_id node.match_index 0 (negsuc i)) [
      | inl (e, none) ↦
          inl (e, λ j l other. omega (arith, none j (omega arith) (omega arith) other))
      | inr (t, e, low, high, other, better, bound) ↦
          inr
            (t, e, omega arith, other, better, λ j l peer. bound j (omega arith) (omega arith) peer)
    ]
