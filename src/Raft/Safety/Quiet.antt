-- ===== src/Raft/Safety/Quiet.antt =====
-- What the handlers' moves are stated over, and the operations that touch no vote: timers, sending,
-- replication, commitment.
use mathlib.Core.List.{append-nil, append_assoc}
use first_principle_cs.Base.{
  ℕ, zero, suc, ◌≡◌, refl, sym, ◌∙◌, inl, inr, ℤ, pos, negsuc, List, [], ◌∷◌, ◌++◌, Option, Bool,
  ltb, Bool-cases, if_case, ◌==◌, get_or, arith,
}
use first_principle_cs.Raft.Types.{Status}
use first_principle_cs.Raft.Log.{Log}
use first_principle_cs.Raft.Message.{Message, AppendEntries}
use first_principle_cs.Raft.Node.{
  Node, send, send_all, broadcast, apply_committed, reset_election_timer, apply_rounds, apply_next,
  is_leader_role,
}
use first_principle_cs.Raft.Replicate.{
  replicate_to_peer, replicate_to_checked, replicate_to_all, replicate_log, propose, after_append,
  append_entries_to,
}
use first_principle_cs.Raft.Follow.{record_match, back_up, commit_up_to}
use first_principle_cs.Raft.Commit.{advance_commit_index}
use first_principle_cs.Raft.Safety.Ballot.{Ballot, ballot, grants_of, asked_by, grants_in, asked_in}

-- A node's ballot and what no operation changes.
pub record View : Type 0 where
  pub ballot : Ballot
  pub node_id : ℕ
  pub num_nodes : ℕ
  pub has_storage : Bool

abbrev pub view : Node → View
view node = record {
  ballot = ballot node;
  node_id = node.node_id;
  num_nodes = node.num_nodes;
  has_storage = node.has_storage;
}

pub grants_in-append :
    (xs : List (ℤ × Message)) (to : ℤ) (m : Message)
    → grants_in (xs ++ (to, m) ∷ []) ≡ grants_in xs ++ grants_of to m
grants_in-append [] to m = append-nil (grants_of to m)
grants_in-append ((t, x) ∷ xs) to m =
    rw (grants_in-append xs to m)
      (sym (append_assoc (grants_of t x) (grants_in xs) (grants_of to m)))

pub asked_in-append :
    (xs : List (ℤ × Message)) (to : ℤ) (m : Message)
    → asked_in (xs ++ (to, m) ∷ []) ≡ asked_in xs ++ asked_by m
asked_in-append [] to m = append-nil (asked_by m)
asked_in-append ((t, x) ∷ xs) to m =
    rw (asked_in-append xs to m) (sym (append_assoc (asked_by x) (asked_in xs) (asked_by m)))

-- A message that grants no vote and asks for none.
abbrev pub IsPlain : Message → Type 0
IsPlain m = ((to : ℤ) → grants_of to m ≡ []) × (asked_by m ≡ [])

pub view-send : (node : Node) (to : ℤ) (m : Message) → IsPlain m → view (send node to m) ≡ view node
unfolding send
view-send node to m (no_grant, no_ask) = elim (Bool-cases node.has_send) [
  | inl on ↦
      rw (on, grants_in-append, asked_in-append, no_grant to, no_ask)
        (rw append-nil (rw append-nil))
  | inr off ↦ rw off
]

pub view-send_all :
    (is : List ℕ) (m : Message) (node : Node) → IsPlain m → view (send_all is m node) ≡ view node
unfolding send_all
view-send_all [] m node plain = refl
view-send_all (i ∷ is) m node plain =
    view-send_all is m (send node (pos i) m) plain ∙ view-send node (pos i) m plain

pub view-broadcast : (node : Node) (m : Message) → IsPlain m → view (broadcast node m) ≡ view node
unfolding broadcast
view-broadcast node m plain = view-send_all _ m node plain

pub view-reset_election_timer : (node : Node) → view (reset_election_timer node) ≡ view node
unfolding reset_election_timer
view-reset_election_timer node = refl

view-apply_rounds : (n : ℕ) (node : Node) → view (apply_rounds n node) ≡ view node
unfolding apply_rounds
view-apply_rounds zero node = refl
view-apply_rounds (suc n) node = view-apply_rounds n (apply_next node)

pub view-apply_committed : (node : Node) → view (apply_committed node) ≡ view node
unfolding apply_committed
view-apply_committed node =
    if_case (λ r. view r ≡ view node) node.has_apply _ _ (λ _. view-apply_rounds _ node) (λ _. refl)

view-replicate_to_checked :
    (node : Node) (peer : ℤ) → view (replicate_to_checked node peer).1 ≡ view node
unfolding replicate_to_checked
view-replicate_to_checked node (negsuc i) = refl
view-replicate_to_checked node (pos i) =
    ground
      (arith, view-send node (pos i) (append_entries_to node (get_or node.next_index i 0)) plain)
  where
    plain : IsPlain (append_entries_to node (get_or node.next_index i 0))
    plain = unfold append_entries_to in ((λ to. refl), refl)

pub view-replicate_to_peer :
    (node : Node) (peer : ℤ) → view (replicate_to_peer node peer).1 ≡ view node
unfolding replicate_to_peer
view-replicate_to_peer node peer =
    if_case (λ (r : Status × Node). view r.1 ≡ view node) (is_leader_role node.role) _ _
      (λ _. view-replicate_to_checked node peer) (λ _. refl)

view-replicate_to_all : (is : List ℕ) (node : Node) → view (replicate_to_all is node) ≡ view node
unfolding replicate_to_all
view-replicate_to_all [] node = refl
view-replicate_to_all (i ∷ is) node =
    view-replicate_to_all is (replicate_to_peer node (pos i)).1
    ∙ view-replicate_to_peer node (pos i)

pub view-replicate_log : (node : Node) → view (replicate_log node).1 ≡ view node
unfolding replicate_log
view-replicate_log node =
    if_case (λ (r : Status × Node). view r.1 ≡ view node) (is_leader_role node.role) _ _
      (λ _. view-replicate_to_all _ node) (λ _. refl)

view-after_append :
    (node : Node) (log : Log) (index : ℕ) → view (after_append node (log, index)).1 ≡ view node
unfolding after_append
view-after_append node log index =
    if_case (λ r. view r ≡ view node) (node.num_nodes == 1) _ _ (λ _. refl)
      (λ _. view-replicate_log (record node { log = log }))

pub view-propose : (node : Node) (command : List ℕ) → view (propose node command).1 ≡ view node
unfolding propose
view-propose node command =
    if_case (λ (r : Status × Node × Option ℕ). view r.1 ≡ view node) node.running _ _
      (λ _.
        if_case (λ (r : Status × Node × Option ℕ). view r.1 ≡ view node) (is_leader_role node.role)
          _ _ (λ _. view-after_append node _ _) (λ _. refl))
      (λ _. refl)

pub view-advance_commit_index : (node : Node) → view (advance_commit_index node).1 ≡ view node
unfolding advance_commit_index
view-advance_commit_index node =
    if_case (λ (r : Status × Node). view r.1 ≡ view node) (is_leader_role node.role) _ _
      (λ _.
        if_case (λ (r : Status × Node). view r.1 ≡ view node) (ltb node.commit_index _) _ _
          (λ _. view-apply_committed _) (λ _. refl))
      (λ _. refl)

pub view-record_match :
    (node : Node) (from index : ℕ) → view (record_match node from index) ≡ view node
unfolding record_match
view-record_match node from index =
    if_case (λ r. view r ≡ view node) (ltb (get_or node.match_index from 0) index) _ _ (λ _. refl)
      (λ _. refl)

pub view-back_up : (node : Node) (from : ℕ) → view (back_up node from) ≡ view node
unfolding back_up
view-back_up node from =
    if_case (λ r. view r ≡ view node) (ltb 1 (get_or node.next_index from 0)) _ _ (λ _. refl)
      (λ _. refl)

pub view-commit_up_to :
    (node : Node) (request : AppendEntries) → view (commit_up_to node request) ≡ view node
unfolding commit_up_to
view-commit_up_to node request =
    if_case (λ r. view r ≡ view node) (ltb node.commit_index request.leader_commit) _ _
      (λ _. view-apply_committed _) (λ _. refl)
