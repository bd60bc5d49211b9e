-- ===== src/Raft/Safety/Unsaved.antt =====
-- A vote whose save fails: `persist_state` in election.c does not look at the storage's answer.
use first_principle_cs.Base.{ℕ, ◌≤◌, ◌≡◌, ℤ, no_id, List, false, length}
use first_principle_cs.Raft.Types.{Status, Role}
use first_principle_cs.Raft.Node.{Node, is_ok, on_disk, cleared_votes}

-- More has been asked of the storage, and the disk holds what it held.
abbrev Unsaved : (ℕ → Status) → List (ℕ × ℤ) → List (ℕ × ℤ) → Type 0
Unsaved answers old new = (on_disk answers new ≡ on_disk answers old) × (length old ≤ length new)

-- From the `n`-th save on, all fail.
abbrev pub FailsFrom : (ℕ → Status) → ℕ → Type 0
FailsFrom answers n = (k : ℕ) → n ≤ k → is_ok (answers k) ≡ false

-- What `step_down` saves.
abbrev lowered : Node → ℕ → Node
lowered node term = record node {
  role = Role.follower;
  current_term = term;
  voted_for = no_id;
  current_leader = no_id;
  votes_received = 0;
  votes_granted = cleared_votes node;
}

-- A node that has gone on to the request's term, with the disk left behind.
abbrev CaughtUp : (ℕ → Status) → Node → ℕ → Node → Type 0
CaughtUp answers node term next = Unsaved answers node.saved next.saved × (term ≤ next.current_term)
