-- ===== src/Raft/Safety/Restart.antt =====
-- A node that stops and is created again over its data directory.
use mathlib.Core.Option.{some-injective}
use first_principle_cs.Base.{
  ℕ, zero, suc, ◌≡◌, refl, sym, ap, ◌∙◌, ℤ, pos, no_id, List, [], ◌∷◌, Option, none, some, true,
  false, replicate,
}
use first_principle_cs.Raft.Types.{not_found, Role, Entry}
use first_principle_cs.Raft.Node.{Node}
use first_principle_cs.Raft.Create.{
  Config, Disk, SavedState, loaded, failed, fresh_node, from_snapshot, recover_log, recover_state,
  recover, with_storage, create_checked, create,
}
use first_principle_cs.Raft.Safety.Ballot.{last_or}
use first_principle_cs.Raft.Safety.Quiet.{View, view}

-- What the directory says of the votes: the last state saved, or that none was.
abbrev pub state_of : List (ℕ × ℤ) → SavedState
state_of [] = failed not_found
state_of (x ∷ xs) = loaded (last_or x xs).0 (last_or x xs).1

-- The view of a created node: nothing sent or saved, and the vote that the directory holds.
abbrev pub created_view : ℕ → ℕ → ℕ × ℤ → View
created_view id n vote = record {
  ballot = record {
    term = vote.0;
    voted_for = vote.1;
    role = Role.follower;
    votes = replicate n false;
    received = 0;
    saved = [];
    grants = [];
    asked = [];
  };
  node_id = id;
  num_nodes = n;
  has_storage = true;
}

view-from_snapshot :
    (node : Node) (snapshot : Option (ℕ × ℕ)) → view (from_snapshot node snapshot) ≡ view node
unfolding from_snapshot
view-from_snapshot node none = refl
view-from_snapshot node (some (i, t)) = refl

-- A node's view with another term and vote.
abbrev revote : View → ℕ × ℤ → View
revote v vote = record v { ballot = record v.ballot { term = vote.0; voted_for = vote.1 } }

view-recover_state :
    (disk : Disk) (node : Node) (saved : List (ℕ × ℤ))
    → node.current_term ≡ 0
    → node.voted_for ≡ no_id
    → view (recover_state disk node (state_of saved)).1
      ≡ revote (view node) (last_or (0, no_id) saved)
unfolding recover_state recover_log
view-recover_state disk node [] t v = λ i. revote (view node) (t i, v i)
view-recover_state disk node (x ∷ xs) t v = refl

view-recover :
    (disk : Disk) (node : Node) (saved : List (ℕ × ℤ))
    → node.current_term ≡ 0
    → node.voted_for ≡ no_id
    → disk.state ≡ state_of saved
    → view (recover node disk).1 ≡ revote (view node) (last_or (0, no_id) saved)
unfolding recover
view-recover disk node saved t v s =
    ap (λ st. view (recover_state disk based st).1) s
    ∙ view-recover_state disk based saved (ap (λ x. x.ballot.term) same ∙ t)
        (ap (λ x. x.ballot.voted_for) same ∙ v)
    ∙ ap (λ x. revote x (last_or (0, no_id) saved)) same
  where
    based : Node
    based = from_snapshot node disk.snapshot

    same : view based ≡ view node
    same = view-from_snapshot node disk.snapshot

-- A node that is created over a directory with the votes `saved` starts as a follower with the last of
-- them.
pub view-create :
    (config : Config) (disk : Disk) (fresh : Entry) (rand : ℕ → ℕ) (id n : ℕ) (saved : List (ℕ × ℤ))
    (node : Node)
    → config.node_id ≡ pos id
    → config.num_nodes ≡ pos n
    → config.data_dir ≡ some disk
    → disk.state ≡ state_of saved
    → create config fresh rand ≡ some node
    → view node ≡ created_view id n (last_or (0, no_id) saved)
unfolding create create_checked with_storage fresh_node
view-create config disk fresh rand id zero saved node i m d s made =
    cc (sym (λ k. create_checked config (i k) (m k) fresh rand) ∙ made)
view-create config disk fresh rand id (suc n) saved node i m d s made =
    ap view (sym opened) ∙ view-recover disk (record first { has_storage = true }) saved refl refl s
  where
    first : Node
    first = fresh_node config id (suc n) fresh rand

    opened : with_storage first (some disk) ≡ node
    opened =
        sym (ap (with_storage first) d)
        ∙ some-injective _ _ (sym (λ k. create_checked config (i k) (m k) fresh rand) ∙ made)
