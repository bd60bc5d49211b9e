-- ===== src/Raft/Safety/Cluster.antt =====
-- A cluster of nodes as a step relation: a node acts by itself, or a message that some node has sent
-- to it is delivered, any number of times and in any order, or never; a node may stop at any moment
-- and start again from its data directory. The invariant of its votes.
use first_principle_cs.Base.{
  ℕ, suc, ap, ◌+◌, ◌≤◌, ◌<◌, ◌≡◌, refl, sym, subst, ◌∙◌, inl, inr, ℤ, pos, no_id, List, [], ◌∷◌,
  true, false, if◌then◌else◌, ◌==◌, if_case, ==_iff, u64, some, Ensures, replicate,
  length-replicate,
}
use first_principle_cs.Raft.Types.{Status, Role, Entry}
use first_principle_cs.Raft.Message.{
  Message, request_vote, request_vote_response, RequestVote, RequestVoteResponse, append_entries,
  append_entries_response, pre_vote, pre_vote_response, timeout_now, complete,
}
use first_principle_cs.Raft.Node.{Node, start, stop, on_disk, is_ok}
use first_principle_cs.Raft.Create.{Config, Disk, create}
use first_principle_cs.Raft.Replicate.{propose}
use first_principle_cs.Raft.Election.{start_election, start_pre_vote, send_heartbeats}
use first_principle_cs.Raft.Receive.{receive_message, tick}
use first_principle_cs.Raft.Safety.Ballot.{
  In, In-append_left, Ballot, ballot, grants_in, grants_of, asked_in, asked_by, BallotInv, last_or,
  retire, In-append_right,
}
use first_principle_cs.Raft.Safety.Keep.{Moves-BallotInv, Moves-saved}
use first_principle_cs.Raft.Safety.Quiet.{View, view, view-propose}
use first_principle_cs.Raft.Safety.Effects.{
  Ready, Effect, Effect-refl, Effect-quiet, Effect-Move, start_election-Effect,
}
use first_principle_cs.Raft.Safety.Acts.{
  Honest, receive_message-DoesMaybe, tick-Do, start_pre_vote-Do, start-Do, send_heartbeats-Do,
}
use first_principle_cs.Raft.Safety.Restart.{state_of, created_view, view-create}

-- What a node does by itself, when its storage answers `answers` to its attempts to save the term and the
-- vote. A restart loads what they have left on the disk, and keeps the record of what was sent and of
-- the attempts before.
pub data Act (answers : ℕ → Status) (a : Node) : Node → Type 0 where
  ticks : (ms : ℕ) → Act answers a (tick a ms).1
  starts : Act answers a (start a).1
  stops : Act answers a (stop a).1
  stands : Act answers a (start_election a).1
  sounds_out : Act answers a (start_pre_vote a).1
  proposes : (command : List ℕ) → Act answers a (propose a command).1
  heartbeats : Act answers a (send_heartbeats a).1
  restarts :
      (config : Config) (disk : Disk) (fresh : Entry) (rand : ℕ → ℕ) (b : Node)
      → config.node_id ≡ pos a.node_id
      → config.num_nodes ≡ pos a.num_nodes
      → config.data_dir ≡ some disk
      → disk.state ≡ state_of (on_disk answers a.saved)
      → create config fresh rand ≡ some b
      → Act answers a (record b { sent = a.sent; saved = a.saved })

abbrev pub Cluster : Type 0
Cluster = ℕ → Node

abbrev pub update : Cluster → ℕ → Node → Cluster
update c i b k = if k == i then b else c k

-- What the storages of the nodes answer.
abbrev pub Answers : Type 0
Answers = ℕ → ℕ → Status

-- No counter of terms is at its end.
pub data Step (answers : Answers) (n : ℕ) (c : Cluster) : Cluster → Type 0 where
  acts :
      (i : ℕ) {b : Node}
      → i < n
      → (c i).current_term + 1 < u64
      → Act (answers i) (c i) b
      → Step answers n c (update c i b)
  delivers :
      (i j : ℕ) (m : Message) (s : Status) (b : Node)
      → i < n
      → j < n
      → (c i).current_term + 1 < u64
      → In (pos i, m) (c j).sent
      → receive_message (c i) (pos j) (complete m) ≡ some (s, b)
      → Step answers n c (update c i b)

pub data Reach (answers : Answers) (n : ℕ) (c : Cluster) : Cluster → Type 0 where
  here : Reach answers n c c
  next : {d e : Cluster} → Reach answers n c d → Step answers n d e → Reach answers n c e

-- Every node has just been created over a directory with no saved state.
pub record Initial (n : ℕ) (c : Cluster) : Type 0 where
  pub config : ℕ → Config
  pub disk : ℕ → Disk
  pub fresh : Entry
  pub rand : ℕ → ℕ → ℕ
  pub numbered : (i : ℕ) → i < n → (config i).node_id ≡ pos i
  pub among : (i : ℕ) → i < n → (config i).num_nodes ≡ pos n
  pub opened : (i : ℕ) → i < n → (config i).data_dir ≡ some (disk i)
  pub empty : (i : ℕ) → i < n → (disk i).state ≡ state_of []
  pub created : (i : ℕ) → i < n → create (config i) fresh (rand i) ≡ some (c i)

-- Node `j` has saved a vote for node `i` in term `t`.
abbrev pub Saved : Cluster → ℕ → ℕ → ℕ → Type 0
Saved c i t j = In (t, pos i) (c j).saved

-- Every attempt to save succeeds.
abbrev pub AllOk : ℕ → Answers → Type 0
AllOk n answers = (i k : ℕ) → i < n → answers i k ≡ Status.ok

pub record ClusterInv (n : ℕ) (c : Cluster) : Type 0 where
  pub ready : (i : ℕ) → i < n → Ready i n (view (c i))
  pub ballots : (i : ℕ) → i < n → BallotInv i n (Saved c i) (ballot (c i))

asked_of_sent :
    (to : ℤ) (q : RequestVote) (sent : List (ℤ × Message))
    → In (to, request_vote q) sent
    → In q.candidate_id (asked_in sent)
asked_of_sent to q [] h = absurd h
asked_of_sent to q ((t, m) ∷ ms) (inl e) =
    In-append_left _ (asked_by m) (asked_in ms)
      (subst (λ p. In q.candidate_id (asked_by p.1)) (sym e) (inl refl))
asked_of_sent to q ((t, m) ∷ ms) (inr h) =
    In-append_right _ (asked_by m) (asked_in ms) (asked_of_sent to q ms h)

granted_of_sent :
    (to : ℤ) (a : RequestVoteResponse) (sent : List (ℤ × Message))
    → a.vote_granted ≡ true
    → In (to, request_vote_response a) sent
    → In (to, a.term) (grants_in sent)
granted_of_sent to a [] g h = absurd h
granted_of_sent to a ((t, m) ∷ ms) g (inl e) =
    In-append_left _ (grants_of t m) (grants_in ms)
      (subst (λ p. In (to, a.term) (grants_of p.0 p.1)) (sym e) (rw g (inl refl)))
granted_of_sent to a ((t, m) ∷ ms) g (inr h) =
    In-append_right _ (grants_of t m) (grants_in ms) (granted_of_sent to a ms g h)

pub on_disk_ok :
    (answers : ℕ → Status) (xs : List (ℕ × ℤ))
    → ((k : ℕ) → answers k ≡ Status.ok)
    → on_disk answers xs ≡ xs
unfolding on_disk
on_disk_ok answers [] fine = refl
on_disk_ok answers (x ∷ xs) fine =
    ap
      (λ s.
        if is_ok s
        then x ∷ on_disk (λ k. answers (suc k)) xs
        else on_disk (λ k. answers (suc k)) xs)
      (fine 0)
    ∙ ap (x ∷◌) (on_disk_ok (λ k. answers (suc k)) xs (λ k. fine (suc k)))

module _ (n : ℕ) (c : Cluster) (v : ClusterInv n c) where
  -- What is delivered is what its sender claims.
  honest : (i j : ℕ) (m : Message) → j < n → In (pos i, m) (c j).sent → Honest i n (Saved c i) j m
  honest i j (request_vote q) h sent = (v.ballots j h).asks _ (asked_of_sent (pos i) q _ sent)
  honest i j (request_vote_response a) h sent =
      λ g. (v.ballots j h).granted (pos i) a.term (granted_of_sent (pos i) a _ g sent)
  honest i j (append_entries q bytes) h sent = tt
  honest i j (append_entries_response a) h sent = tt
  honest i j (pre_vote q) h sent = tt
  honest i j (pre_vote_response a) h sent = tt
  honest i j (timeout_now q) h sent = tt

  restarts-Effect :
      (i : ℕ) (config : Config) (disk : Disk) (fresh : Entry) (rand : ℕ → ℕ) (b : Node)
      → i < n
      → config.node_id ≡ pos (c i).node_id
      → config.num_nodes ≡ pos (c i).num_nodes
      → config.data_dir ≡ some disk
      → disk.state ≡ state_of (c i).saved
      → create config fresh rand ≡ some b
      → Effect i n
          (Saved c i)
          (view (c i))
          (view (record b { sent = (c i).sent; saved = (c i).saved }))
  restarts-Effect i config disk fresh rand b h number among dir state made =
      subst (λ w. Effect i n (Saved c i) (view a) (kept w)) (sym opened)
        (subst
          (λ vote. Effect i n (Saved c i) (view a) (kept (created_view a.node_id a.num_nodes vote)))
          (sym (v.ballots i h).durable)
          (Effect-Move i n (Saved c i)
            (retire (ballot a) Role.follower (replicate a.num_nodes false) 0 refl)
            (record {
              numbered = r.numbered;
              among = r.among;
              durable = refl;
              sized = length-replicate a.num_nodes false ∙ r.among;
              member = r.member;
            })))
    where
      a : Node
      a = c i

      r : Ready i n (view a)
      r = v.ready i h

      kept : View → View
      kept w = record w {
        ballot = record w.ballot {
          saved = a.saved;
          grants = grants_in a.sent;
          asked = asked_in a.sent;
        };
      }

      opened : view b ≡ created_view a.node_id a.num_nodes (last_or (0, no_id) a.saved)
      opened =
          view-create config disk fresh rand a.node_id a.num_nodes a.saved b number among dir state
            made

  acts-Effect :
      (answers : Answers) (i : ℕ) {b : Node}
      → AllOk n answers
      → 2 ≤ n
      → i < n
      → (c i).current_term + 1 < u64
      → Act (answers i) (c i) b
      → Effect i n (Saved c i) (view (c i)) (view b)
  acts-Effect answers i fine many h small (ticks ms) =
      tick-Do i n (Saved c i) (c i) ms small (v.ready i h)
  acts-Effect answers i fine many h small starts = start-Do i n (Saved c i) (c i) many (v.ready i h)
  acts-Effect answers i fine many h small stops =
      unfold stop in Effect-refl i n (Saved c i) (v.ready i h)
  acts-Effect answers i fine many h small stands =
      start_election-Effect i n (Saved c i) (c i) small (v.ready i h)
  acts-Effect answers i fine many h small sounds_out =
      start_pre_vote-Do i n (Saved c i) (c i) small (v.ready i h)
  acts-Effect answers i fine many h small (proposes command) =
      Effect-quiet i n (Saved c i) (view-propose (c i) command) (v.ready i h)
  acts-Effect answers i fine many h small heartbeats =
      send_heartbeats-Do i n (Saved c i) (c i) (v.ready i h)
  acts-Effect answers i fine many h small
        (restarts config disk fresh rand b number among dir state made) =
      restarts-Effect i config disk fresh rand b h number among dir
        (state ∙ ap state_of (on_disk_ok (answers i) (c i).saved (λ k. fine i k h))) made

  delivers-Effect :
      (i j : ℕ) (m : Message) (s : Status) (b : Node)
      → i < n
      → j < n
      → (c i).current_term + 1 < u64
      → In (pos i, m) (c j).sent
      → receive_message (c i) (pos j) (complete m) ≡ some (s, b)
      → Effect i n (Saved c i) (view (c i)) (view b)
  delivers-Effect i j m s b h k small sent e =
      subst (Ensures λ x. Effect i n (Saved c i) (view (c i)) (view x.1)) e (
        receive_message-DoesMaybe i n (Saved c i) (c i) j m (honest i j m k sent) small
          (v.ready i h))

-- More known of the others' votes does not break the invariant.
BallotInv-mono :
    {self n : ℕ} {A B : ℕ → ℕ → Type 0} {b : Ballot}
    → ((t j : ℕ) → A t j → B t j)
    → BallotInv self n A b
    → BallotInv self n B b
BallotInv-mono {b} grow v = record {
  durable = v.durable;
  current = v.current;
  once = v.once;
  granted = v.granted;
  asks = v.asks;
  standing = λ h.
      let s = v.standing h in
      record {
        own = s.own;
        own_saved = s.own_saved;
        sized = s.sized;
        counted = s.counted;
        backed =
            λ j g. elim (s.backed j g) [ inl e ↦ inl e | inr known ↦ inr (grow b.term j known) ];
      };
  elected = v.elected;
}

update_case :
    (P : ℕ → Node → Type 0) (c : Cluster) (i : ℕ) (b : Node) (k : ℕ)
    → P i b
    → P k (c k)
    → P k (update c i b k)
update_case P c i b k new old =
    if_case (P k) (k == i) b (c k) (λ e. subst (λ j. P j b) (sym ((==_iff k i).0 e)) new) (λ _. old)

-- A cluster in which one node has moved.
module _ (n : ℕ) (c : Cluster) (v : ClusterInv n c) (i : ℕ) (b : Node) (h : i < n)
    (e : Effect i n (Saved c i) (view (c i)) (view b)) where
  Saved-update : (k t j : ℕ) → Saved c k t j → Saved (update c i b) k t j
  Saved-update k t j s =
      update_case (λ l x. In (t, pos k) (c l).saved → In (t, pos k) x.saved) c i b j
        (Moves-saved _ e.moves) (λ x. x) s

  ClusterInv-update : ClusterInv n (update c i b)
  ClusterInv-update = record {
    ready =
        λ k l. update_case (λ l x. l < n → Ready l n (view x)) c i b k (λ _. e.ready) (v.ready k) l;
    ballots = λ k l.
        update_case (λ l x. l < n → BallotInv l n (Saved (update c i b) l) (ballot x)) c i b k
          (λ _.
            BallotInv-mono (Saved-update i)
              (Moves-BallotInv i n (Saved c i) e.moves (v.ballots i h)))
          (λ l. BallotInv-mono (Saved-update k) (v.ballots k l)) l;
  }

-- Every step keeps the invariant.
pub Step-ClusterInv :
    {answers : Answers} {n : ℕ} {c d : Cluster}
    → AllOk n answers
    → 2 ≤ n
    → Step answers n c d
    → ClusterInv n c
    → ClusterInv n d
Step-ClusterInv {answers} {n} {c} fine many (acts i {b} h small a) v =
    ClusterInv-update n c v i b h (acts-Effect n c v answers i fine many h small a)
Step-ClusterInv {answers} {n} {c} fine many (delivers i j m s b h k small sent e) v =
    ClusterInv-update n c v i b h (delivers-Effect n c v i j m s b h k small sent e)

-- What a node has saved it keeps.
pub Step-Saved :
    {answers : Answers} {n : ℕ} {c d : Cluster} (i t j : ℕ)
    → AllOk n answers
    → 2 ≤ n
    → ClusterInv n c
    → Step answers n c d
    → Saved c i t j
    → Saved d i t j
Step-Saved {answers} {n} {c} i t j fine many v (acts k {b} h small a) s =
    Saved-update n c v k b h (acts-Effect n c v answers k fine many h small a) i t j s
Step-Saved {answers} {n} {c} i t j fine many v (delivers k l m st b h g small sent e) s =
    Saved-update n c v k b h (delivers-Effect n c v k l m st b h g small sent e) i t j s

pub Reach-ClusterInv :
    {answers : Answers} {n : ℕ} {c d : Cluster}
    → AllOk n answers
    → 2 ≤ n
    → ClusterInv n c
    → Reach answers n c d
    → ClusterInv n d
Reach-ClusterInv fine many v here = v
Reach-ClusterInv fine many v (next r s) =
    Step-ClusterInv fine many s (Reach-ClusterInv fine many v r)

pub Reach-Saved :
    {answers : Answers} {n : ℕ} {c d : Cluster} (i t j : ℕ)
    → AllOk n answers
    → 2 ≤ n
    → ClusterInv n c
    → Reach answers n c d
    → Saved c i t j
    → Saved d i t j
Reach-Saved i t j fine many v here s = s
Reach-Saved i t j fine many v (next r st) s =
    Step-Saved i t j fine many (Reach-ClusterInv fine many v r) st
      (Reach-Saved i t j fine many v r s)

pub Initial-ClusterInv : {n : ℕ} {c : Cluster} → Initial n c → ClusterInv n c
Initial-ClusterInv {n} {c} start = record {
  ready = λ i h. subst (Ready i n) (sym (seen i h)) (record {
    numbered = refl;
    among = refl;
    durable = refl;
    sized = length-replicate n false;
    member = h;
  });
  ballots = λ i h.
      subst (λ w. BallotInv i n (Saved c i) w.ballot) (sym (seen i h))
        (record {
          durable = refl;
          current = λ t w s ne. absurd s;
          once = λ t w w' s s' ne ne'. absurd s;
          granted = λ w t s. absurd s;
          asks = λ w s. absurd s;
          standing = λ h. cc;
          elected = λ h. cc;
        });
}
  where
    seen : (i : ℕ) → i < n → view (c i) ≡ created_view i n (0, no_id)
    seen i h =
        view-create (start.config i) (start.disk i) start.fresh (start.rand i) i n [] (c i)
          (start.numbered i h) (start.among i h) (start.opened i h) (start.empty i h)
          (start.created i h)
