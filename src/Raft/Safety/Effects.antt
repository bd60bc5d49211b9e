-- ===== src/Raft/Safety/Effects.antt =====
-- The operations of election.c that the handlers share, as moves of the ballot: stepping down,
-- standing, campaigning, winning.
use mathlib.Core.List.{append-nil}
use first_principle_cs.Base.{
  ℕ, zero, suc, ◌+◌, ◌/◌, ◌≤◌, ◌<◌, ◌≡◌, refl, sym, ap, subst, ◌∙◌, ℤ, pos, no_id, List, [], ◌∷◌,
  ◌++◌, Bool, true, false, ltb, if_case, length, get_or, set, replicate, drop, arith, u64, add64,
  ltb→lt, length-set, length-append, length-replicate, length-drop,
}
use first_principle_cs.Raft.Types.{Status, Role}
use first_principle_cs.Raft.Message.{Message, RequestVote, request_vote}
use first_principle_cs.Raft.Node.{
  Node, send, send_all, broadcast, persist_state, reset_election_timer, become_leader,
  cleared_votes,
}
use first_principle_cs.Raft.Election.{
  step_down, catch_up, become_candidate, campaign, start_election, has_majority, vote_request,
}
use first_principle_cs.Raft.Safety.Ballot.{
  Ballot, ballot, grants_in, asked_in, Move, retire, adopt, stand, ask, win, Moves, done, more,
  count_true, is_idle,
}
use first_principle_cs.Raft.Safety.Quiet.{View, view, grants_in-append, asked_in-append}

-- A persistent node, number `self` of `n`, with a slot for each node's vote.
pub record Ready (self n : ℕ) (v : View) : Type 0 where
  pub numbered : v.node_id ≡ self
  pub among : v.num_nodes ≡ n
  pub durable : v.has_storage ≡ true
  pub sized : length v.ballot.votes ≡ n
  pub member : self < n

pub length-cleared_votes :
    (node : Node)
    → length node.votes_granted ≡ node.num_nodes
    → length (cleared_votes node) ≡ node.num_nodes
length-cleared_votes node h = omega (
  arith,
  length-append {0} (replicate node.num_nodes false) (drop node.num_nodes node.votes_granted),
  length-replicate {0} node.num_nodes false,
  length-drop {0} node.num_nodes node.votes_granted,
)

drop_all : (n : ℕ) (xs : List Bool) → length xs ≤ n → drop n xs ≡ []
drop_all zero [] h = refl
drop_all zero (x ∷ xs) h = elim h [ ]
drop_all (suc n) [] h = refl
drop_all (suc n) (x ∷ xs) h = drop_all n xs (omega arith)

-- With a slot for each node, clearing leaves no vote.
cleared_votes_lem :
    (node : Node)
    → length node.votes_granted ≡ node.num_nodes
    → cleared_votes node ≡ replicate node.num_nodes false
cleared_votes_lem node h =
    ap (◌++◌ (replicate node.num_nodes false))
      (drop_all node.num_nodes node.votes_granted (omega arith))
    ∙ append-nil _

count_true-replicate : (n : ℕ) → count_true (replicate n false) ≡ 0
count_true-replicate zero = refl
count_true-replicate (suc n) = count_true-replicate n

get_or-replicate : (n j : ℕ) → get_or (replicate n false) j false ≡ false
get_or-replicate zero j = refl
get_or-replicate (suc n) zero = refl
get_or-replicate (suc n) (suc j) = get_or-replicate n j

count_true-own_vote : (n i : ℕ) → i < n → count_true (set (replicate n false) i true) ≡ 1
count_true-own_vote zero i h = elim h [ ]
count_true-own_vote (suc n) zero h = ap suc (count_true-replicate n)
count_true-own_vote (suc n) (suc i) h = count_true-own_vote n i (omega arith)

own_vote_only : (n i j : ℕ) → get_or (set (replicate n false) i true) j false ≡ true → j ≡ i
own_vote_only zero i j h = cc
own_vote_only (suc n) zero zero h = refl
own_vote_only (suc n) zero (suc j) h = cc (get_or-replicate n j)
own_vote_only (suc n) (suc i) zero h = cc
own_vote_only (suc n) (suc i) (suc j) h = ap suc (own_vote_only n i j h)

pub persist_state-on :
    (node : Node)
    → node.has_storage ≡ true
    → persist_state node
      ≡ record node { saved = node.saved ++ (node.current_term, node.voted_for) ∷ [] }
unfolding persist_state
persist_state-on node on =
    if_case
      (λ r. r ≡ record node { saved = node.saved ++ (node.current_term, node.voted_for) ∷ [] })
      node.has_storage _ _ (λ _. refl) (λ off. cc)

module _ (self n : ℕ) (Backed : ℕ → ℕ → Type 0) where
  -- What an operation may do to a node: moves of its ballot, and it stays ready.
  pub record Effect (a b : View) : Type 0 where
    pub moves : Moves self n Backed a.ballot b.ballot
    pub ready : Ready self n b

  Moves-trans :
      {a b c : Ballot} → Moves self n Backed a b → Moves self n Backed b c → Moves self n Backed a c
  Moves-trans ms (done b) = ms
  Moves-trans ms (more ns m) = more (Moves-trans ms ns) m

  pub Effect-then : {a b c : View} → Effect a b → Effect b c → Effect a c
  Effect-then e f = record { moves = Moves-trans e.moves f.moves; ready = f.ready }

  pub Effect-refl : {a : View} → Ready self n a → Effect a a
  Effect-refl {a} r = record { moves = done a.ballot; ready = r }

  -- An operation that touches no vote.
  pub Effect-quiet : {a b : View} → b ≡ a → Ready self n a → Effect a b
  Effect-quiet e r = subst (Effect _) (sym e) (Effect-refl r)

  -- One move.
  pub Effect-Move :
      {a b : View} → Move self n Backed a.ballot b.ballot → Ready self n b → Effect a b
  Effect-Move {a} m r = record { moves = more (done a.ballot) m; ready = r }

  pub retire-Effect :
      (node : Node) (role : Role) (received : ℕ) (votes : List Bool)
      → is_idle role ≡ true
      → length votes ≡ n
      → Ready self n (view node)
      → Effect
          (view node)
          (view (record node { role = role; votes_received = received; votes_granted = votes }))
  retire-Effect node role received votes idle sized r =
      Effect-Move (retire (ballot node) role votes received idle) (record {
        numbered = r.numbered;
        among = r.among;
        durable = r.durable;
        sized = sized;
        member = r.member;
      })

  pub step_down-Effect :
      (node : Node) (t : ℕ)
      → node.current_term < t
      → Ready self n (view node)
      → Effect (view node) (view (step_down node t))
  unfolding step_down reset_election_timer
  step_down-Effect node t later r =
      subst (λ x. Effect (view node) (view (reset_election_timer x)))
        (sym (
          persist_state-on
            (record node {
              role = Role.follower;
              current_term = t;
              voted_for = no_id;
              current_leader = no_id;
              votes_received = 0;
              votes_granted = cleared_votes node;
            })
            r.durable))
        (Effect-Move (adopt (ballot node) t (cleared_votes node) later) (record {
          numbered = r.numbered;
          among = r.among;
          durable = r.durable;
          sized = length-cleared_votes node (r.sized ∙ sym r.among) ∙ r.among;
          member = r.member;
        }))

  pub catch_up-Effect :
      (node : Node) (t : ℕ) → Ready self n (view node) → Effect (view node) (view (catch_up node t))
  unfolding catch_up
  catch_up-Effect node t r =
      if_case (λ x. Effect (view node) (view x)) (ltb node.current_term t) _ _
        (λ later. step_down-Effect node t (ltb→lt _ _ later) r) (λ _. Effect-refl r)

  stand-Effect :
      (node : Node)
      → Ready self n (view node)
      → Effect (view node) (record (view node) {
        ballot = record (ballot node) {
          term = node.current_term + 1;
          voted_for = pos self;
          role = Role.candidate;
          votes = set (cleared_votes node) node.node_id true;
          received = 1;
          saved = node.saved ++ (node.current_term + 1, pos self) ∷ [];
        };
      })
  stand-Effect node r =
      Effect-Move
        (stand (ballot node) votes sized (rw cleared (omega (arith, own_count))) (λ j g.
          own_vote_only node.num_nodes node.node_id j
            (subst (λ vs. get_or (set vs node.node_id true) j false ≡ true) cleared g)
          ∙ r.numbered))
        (record {
          numbered = r.numbered;
          among = r.among;
          durable = r.durable;
          sized = sized;
          member = r.member;
        })
    where
      votes : List Bool
      votes = set (cleared_votes node) node.node_id true

      cleared : cleared_votes node ≡ replicate node.num_nodes false
      cleared = cleared_votes_lem node (r.sized ∙ sym r.among)

      sized : length votes ≡ n
      sized =
          length-set (cleared_votes node) node.node_id true
          ∙ length-cleared_votes node (r.sized ∙ sym r.among)
          ∙ r.among

      own_count : count_true (set (replicate node.num_nodes false) node.node_id true) ≡ 1
      own_count =
          count_true-own_vote node.num_nodes node.node_id
            (omega (arith, r.numbered, r.among, r.member))

  pub become_candidate-Effect :
      (node : Node)
      → node.current_term + 1 < u64
      → Ready self n (view node)
      → Effect (view node) (view (become_candidate node))
  unfolding become_candidate reset_election_timer
  become_candidate-Effect node small r =
      subst
        (λ x. Effect (view node) (
          view (
            reset_election_timer (record x {
              votes_received = 1;
              votes_granted = set (cleared_votes x) x.node_id true;
            }))))
        (sym (
          persist_state-on
            (record node {
              role = Role.candidate;
              current_term = add64 node.current_term 1;
              voted_for = pos node.node_id;
              current_leader = no_id;
            })
            r.durable))
        (subst (λ t. Effect (view node) (stood t node.node_id)) (sym next)
          (subst (λ i. Effect (view node) (stood (node.current_term + 1) i)) (sym r.numbered)
            (stand-Effect node r)))
    where
      next : add64 node.current_term 1 ≡ node.current_term + 1
      next = omega arith

      stood : ℕ → ℕ → View
      stood t i = record (view node) {
        ballot = record (ballot node) {
          term = t;
          voted_for = pos i;
          role = Role.candidate;
          votes = set (cleared_votes node) node.node_id true;
          received = 1;
          saved = node.saved ++ (t, pos i) ∷ [];
        };
      }

  pub win-Effect :
      (node : Node)
      → node.role ≡ Role.candidate
      → has_majority node ≡ true
      → Ready self n (view node)
      → Effect (view node) (view (become_leader node).1)
  unfolding become_leader
  win-Effect node candidate majority r =
      Effect-Move
        (win (ballot node) candidate
          (subst (λ k. k / 2 < node.votes_received) r.among (ltb→lt _ _ majority)))
        (record {
          numbered = r.numbered;
          among = r.among;
          durable = r.durable;
          sized = r.sized;
          member = r.member;
        })

  -- Asking for votes in the node's own name.
  send_request-Effect :
      (node : Node) (to : ℤ) (q : RequestVote)
      → q.candidate_id ≡ pos self
      → Ready self n (view node)
      → Effect (view node) (view (send node to (request_vote q)))
  unfolding send
  send_request-Effect node to q own r =
      if_case (λ x. Effect (view node) (view x)) node.has_send _ _ (λ _. asked_one)
        (λ _. Effect-refl r)
    where
      sent' : List (ℤ × Message)
      sent' = node.sent ++ (to, request_vote q) ∷ []

      no_grant : grants_in sent' ≡ grants_in node.sent
      no_grant = grants_in-append node.sent to (request_vote q) ∙ append-nil _

      one_more : asked_in sent' ≡ asked_in node.sent ++ pos self ∷ []
      one_more =
          asked_in-append node.sent to (request_vote q) ∙ ap (λ c. asked_in node.sent ++ c ∷ []) own

      asking : List (ℤ × ℕ) → List ℤ → View
      asking grants asked = record (view node) {
        ballot = record (ballot node) { grants = grants; asked = asked };
      }

      asked_one : Effect (view node) (asking (grants_in sent') (asked_in sent'))
      asked_one =
          subst (λ g. Effect (view node) (asking g (asked_in sent'))) (sym no_grant)
            (subst (λ a. Effect (view node) (asking (grants_in node.sent) a)) (sym one_more)
              (Effect-Move (ask (ballot node)) (record {
                numbered = r.numbered;
                among = r.among;
                durable = r.durable;
                sized = r.sized;
                member = r.member;
              })))

  send_requests-Effect :
      (is : List ℕ) (node : Node) (q : RequestVote)
      → q.candidate_id ≡ pos self
      → Ready self n (view node)
      → Effect (view node) (view (send_all is (request_vote q) node))
  unfolding send_all
  send_requests-Effect [] node q own r = Effect-refl r
  send_requests-Effect (i ∷ is) node q own r =
      let first = send_request-Effect node (pos i) q own r in
      Effect-then first (send_requests-Effect is _ q own first.ready)

  pub campaign-Effect :
      (node : Node)
      → node.role ≡ Role.candidate
      → Ready self n (view node)
      → Effect (view node) (view (campaign node).1)
  unfolding campaign broadcast
  campaign-Effect node candidate r =
      if_case (λ (x : Status × Node). Effect (view node) (view x.1)) (has_majority node) _ _
        (λ majority. win-Effect node candidate majority r)
        (λ _. send_requests-Effect _ node (vote_request node) (ap pos r.numbered) r)

  become_candidate-role : (node : Node) → (become_candidate node).role ≡ Role.candidate
  unfolding become_candidate reset_election_timer persist_state
  become_candidate-role node =
      if_case
        (λ (x : Node).
          (reset_election_timer (record x {
            votes_received = 1;
            votes_granted = set (cleared_votes x) x.node_id true;
          })).role
          ≡ Role.candidate)
        node.has_storage _ _ (λ _. refl) (λ _. refl)

  pub start_election-Effect :
      (node : Node)
      → node.current_term + 1 < u64
      → Ready self n (view node)
      → Effect (view node) (view (start_election node).1)
  unfolding start_election
  start_election-Effect node small r =
      if_case (λ (x : Status × Node). Effect (view node) (view x.1)) node.running _ _
        (λ _.
          let stood = become_candidate-Effect node small r in
          Effect-then stood (campaign-Effect _ (become_candidate-role node) stood.ready))
        (λ _. Effect-refl r)
