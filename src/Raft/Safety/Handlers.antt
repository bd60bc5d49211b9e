-- ===== src/Raft/Safety/Handlers.antt =====
-- The handlers of election.c and replication.c as moves of the ballot.
use mathlib.Core.List.{append-nil}
use first_principle_cs.Base.{
  ℕ, ◌+◌, ◌<◌, ◌≡◌, refl, sym, ap, subst, ◌∙◌, ◌≢◌, ◌⊎◌, ℤ, pos, no_id, List, [], ◌∷◌, ◌++◌, Bool,
  true, false, not, ◌&&◌, ltb, leb, if_case, and_left, and_right, not-true, get_or, set, arith, u64,
  ltb→lt, length-set,
}
use first_principle_cs.Raft.Types.{Status, Role}
use first_principle_cs.Raft.Message.{
  Message, RequestVote, RequestVoteResponse, PreVoteResponse, request_vote_response, TimeoutNow,
}
use first_principle_cs.Raft.Node.{Node, send, reset_election_timer}
use first_principle_cs.Raft.Election.{
  catch_up, has_majority, count_vote, is_log_up_to_date, can_vote, grant_vote, answer_vote,
  handle_request_vote, vote_response_from, handle_request_vote_response, pre_vote_response_from,
  handle_pre_vote_response, handle_timeout_now, is_candidate, is_pre_candidate,
}
use first_principle_cs.Raft.Safety.Ballot.{
  ballot, grants_in, asked_in, tally, vote, grant, is_idle, In, In-append_last,
}
use first_principle_cs.Raft.Safety.Quiet.{View, view, view-send, grants_in-append, asked_in-append}
use first_principle_cs.Raft.Safety.Effects.{
  Ready, Effect, Effect-then, Effect-refl, Effect-quiet, Effect-Move, retire-Effect,
  step_down-Effect, catch_up-Effect, win-Effect, start_election-Effect, persist_state-on,
}

is_candidate_iff : (role : Role) → is_candidate role ≡ true → role ≡ Role.candidate
is_candidate_iff role h = ground arith

is_pre_candidate_idle : (role : Role) → is_pre_candidate role ≡ true → is_idle role ≡ true
is_pre_candidate_idle role h = ground arith

module _ (self n : ℕ) (Backed : ℕ → ℕ → Type 0) where
  -- What a node does between two of its states.
  abbrev pub Does : Node → Node → Type 0
  Does a b = Effect self n Backed (view a) (view b)

  abbrev pub IsReady : Node → Type 0
  IsReady a = Ready self n (view a)

  -- Recording a vote that is free to give.
  grant_vote-Does :
      (node : Node) (q : RequestVote)
      → q.candidate_id ≢ no_id
      → can_vote node q.candidate_id ≡ true
      → IsReady node
      → Does node (grant_vote node q)
        × In (node.current_term, q.candidate_id) (grant_vote node q).saved
        × ((grant_vote node q).current_term ≡ node.current_term)
  unfolding grant_vote reset_election_timer
  grant_vote-Does node q real free r =
      subst
        (λ x.
          Does node (reset_election_timer x)
          × In (node.current_term, q.candidate_id) x.saved
          × (x.current_term ≡ node.current_term))
        (sym (persist_state-on (record node { voted_for = q.candidate_id }) r.durable))
        (
          Effect-Move self n Backed (vote (ballot node) q.candidate_id real unused) (record {
            numbered = r.numbered;
            among = r.among;
            durable = r.durable;
            sized = r.sized;
            member = r.member;
          }),
          In-append_last node.saved _,
          refl,
        )
    where
      unused : (node.voted_for ≡ no_id) ⊎ (node.voted_for ≡ q.candidate_id)
      unused = ground arith

  -- Sending a vote that is saved.
  send_grant-Does :
      (node : Node) (to : ℤ) (a : RequestVoteResponse)
      → a.vote_granted ≡ true
      → a.term ≡ node.current_term
      → In (node.current_term, to) node.saved
      → IsReady node
      → Does node (send node to (request_vote_response a))
  unfolding send
  send_grant-Does node to a positive now kept r =
      if_case (λ x. Does node x) node.has_send _ _ (λ _. granted_one)
        (λ _. Effect-refl self n Backed r)
    where
      sent' : List (ℤ × Message)
      sent' = node.sent ++ (to, request_vote_response a) ∷ []

      one_more : grants_in sent' ≡ grants_in node.sent ++ (to, node.current_term) ∷ []
      one_more =
          grants_in-append node.sent to (request_vote_response a)
          ∙ ap (λ g. grants_in node.sent ++ g) (cc (positive, now))

      no_ask : asked_in sent' ≡ asked_in node.sent
      no_ask = asked_in-append node.sent to (request_vote_response a) ∙ append-nil _

      after : List (ℤ × ℕ) → List ℤ → View
      after grants asked = record (view node) {
        ballot = record (ballot node) { grants = grants; asked = asked };
      }

      granted_one : Effect self n Backed (view node) (after (grants_in sent') (asked_in sent'))
      granted_one =
          subst (λ g. Effect self n Backed (view node) (after g (asked_in sent'))) (sym one_more)
            (subst
              (λ c.
                Effect self n Backed (view node)
                  (after (grants_in node.sent ++ (to, node.current_term) ∷ []) c))
              (sym no_ask)
              (Effect-Move self n Backed (grant (ballot node) to kept) (record {
                numbered = r.numbered;
                among = r.among;
                durable = r.durable;
                sized = r.sized;
                member = r.member;
              })))

  -- Answering without a vote.
  refuse-Does :
      (node : Node) (from : ℤ) (t : ℕ)
      → IsReady node
      → Does node
          (send node from (request_vote_response (record { term = t; vote_granted = false })))
  refuse-Does node from t r =
      Effect-quiet self n Backed (view-send node from _ ((λ to. refl), refl)) r

  answer_vote-Does :
      (node : Node) (from : ℤ) (q : RequestVote)
      → q.candidate_id ≡ from
      → from ≢ no_id
      → IsReady node
      → let (s, node', a) = answer_vote node q in
        Does node (send node' from (request_vote_response a))
  unfolding answer_vote
  answer_vote-Does node from q honest real r =
      if_case P (ltb q.term node.current_term) _ _ (λ _. refuse-Does node from _ r)
        (λ _.
          if_case P (can_vote node q.candidate_id && log_ok) _ _ (λ free. granted free)
            (λ _. refuse-Does node from _ r))
    where
      P : Status × Node × RequestVoteResponse → Type 0
      P x = Does node (send x.1 from (request_vote_response x.2))

      log_ok : Bool
      log_ok = is_log_up_to_date node q.last_log_term q.last_log_index

      granted :
          (can_vote node q.candidate_id && log_ok) ≡ true
          → Does node (
              send
                (grant_vote node q)
                from
                (request_vote_response (record { term = node.current_term; vote_granted = true })))
      granted free =
          let (given, kept, now) =
            grant_vote-Does node q (λ e. real (sym honest ∙ e)) (and_left _ log_ok free) r in
          Effect-then self n Backed given (
            send_grant-Does (grant_vote node q) from _ refl (sym now)
              (subst (λ t. In (t, from) (grant_vote node q).saved) (sym now)
                (subst (λ w. In (node.current_term, w) (grant_vote node q).saved) honest kept))
              given.ready)

  -- A vote request from the candidate that it names.
  pub handle_request_vote-Does :
      (node : Node) (from : ℤ) (q : RequestVote)
      → q.candidate_id ≡ from
      → from ≢ no_id
      → IsReady node
      → let (s, node', a) = handle_request_vote node q in
        Does node (send node' from (request_vote_response a))
  unfolding handle_request_vote
  handle_request_vote-Does node from q honest real r =
      let caught = catch_up-Effect self n Backed node q.term r in
      Effect-then self n Backed caught
        (answer_vote-Does (catch_up node q.term) from q honest real caught.ready)

  tally-Does :
      (node : Node) (from : ℕ)
      → Backed node.current_term from
      → get_or node.votes_granted from true ≡ false
      → IsReady node
      → Does node (count_vote node from)
  tally-Does node from backed free r =
      Effect-Move self n Backed (tally (ballot node) from backed free) (record {
        numbered = r.numbered;
        among = r.among;
        durable = r.durable;
        sized = length-set node.votes_granted from true ∙ r.sized;
        member = r.member;
      })

  vote_response_from-Does :
      (node : Node) (from : ℕ) (a : RequestVoteResponse)
      → node.role ≡ Role.candidate
      → (a.vote_granted ≡ true → Backed a.term from)
      → IsReady node
      → Does node (vote_response_from node from a).1
  unfolding vote_response_from
  vote_response_from-Does node from a candidate backed r =
      if_case P (ltb node.current_term a.term) _ _
        (λ later. step_down-Effect self n Backed node a.term (ltb→lt _ _ later) r)
        (λ late.
          if_case P (ltb a.term node.current_term) _ _ (λ _. Effect-refl self n Backed r)
            (λ early.
              if_case P (a.vote_granted && free) _ _
                (λ new.
                  let counted =
                    tally-Does node from
                      (subst (λ t. Backed t from) (same late early) (backed (and_left _ free new)))
                      (not-true _ (and_right a.vote_granted free new)) r in
                  if_case P (has_majority (count_vote node from)) _ _
                    (λ majority. Effect-then self n Backed counted (
                      win-Effect self n Backed (count_vote node from) candidate majority
                        counted.ready))
                    (λ _. counted))
                (λ _. Effect-refl self n Backed r)))
    where
      P : Status × Node → Type 0
      P x = Does node x.1

      free : Bool
      free = not (get_or node.votes_granted from true)

      same :
          ltb node.current_term a.term ≡ false
          → ltb a.term node.current_term ≡ false
          → a.term ≡ node.current_term
      same late early = ground arith

  -- A vote is counted only if its sender has saved it.
  pub handle_request_vote_response-Does :
      (node : Node) (from : ℕ) (a : RequestVoteResponse)
      → (a.vote_granted ≡ true → Backed a.term from)
      → IsReady node
      → Does node (handle_request_vote_response node (pos from) a).1
  unfolding handle_request_vote_response
  handle_request_vote_response-Does node from a backed r =
      if_case P (leb node.num_nodes from) _ _ (λ _. Effect-refl self n Backed r)
        (λ _.
          if_case P (is_candidate node.role) _ _
            (λ c. vote_response_from-Does node from a (is_candidate_iff node.role c) backed r)
            (λ _. Effect-refl self n Backed r))
    where
      P : Status × Node → Type 0
      P x = Does node x.1

  pre_vote_response_from-Does :
      (node : Node) (from : ℕ) (a : PreVoteResponse)
      → is_idle node.role ≡ true
      → node.current_term + 1 < u64
      → IsReady node
      → Does node (pre_vote_response_from node from a).1
  unfolding pre_vote_response_from
  pre_vote_response_from-Does node from a idle small r =
      if_case P (ltb node.current_term a.term) _ _
        (λ later. step_down-Effect self n Backed node a.term (ltb→lt _ _ later) r)
        (λ _.
          if_case P (a.vote_granted && not (get_or node.votes_granted from true)) _ _
            (λ _.
              if_case P (has_majority (count_vote node from)) _ _
                (λ _.
                  Effect-then self n Backed counted (
                    start_election-Effect self n Backed (count_vote node from) small counted.ready))
                (λ _. counted))
            (λ _. Effect-refl self n Backed r))
    where
      P : Status × Node → Type 0
      P x = Does node x.1

      counted : Does node (count_vote node from)
      counted =
          retire-Effect self n Backed node node.role (node.votes_received + 1)
            (set node.votes_granted from true) idle
            (length-set node.votes_granted from true ∙ r.sized) r

  pub handle_pre_vote_response-Does :
      (node : Node) (from : ℕ) (a : PreVoteResponse)
      → node.current_term + 1 < u64
      → IsReady node
      → Does node (handle_pre_vote_response node (pos from) a).1
  unfolding handle_pre_vote_response
  handle_pre_vote_response-Does node from a small r =
      if_case P (leb node.num_nodes from) _ _ (λ _. Effect-refl self n Backed r)
        (λ _.
          if_case P (is_pre_candidate node.role) _ _
            (λ c.
              pre_vote_response_from-Does node from a (is_pre_candidate_idle node.role c) small r)
            (λ _. Effect-refl self n Backed r))
    where
      P : Status × Node → Type 0
      P x = Does node x.1

  pub handle_timeout_now-Does :
      (node : Node) (q : TimeoutNow)
      → node.current_term + 1 < u64
      → IsReady node
      → Does node (handle_timeout_now node q).1
  unfolding handle_timeout_now
  handle_timeout_now-Does node q small r =
      if_case P node.running _ _
        (λ _.
          if_case P _ _ _ (λ _. start_election-Effect self n Backed node small r)
            (λ _. Effect-refl self n Backed r))
        (λ _. Effect-refl self n Backed r)
    where
      P : Status × Node → Type 0
      P x = Does node x.1
