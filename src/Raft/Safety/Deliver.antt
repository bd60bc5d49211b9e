-- ===== src/Raft/Safety/Deliver.antt =====
-- The handlers of pre-votes and of AppendEntries as moves of the ballot.
use first_principle_cs.Base.{
  ℕ, ◌≡◌, refl, ap, ◌∙◌, ℤ, pos, List, true, false, ◌&&◌, ◌||◌, ltb, leb, ◌==◌, if_case, ltb→lt,
  Option, none, some, Ensures, is_nonneg,
}
use first_principle_cs.Raft.Types.{Status, ok, Role}
use first_principle_cs.Raft.Log.{Log}
use first_principle_cs.Raft.Message.{
  PreVote, PreVoteResponse, pre_vote_response, AppendEntries, AppendEntriesResponse,
}
use first_principle_cs.Raft.Node.{Node, send, is_leader_role, reset_election_timer}
use first_principle_cs.Raft.Election.{
  catch_up, handle_pre_vote, is_candidate, is_pre_candidate, is_log_up_to_date, answer_heartbeat,
  handle_append_entries, yield_to_leader, follow_commit,
}
use first_principle_cs.Raft.Follow.{
  Answer, hear_leader, prev_matches, finish_entries, accept_entries, answer_entries,
  handle_append_entries_with_log, entries_response_from, handle_append_entries_response,
  record_match,
}
use first_principle_cs.Raft.Safety.Quiet.{
  view, view-send, view-advance_commit_index, view-record_match, view-back_up, view-commit_up_to,
}
use first_principle_cs.Raft.Safety.Effects.{
  Effect-then, Effect-refl, Effect-quiet, retire-Effect, step_down-Effect, catch_up-Effect,
}
use first_principle_cs.Raft.Safety.Handlers.{Does, IsReady}

handle_pre_vote-node : (node : Node) (q : PreVote) → (handle_pre_vote node q).1 ≡ node
unfolding handle_pre_vote
handle_pre_vote-node node q =
    if_case P (is_nonneg node.current_leader && ltb node.election_timer_ms node.election_timeout_ms)
      (ok, node, refusal) _ (λ _. refl)
      (λ _.
        if_case P (ltb q.term node.current_term) (ok, node, refusal) _ (λ _. refl)
          (λ _.
            if_case P (is_log_up_to_date node q.last_log_term q.last_log_index)
              (ok, node, record refusal { vote_granted = true }) (ok, node, refusal) (λ _. refl)
              (λ _. refl)))
  where
    P : Status × Node × PreVoteResponse → Type 0
    P x = x.1 ≡ node

    refusal : PreVoteResponse
    refusal = record { term = node.current_term; vote_granted = false }

module _ (self n : ℕ) (Backed : ℕ → ℕ → Type 0) where
  -- The moves of one node, by the short names of the section.
  abbrev pub D : Node → Node → Type 0
  D = Does self n Backed

  abbrev pub R : Node → Type 0
  R = IsReady self n Backed

  pub handle_pre_vote-D :
      (node : Node) (from : ℤ) (q : PreVote)
      → R node
      → let (s, node', a) = handle_pre_vote node q in D node (send node' from (pre_vote_response a))
  handle_pre_vote-D node from q r =
      Effect-quiet self n Backed
        (view-send (handle_pre_vote node q).1 from _ ((λ to. refl), refl)
          ∙ ap view (handle_pre_vote-node node q))
        r

  yield_to_leader-D : (node : Node) → R node → D node (yield_to_leader node)
  yield_to_leader-D node r =
      if_case (λ x. D node x) (is_candidate node.role || is_pre_candidate node.role) _ _
        (λ _. retire-Effect self n Backed node Role.follower 0 node.votes_granted refl r.sized r)
        (λ _. Effect-refl self n Backed r)

  view-follow_commit : (node : Node) (c : ℕ) → view (follow_commit node c) ≡ view node
  view-follow_commit node c =
      if_case (λ x. view x ≡ view node) (ltb node.commit_index c) _ _ (λ _. refl) (λ _. refl)

  answer_heartbeat-D :
      (node : Node) (q : AppendEntries) → R node → D node (answer_heartbeat node q).1
  unfolding answer_heartbeat reset_election_timer
  answer_heartbeat-D node q r =
      if_case P (ltb q.term node.current_term) _ _ (λ _. Effect-refl self n Backed r)
        (λ _.
          let heard = record (reset_election_timer node) { current_leader = q.leader_id } in
          let yielded = yield_to_leader-D heard r in
          if_case P (q.entries_count == 0) _ _
            (λ _. Effect-then self n Backed yielded (
              Effect-quiet self n Backed
                (view-follow_commit (yield_to_leader heard) q.leader_commit) yielded.ready))
            (λ _. yielded))
    where
      P : Status × Node × AppendEntriesResponse → Type 0
      P x = D node x.1

  pub handle_append_entries-D :
      (node : Node) (q : AppendEntries) → R node → D node (handle_append_entries node q).1
  unfolding handle_append_entries
  handle_append_entries-D node q r =
      let caught = catch_up-Effect self n Backed node q.term r in
      Effect-then self n Backed caught (answer_heartbeat-D (catch_up node q.term) q caught.ready)

  -- What the handler of entries does, if it stays within the log.
  abbrev pub DoesAnswer : Node → Answer → Type 0
  DoesAnswer node = Ensures λ x. D node x.1

  finish_entries-D :
      (node : Node) (q : AppendEntries) (log : Option Log)
      → R node
      → DoesAnswer node (finish_entries node q log)
  unfolding finish_entries
  finish_entries-D node q none r = tt
  finish_entries-D node q (some log) r =
      Effect-quiet self n Backed (view-commit_up_to (record node { log = log }) q) r

  accept_entries-D :
      (node : Node) (q : AppendEntries) (bytes : List ℕ)
      → R node
      → DoesAnswer node (accept_entries node q bytes)
  unfolding accept_entries
  accept_entries-D node q bytes r =
      if_case (DoesAnswer node) (prev_matches node q) _ _ (λ _. finish_entries-D node q _ r)
        (λ _. Effect-refl self n Backed r)

  hear_leader-D : (node : Node) (q : AppendEntries) → R node → D node (hear_leader node q)
  hear_leader-D node q r =
      if_case (λ x. D node x) (is_candidate node.role) _ _
        (λ _. retire-Effect self n Backed node Role.follower 0 node.votes_granted refl r.sized r)
        (λ _. Effect-refl self n Backed r)

  DoesAnswer-then : (a b : Node) (x : Answer) → D a b → DoesAnswer b x → DoesAnswer a x
  DoesAnswer-then a b none d e = tt
  DoesAnswer-then a b (some x) d e = Effect-then self n Backed d e

  pub handle_append_entries_with_log-D :
      (node : Node) (q : AppendEntries) (bytes : List ℕ)
      → R node
      → DoesAnswer node (handle_append_entries_with_log node q bytes)
  unfolding handle_append_entries_with_log answer_entries
  handle_append_entries_with_log-D node q bytes r =
      let caught = catch_up-Effect self n Backed node q.term r in
      let node' = catch_up node q.term in
      DoesAnswer-then node node' _ caught (
        if_case (DoesAnswer node') (ltb q.term node'.current_term) _ _
          (λ _. Effect-refl self n Backed caught.ready)
          (λ _.
            let heard = hear_leader-D node' q caught.ready in
            DoesAnswer-then node' (hear_leader node' q) _ heard
              (accept_entries-D (hear_leader node' q) q bytes heard.ready)))

  pub handle_append_entries_response-D :
      (node : Node) (from : ℕ) (a : AppendEntriesResponse)
      → R node
      → D node (handle_append_entries_response node (pos from) a).1
  unfolding handle_append_entries_response entries_response_from
  handle_append_entries_response-D node from a r =
      if_case P (leb node.num_nodes from) _ _ (λ _. Effect-refl self n Backed r)
        (λ _.
          if_case P (is_leader_role node.role) _ _
            (λ _.
              if_case (λ x. D node x) (ltb node.current_term a.term) _ _
                (λ later. step_down-Effect self n Backed node a.term (ltb→lt _ _ later) r)
                (λ _.
                  if_case (λ x. D node x) (ltb a.term node.current_term) _ _
                    (λ _. Effect-refl self n Backed r)
                    (λ _.
                      if_case (λ x. D node x) a.success _ _
                        (λ _.
                          Effect-quiet self n Backed
                            (view-advance_commit_index (record_match node from a.match_index)
                              ∙ view-record_match node from a.match_index)
                            r)
                        (λ _. Effect-quiet self n Backed (view-back_up node from) r))))
            (λ _. Effect-refl self n Backed r))
    where
      P : Status × Node → Type 0
      P x = D node x.1
