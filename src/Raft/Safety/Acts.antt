-- ===== src/Raft/Safety/Acts.antt =====
-- `raft_receive_message`, the ticks and the calls of a client as moves of the ballot.
use first_principle_cs.Base.{
  ℕ, ◌+◌, ◌≤◌, ◌<◌, ◌≡◌, refl, sym, ◌∙◌, ℤ, pos, List, true, ltb, leb, ◌==◌, if_case, u64, add64,
  arith, Option, none, some, Ensures, ==_iff, length-set, set,
}
use first_principle_cs.Raft.Types.{Status, ok, Role, heartbeat_interval_ms}
use first_principle_cs.Raft.Message.{
  Message, request_vote, request_vote_response, pre_vote, pre_vote_response, AppendEntries,
  append_entries, append_entries_response, timeout_now, complete,
}
use first_principle_cs.Raft.Node.{Node, is_leader_role, reset_election_timer, start, cleared_votes}
use first_principle_cs.Raft.Election.{
  handle_append_entries, become_pre_candidate, start_pre_vote, sound_out, has_majority,
  send_heartbeats,
}
use first_principle_cs.Raft.Follow.{Answer}
use first_principle_cs.Raft.Receive.{
  reply_entries, receive_entries, receive_complete, receive_message, due_election, tick_election,
  due_heartbeat, tick_heartbeat, then_heartbeat, tick,
}
use first_principle_cs.Raft.Safety.Quiet.{view-send, view-broadcast, view-replicate_log}
use first_principle_cs.Raft.Safety.Effects.{
  Effect-then, Effect-refl, Effect-quiet, retire-Effect, start_election-Effect,
  length-cleared_votes,
}
use first_principle_cs.Raft.Safety.Handlers.{
  handle_request_vote-Does, handle_request_vote_response-Does, handle_pre_vote_response-Does,
  handle_timeout_now-Does,
}
use first_principle_cs.Raft.Safety.Deliver.{
  D, R, DoesAnswer, handle_pre_vote-D, handle_append_entries-D, handle_append_entries_with_log-D,
  handle_append_entries_response-D,
}

module _ (self n : ℕ) (Backed : ℕ → ℕ → Type 0) where
  abbrev Do : Node → Node → Type 0
  Do = D self n Backed

  abbrev Fit : Node → Type 0
  Fit = R self n Backed

  -- A message that is what its sender claims: a request for votes in the sender's own name, a vote
  -- that the sender has saved.
  abbrev pub Honest : ℕ → Message → Type 0
  Honest from (request_vote q) = q.candidate_id ≡ pos from
  Honest from (request_vote_response a) = a.vote_granted ≡ true → Backed a.term from
  Honest from (append_entries q bytes) = Unit {0}
  Honest from (append_entries_response a) = Unit {0}
  Honest from (pre_vote q) = Unit {0}
  Honest from (pre_vote_response a) = Unit {0}
  Honest from (timeout_now q) = Unit {0}

  abbrev DoesMaybe : Node → Option (Status × Node) → Type 0
  DoesMaybe node = Ensures λ x. Do node x.1

  reply_entries-DoesMaybe :
      (node : Node) (from : ℤ) (a : Answer)
      → DoesAnswer self n Backed node a
      → DoesMaybe node (reply_entries from a)
  reply_entries-DoesMaybe node from none d = tt
  reply_entries-DoesMaybe node from (some (s, node', a)) d =
      Effect-then self n Backed d
        (Effect-quiet self n Backed (view-send node' from _ ((λ to. refl), refl)) d.ready)

  receive_entries-DoesMaybe :
      (node : Node) (from : ℤ) (q : AppendEntries) (bytes : List ℕ)
      → Fit node
      → DoesMaybe node (receive_entries node from q bytes)
  unfolding receive_entries
  receive_entries-DoesMaybe node from q bytes r =
      if_case (DoesMaybe node) (ltb 0 q.entries_count) _ _
        (λ _.
          reply_entries-DoesMaybe node from _
            (handle_append_entries_with_log-D self n Backed node q bytes r))
        (λ _.
          reply_entries-DoesMaybe node from (some (handle_append_entries node q))
            (handle_append_entries-D self n Backed node q r))

  -- An honest message, delivered, moves the ballot.
  pub receive_message-DoesMaybe :
      (node : Node) (from : ℕ) (m : Message)
      → Honest from m
      → node.current_term + 1 < u64
      → Fit node
      → DoesMaybe node (receive_message node (pos from) (complete m))
  unfolding receive_message receive_complete
  receive_message-DoesMaybe node from (request_vote q) h small r =
      handle_request_vote-Does self n Backed node (pos from) q h (λ e. cc) r
  receive_message-DoesMaybe node from (request_vote_response a) h small r =
      handle_request_vote_response-Does self n Backed node from a h r
  receive_message-DoesMaybe node from (append_entries q bytes) h small r =
      receive_entries-DoesMaybe node (pos from) q bytes r
  receive_message-DoesMaybe node from (append_entries_response a) h small r =
      handle_append_entries_response-D self n Backed node from a r
  receive_message-DoesMaybe node from (pre_vote q) h small r =
      handle_pre_vote-D self n Backed node (pos from) q r
  receive_message-DoesMaybe node from (pre_vote_response a) h small r =
      handle_pre_vote_response-Does self n Backed node from a small r
  receive_message-DoesMaybe node from (timeout_now q) h small r =
      handle_timeout_now-Does self n Backed node q small r

  abbrev DoS : Node → Status × Node → Type 0
  DoS node x = Do node x.1

  tick_election-Do :
      (node : Node) (ms : ℕ)
      → node.current_term + 1 < u64
      → Fit node
      → DoS node (tick_election node ms)
  unfolding tick_election due_election
  tick_election-Do node ms small r =
      if_case (DoS node) node.running _ _
        (λ _.
          if_case (DoS node) (is_leader_role node.role) (ok, node) _
            (λ _. Effect-refl self n Backed r)
            (λ _.
              if_case (DoS node) (leb node.election_timeout_ms (add64 node.election_timer_ms ms)) _
                (ok, waited) (λ _. start_election-Effect self n Backed waited small r)
                (λ _. Effect-refl self n Backed r)))
        (λ _. Effect-refl self n Backed r)
    where
      waited : Node
      waited = record node { election_timer_ms = add64 node.election_timer_ms ms }

  pub tick_heartbeat-Do : (node : Node) (ms : ℕ) → Fit node → DoS node (tick_heartbeat node ms)
  unfolding tick_heartbeat due_heartbeat
  tick_heartbeat-Do node ms r =
      if_case (DoS node) node.running _ _
        (λ _.
          if_case (DoS node) (is_leader_role node.role) _ (ok, node)
            (λ _.
              if_case (DoS node) (leb heartbeat_interval_ms (add64 node.heartbeat_timer_ms ms)) _
                (ok, waited)
                (λ _.
                  Effect-quiet self n Backed
                    (view-replicate_log (record waited { heartbeat_timer_ms = 0 })) r)
                (λ _. Effect-refl self n Backed r))
            (λ _. Effect-refl self n Backed r))
        (λ _. Effect-refl self n Backed r)
    where
      waited : Node
      waited = record node { heartbeat_timer_ms = add64 node.heartbeat_timer_ms ms }

  then_heartbeat-Do :
      (node : Node) (s : Status) (node' : Node) (ms : ℕ)
      → Do node node'
      → DoS node (then_heartbeat (s, node') ms)
  then_heartbeat-Do node Status.ok node' ms d =
      Effect-then self n Backed d (tick_heartbeat-Do node' ms d.ready)
  then_heartbeat-Do node _ node' ms d = d

  pub tick-Do :
      (node : Node) (ms : ℕ) → node.current_term + 1 < u64 → Fit node → DoS node (tick node ms)
  unfolding tick
  tick-Do node ms small r =
      then_heartbeat-Do node (tick_election node ms).0 (tick_election node ms).1 ms
        (tick_election-Do node ms small r)

  become_pre_candidate-Do : (node : Node) → Fit node → Do node (become_pre_candidate node)
  unfolding become_pre_candidate reset_election_timer
  become_pre_candidate-Do node r =
      retire-Effect self n Backed node Role.pre_candidate 1
        (set (cleared_votes node) node.node_id true) refl
        (length-set (cleared_votes node) node.node_id true
          ∙ length-cleared_votes node (r.sized ∙ sym r.among)
          ∙ r.among)
        r

  sound_out-Do : (node : Node) → node.current_term + 1 < u64 → Fit node → DoS node (sound_out node)
  unfolding sound_out
  sound_out-Do node small r =
      if_case (DoS node) (has_majority node) _ _
        (λ _. start_election-Effect self n Backed node small r)
        (λ _. Effect-quiet self n Backed (view-broadcast node _ ((λ to. refl), refl)) r)

  pub start_pre_vote-Do :
      (node : Node) → node.current_term + 1 < u64 → Fit node → DoS node (start_pre_vote node)
  unfolding start_pre_vote
  start_pre_vote-Do node small r =
      if_case (DoS node) node.running _ _
        (λ _.
          let asking = become_pre_candidate-Do node r in
          Effect-then self n Backed asking
            (sound_out-Do (become_pre_candidate node) same_term asking.ready))
        (λ _. Effect-refl self n Backed r)
    where
      same_term : (become_pre_candidate node).current_term + 1 < u64
      same_term = unfold become_pre_candidate reset_election_timer in small

  -- In a cluster of two or more, starting a node makes no leader.
  pub start-Do : (node : Node) → 2 ≤ n → Fit node → DoS node (start node)
  unfolding start
  start-Do node many r =
      if_case (DoS node) node.running _ _ (λ _. Effect-refl self n Backed r)
        (λ _.
          if_case (DoS node) (node.num_nodes == 1) _ _
            (λ alone. absurd (omega (arith, (==_iff node.num_nodes 1).0 alone, r.among)))
            (λ _. Effect-refl self n Backed r))

  pub send_heartbeats-Do : (node : Node) → Fit node → DoS node (send_heartbeats node)
  unfolding send_heartbeats
  send_heartbeats-Do node r =
      if_case (DoS node) (is_leader_role node.role) _ _
        (λ _. Effect-quiet self n Backed (view-broadcast node _ ((λ to. refl), refl)) r)
        (λ _. Effect-refl self n Backed r)
