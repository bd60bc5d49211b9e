-- ===== src/Raft/Membership/Pending.antt =====
-- One change of the membership at a time.
use first_principle_cs.Base.{
  ◌≡◌, ◌≢◌, refl, ap, ◌∙◌, ℤ, is_nonneg, List, [], ◌∷◌, Option, none, some, true, ltb, if_case,
}
use first_principle_cs.Raft.Types.{Status, ok}
use first_principle_cs.Raft.Node.{Node, is_leader_role}
use first_principle_cs.Raft.Membership.{
  ClusterConfig, initialized, ensure_config_initialized, config_nodes, has_id, add_member, add_node,
  remove_member, remove_node,
}

abbrev Outcome : Type 0
Outcome = Status × Node × ClusterConfig

-- A request for a change of the membership, and the node of the process that it is asked of.
pub data Request : Type 0 where
  adds removes : (node : Node) (id : ℤ) → Request

abbrev pub asked_of : Request → Node
asked_of (adds node id) = node
asked_of (removes node id) = node

abbrev pub answer : Request → ClusterConfig → Outcome
answer (adds node id) config = add_node node config id
answer (removes node id) config = remove_node node config id

-- The configuration after requests, one after the other.
abbrev pub after : List Request → ClusterConfig → ClusterConfig
after [] config = config
after (request ∷ requests) config = after requests (answer request config).2

-- The same change is pending.
abbrev pub SamePending : ClusterConfig → ClusterConfig → Type 0
SamePending old new = (new.pending_node ≡ old.pending_node) × (new.pending_add ≡ old.pending_add)

-- The request is refused: the node is as it was, and the same change is pending.
abbrev Refused : Node → ClusterConfig → Outcome → Type 0
Refused node old (s, next, config) = (s ≢ ok) × (next ≡ node) × SamePending old config

SamePending-initialized :
    (node : Node) (config : ClusterConfig) (ids : Option (List ℤ))
    → SamePending config (initialized node config ids)
SamePending-initialized node config none =
    if_case (SamePending config) (ltb 0 node.num_nodes) _ _ (λ _. (refl, refl)) (λ _. (refl, refl))
SamePending-initialized node config (some ids) = (refl, refl)

SamePending-ensure_config_initialized :
    (node : Node) (config : ClusterConfig)
    → SamePending config (ensure_config_initialized node config)
unfolding ensure_config_initialized
SamePending-ensure_config_initialized node config = SamePending-initialized node config config.nodes

add_node-Refused :
    (node : Node) (config : ClusterConfig) (id : ℤ)
    → is_nonneg config.pending_node ≡ true
    → Refused node config (add_node node config id)
unfolding add_node add_member
add_node-Refused node config id busy =
    if_case P (is_leader_role node.role) _ _
      (λ _.
        if_case P (has_id (config_nodes known) id) _ _ (λ _. (λ h. cc, refl, same))
          (λ _.
            if_case P (is_nonneg known.pending_node) _ _ (λ _. (λ h. cc, refl, same))
              (λ free. absurd (cc (free, ap is_nonneg same.0, busy)))))
      (λ _. (λ h. cc, refl, (refl, refl)))
  where
    P : Outcome → Type 0
    P = Refused node config

    known : ClusterConfig
    known = ensure_config_initialized node config

    same : SamePending config known
    same = SamePending-ensure_config_initialized node config

remove_node-Refused :
    (node : Node) (config : ClusterConfig) (id : ℤ)
    → is_nonneg config.pending_node ≡ true
    → Refused node config (remove_node node config id)
unfolding remove_node remove_member
remove_node-Refused node config id busy =
    if_case P (is_leader_role node.role) _ _
      (λ _.
        if_case P (has_id (config_nodes known) id) _ _
          (λ _.
            if_case P (is_nonneg known.pending_node) _ _ (λ _. (λ h. cc, refl, same))
              (λ free. absurd (cc (free, ap is_nonneg same.0, busy))))
          (λ _. (λ h. cc, refl, same)))
      (λ _. (λ h. cc, refl, (refl, refl)))
  where
    P : Outcome → Type 0
    P = Refused node config

    known : ClusterConfig
    known = ensure_config_initialized node config

    same : SamePending config known
    same = SamePending-ensure_config_initialized node config

answer-Refused :
    (request : Request) (config : ClusterConfig)
    → is_nonneg config.pending_node ≡ true
    → Refused (asked_of request) config (answer request config)
answer-Refused (adds node id) config busy = add_node-Refused node config id busy
answer-Refused (removes node id) config busy = remove_node-Refused node config id busy

after-SamePending :
    (requests : List Request) (config : ClusterConfig)
    → is_nonneg config.pending_node ≡ true
    → SamePending config (after requests config)
after-SamePending [] config busy = (refl, refl)
after-SamePending (request ∷ requests) config busy =
    let (refused, kept, (id, add)) = answer-Refused request config busy in
    let (id', add') =
      after-SamePending requests (answer request config).2 (ap is_nonneg id ∙ busy) in
    (id' ∙ id, add' ∙ add)

add_node_pending :
    (node : Node) (config : ClusterConfig) (id : ℤ)
    → (add_node node config id).0 ≡ ok
    → ((add_node node config id).2.pending_node ≡ id)
      × ((add_node node config id).2.pending_add ≡ true)
unfolding add_node add_member
add_node_pending node config id =
    if_case P (is_leader_role node.role) _ _
      (λ _.
        if_case P (has_id (config_nodes known) id) _ _ (λ _. λ h. cc)
          (λ _.
            if_case P (is_nonneg known.pending_node) _ _ (λ _. λ h. cc) (λ _. λ h. (refl, refl))))
      (λ _. λ h. cc)
  where
    P : Outcome → Type 0
    P r = r.0 ≡ ok → (r.2.pending_node ≡ id) × (r.2.pending_add ≡ true)

    known : ClusterConfig
    known = ensure_config_initialized node config

-- Once a node with a number that is not negative is being added, and whatever changes have been asked
-- for since, of whichever nodes of the process: the next one is refused as well, the node that it is
-- asked of is left as it was, and the first addition is still what is pending.
pub add_node_exclusive :
    (node : Node) (config : ClusterConfig) (id : ℤ) (requests : List Request) (next : Request)
    → is_nonneg id ≡ true
    → (add_node node config id).0 ≡ ok
    → let (s, node', config') = answer next (after requests (add_node node config id).2) in
      (s ≢ ok)
      × (node' ≡ asked_of next)
      × (config'.pending_node ≡ id)
      × (config'.pending_add ≡ true)
add_node_exclusive node config id requests next h good =
    let (adding, is_add) = add_node_pending node config id good in
    let busy = ap is_nonneg adding ∙ h in
    let (same, same_add) = after-SamePending requests (add_node node config id).2 busy in
    let (refused, kept, (here, here_add)) = answer-Refused next _ (ap is_nonneg same ∙ busy) in
    (refused, kept, here ∙ same ∙ adding, here_add ∙ same_add ∙ is_add)
