-- ===== src/NodePools/Phases.antt =====
-- What the phase of a node pool tells of its nodes (getNodesSituation and
-- nodePoolPhaseForNodeSituation of nodepool_status_handler.go).
use kai_resource_management.Prelude.{
  Bool-cases, All, any, Err, Result, ok, err, panic, String, ◌≡◌, refl, sym, ◌∙◌, ◌≢◌, ◌↔◌, ◌⊎◌,
  inl, inr, Bool, true, false, not, List, [], ◌∷◌, arith,
}
use kai_resource_management.Objects.{NodePoolPhase, unschedulable, Answer, reply, fail}
use kai_resource_management.NodePools.{NodePoolsConfig, Node, NodePoolStatus, Pool, Patch, Cluster}
use kai_resource_management.NodePools.Calculation.{
  with_mismatch, node_pool_status_by_nodes, status_by_scheduler, calculate_node_pool_status,
}
use kai_resource_management.NodePools.Status.{
  is_node_ready, gather_nodes, nodes_situation, node_pool_phase_for_node_situation,
  is_nonempty_list,
}

gathered_ready :
    (nodes : List Node) → (gather_nodes nodes).at_least_one_node_ready ≡ any is_node_ready nodes
unfolding gather_nodes
gathered_ready [] = refl
gathered_ready (node ∷ nodes) = elim (Bool-cases (is_node_ready node)) [
  | inl e ↦ rw (e) refl
  | inr e ↦ rw (e) (gathered_ready nodes)
]

gathered_unschedulable :
    (nodes : List Node)
    → (gather_nodes nodes).at_least_one_node_unschedulable
      ≡ any (λ node. not (is_node_ready node)) nodes
unfolding gather_nodes
gathered_unschedulable [] = refl
gathered_unschedulable (node ∷ nodes) = elim (Bool-cases (is_node_ready node)) [
  | inl e ↦ rw (e) (gathered_unschedulable nodes)
  | inr e ↦ rw (e) refl
]

none_ready :
    (nodes : List Node)
    → any is_node_ready nodes ≡ false
    → All (λ node. is_node_ready node ≡ false) nodes
none_ready [] h = tt
none_ready (node ∷ nodes) h = (ground arith, none_ready nodes (ground arith))

any_ready :
    (nodes : List Node)
    → All (λ node. is_node_ready node ≡ false) nodes
    → any is_node_ready nodes ≡ false
any_ready [] h = refl
any_ready (node ∷ nodes) h = ground (arith, any_ready nodes)

abbrev pub phase_of_nodes : List Node → NodePoolPhase
phase_of_nodes nodes =
    let found = nodes_situation nodes in
    node_pool_phase_for_node_situation found.at_least_one_node_ready
      found.at_least_one_node_unschedulable (is_nonempty_list found.missing_nrt_items)

abbrev phase_of : (one_ready one_unschedulable missing : Bool) → NodePoolPhase
phase_of a b missing = node_pool_phase_for_node_situation a b missing

phase_iff :
    (a b missing : Bool) → (phase_of a b missing ≡ unschedulable) ↔ ((a ≡ false) × (b ≡ true))
unfolding node_pool_phase_for_node_situation
phase_iff true b true = ground arith
phase_iff true b false = ground arith
phase_iff false true true = ground arith
phase_iff false true false = ground arith
phase_iff false false true = ground arith
phase_iff false false false = ground arith

situation_iff :
    (nodes : List Node)
    → (phase_of_nodes nodes ≡ unschedulable)
      ↔ ((nodes ≢ []) × All (λ node. is_node_ready node ≡ false) nodes)
situation_iff nodes = (only nodes, whenever nodes)
  where
    phase_of_situation_iff :
        (nodes : List Node)
        → (phase_of_nodes nodes ≡ unschedulable) ↔ (
            ((gather_nodes nodes).at_least_one_node_ready ≡ false)
            × ((gather_nodes nodes).at_least_one_node_unschedulable ≡ true))
    phase_of_situation_iff nodes =
        phase_iff (gather_nodes nodes).at_least_one_node_ready
          (gather_nodes nodes).at_least_one_node_unschedulable
          (is_nonempty_list (nodes_situation nodes).missing_nrt_items)

    only :
        (nodes : List Node)
        → phase_of_nodes nodes ≡ unschedulable
        → (nodes ≢ []) × All (λ node. is_node_ready node ≡ false) nodes
    only [] h = absurd (
        let k = (phase_of_situation_iff []).0 h in
        let e = sym (gathered_unschedulable []) ∙ k.1 in cc)
    only (node ∷ nodes) h = (
      (λ e. absurd (cc)),
      none_ready (node ∷ nodes)
          (sym (gathered_ready (node ∷ nodes)) ∙ ((phase_of_situation_iff (node ∷ nodes)).0 h).0),
    )

    whenever :
        (nodes : List Node)
        → (nodes ≢ []) × All (λ node. is_node_ready node ≡ false) nodes
        → phase_of_nodes nodes ≡ unschedulable
    whenever [] h = absurd (h.0 refl)
    whenever (node ∷ nodes) h = (phase_of_situation_iff (node ∷ nodes)).1 (
      gathered_ready (node ∷ nodes) ∙ any_ready (node ∷ nodes) h.1,
      gathered_unschedulable (node ∷ nodes) ∙ (rw (h.1.0) refl),
    )

module _ (cfg : NodePoolsConfig) (cluster : Cluster) (sent : List Patch) where
  mismatch-phase :
      (status : NodePoolStatus) (mismatch : Result (List Node))
      → (with_mismatch cfg cluster sent status mismatch).0.phase ≡ status.phase
  mismatch-phase status (ok mismatch) = refl
  mismatch-phase status (err e) = refl
  mismatch-phase status panic = refl

  -- The scheduler of the node pool cannot be read, or it says that it is not ready.
  abbrev pub HasNoScheduler : Pool → Type 0
  HasNoScheduler pool =
      ((e : Err) × (cluster.scheduler_status sent pool ≡ fail e))
      ⊎ ((reasons : List String) × (cluster.scheduler_status sent pool ≡ reply (false, reasons)))

  -- The phase that is calculated for a node pool is Unschedulable exactly when its scheduler cannot be
  -- read or is not ready, or when it has nodes and none of them is ready.
  pub unschedulable_iff :
      (pool : Pool) (nodes : List Node)
      → ((calculate_node_pool_status cfg cluster sent pool nodes).0.phase ≡ unschedulable)
        ↔ (HasNoScheduler pool ⊎ ((nodes ≢ []) × All (λ node. is_node_ready node ≡ false) nodes))
  unfolding calculate_node_pool_status node_pool_status_by_nodes
  unschedulable_iff pool nodes = of_answer (cluster.scheduler_status sent pool) refl
    where
      of_answer :
          (answer : Answer (Bool × List String))
          → cluster.scheduler_status sent pool ≡ answer
          → ((status_by_scheduler cfg cluster sent pool nodes answer).0.phase ≡ unschedulable) ↔ (
              HasNoScheduler pool ⊎ ((nodes ≢ []) × All (λ node. is_node_ready node ≡ false) nodes))
      of_answer (fail e) read = ((λ _. inl (inl (e, read))), λ _. refl)
      of_answer (reply (false, reasons)) read = ((λ _. inl (inr (reasons, read))), λ _. refl)
      of_answer (reply (true, reasons)) read = (
        (λ h. inr ((situation_iff nodes).0 (sym (mismatch-phase _ _) ∙ h))),
        λ h. mismatch-phase _ _ ∙ (situation_iff nodes).1 (on_nodes h),
      )
        where
          on_nodes :
              HasNoScheduler pool ⊎ ((nodes ≢ []) × All (λ node. is_node_ready node ≡ false) nodes)
              → (nodes ≢ []) × All (λ node. is_node_ready node ≡ false) nodes
          on_nodes (inl (inl (e, failed))) = absurd (let k = sym read ∙ failed in cc)
          on_nodes (inl (inr (others, failed))) = absurd (let k = sym read ∙ failed in cc)
          on_nodes (inr h) = h
