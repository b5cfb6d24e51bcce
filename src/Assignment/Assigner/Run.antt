-- ===== src/Assignment/Assigner/Run.antt =====
-- A whole reconcile of a pod group: what it guarantees.
use kai_resource_management.Prelude.{
  invalid, Result, ok, err, OnOk-of, IsSafe, String, ◌≡◌, subst, ◌≢◌, not, Option, List, [], ◌∷◌,
  arith,
}
use kai_resource_management.Objects.{
  NodePool, Answer, reply, fail, lift, Pod, SchedulingCondition, PodGroup,
}
use kai_resource_management.Assignment.Common.{
  get_node_pool_phase, is_node_pool_available_for_scheduling,
}
use kai_resource_management.Assignment.Params.{
  NodePoolAssignmentParams, get_node_pool_assignment_params,
}
use kai_resource_management.Assignment.Params.Chosen.{Accepts, chosen_node_pool}
use kai_resource_management.Assignment.Params.Rotation.{params_IsSafe}
use kai_resource_management.Assignment.PodGroups.{
  AssignerConfig, get_node_pool_name_from_labels, is_eligible_for_assignment_by_pods,
}
use kai_resource_management.Assignment.Queues.{
  Cluster, is_external_namespace, get_project_name_of_namespace, get_existing_queue_by_labels,
  get_queue_name_of_node_pool,
}
use kai_resource_management.Effects.{◌>>=◌, give}
use kai_resource_management.Assignment.Actions.{State}
use kai_resource_management.Effects.Rules.{Ends, Runs, Runs->>=, Runs-give, Runs-if}
use kai_resource_management.Assignment.Assigner.{
  get_requested_node_pools_for_pod_group, is_eligible_for_node_pool_assignment,
  calculate_pod_group_queue_name_of_node_pool, update_pod_group_with_assignment,
  assign_to_node_pool, handle_node_pool_assignment, some_pods, handle_pods, run,
}
use kai_resource_management.Assignment.Assigner.Sound.{Inv, Fine, requested_lists, update-Fine}

module _ (cfg : AssignerConfig) (c : Cluster) where
  abbrev pub Anything : {A : Type 0} → A → Type 0
  Anything _ = Unit

  give_fine : {A : Type 0} (r : Result A) → IsSafe r → Runs (Inv cfg c) Anything (give r)
  give_fine r safe = Runs-give (Inv cfg c) Anything r safe (OnOk-of Anything r (λ _ _. tt))

  idle : (pg : PodGroup) → Runs (Inv cfg c) Anything (give (ok pg))
  idle pg = give_fine (ok pg) tt

  external-IsSafe : (namespace : String) → IsSafe (is_external_namespace cfg c namespace)
  unfolding is_external_namespace
  external-IsSafe namespace = ground arith

  available-IsSafe :
      (name : String) → IsSafe (is_node_pool_available_for_scheduling c.get_node_pool name)
  unfolding is_node_pool_available_for_scheduling get_node_pool_phase
  available-IsSafe name = ground arith

  eligible-IsSafe : (pg : PodGroup) → IsSafe (is_eligible_for_node_pool_assignment cfg c pg)
  unfolding is_eligible_for_node_pool_assignment
  eligible-IsSafe pg = grind (arith, available-IsSafe)

  queue_name-IsSafe :
      (project name : String) → IsSafe (get_queue_name_of_node_pool cfg c project name)
  unfolding get_queue_name_of_node_pool get_existing_queue_by_labels
  queue_name-IsSafe project name = ground arith

  project_name-IsSafe :
      (namespace : String) → IsSafe (get_project_name_of_namespace cfg c namespace)
  unfolding get_project_name_of_namespace
  project_name-IsSafe namespace = ground arith

  calculated-IsSafe :
      (pg : PodGroup) (name : String)
      → IsSafe (calculate_pod_group_queue_name_of_node_pool cfg c pg name)
  unfolding calculate_pod_group_queue_name_of_node_pool
  calculated-IsSafe pg name = grind (arith, project_name-IsSafe, queue_name-IsSafe)

  assign-Fine :
      (pg : PodGroup) (params : NodePoolAssignmentParams)
      → params.node_pool_name ≢ ""
      → Accepts c.get_node_pool params.node_pool_name
      → Fine cfg c (assign_to_node_pool cfg c pg params)
  unfolding assign_to_node_pool
  assign-Fine pg params named accepts =
      let queue = calculate_pod_group_queue_name_of_node_pool cfg c pg params.node_pool_name in
      Runs->>= (Inv cfg c) Anything Anything (give queue)
        (λ q. update_pod_group_with_assignment cfg c pg params q)
        (give_fine queue (calculated-IsSafe pg params.node_pool_name))
        (λ q _. update-Fine cfg c pg params q named accepts)

  lift-IsSafe : (answer : Answer (List Pod)) → IsSafe (lift answer)
  lift-IsSafe (reply pods) = tt
  lift-IsSafe (fail e) = tt

  some_pods_fine : (pods : List Pod) → Runs (Inv cfg c) Anything (some_pods pods)
  some_pods_fine [] =
      give_fine {A = Unit {0}} (err (invalid "didn't find any pods for pod group")) tt
  some_pods_fine (pod ∷ pods) = give_fine {A = Unit {0}} (ok tt) tt

  module _ (nameless : (np : NodePool) → c.get_node_pool "" ≢ reply np) where
    handle-Fine :
        (pg : PodGroup) (last : Option SchedulingCondition) (pods : List Pod)
        → Fine cfg c (handle_node_pool_assignment cfg c pg last pods)
    unfolding handle_node_pool_assignment
    handle-Fine pg last pods =
        let current =
          get_node_pool_name_from_labels pg.labels cfg.node_pool_label_key
            cfg.default_nodepool_name in
        let choose : List String → Result NodePoolAssignmentParams = λ names.
          (get_node_pool_assignment_params c.get_node_pool pg.mark_unschedulable last current
            names) in
        Runs->>= (Inv cfg c) (λ names. names ≢ []) Anything
          (get_requested_node_pools_for_pod_group cfg c pg pods)
          (λ names. give (choose names) >>= λ params. assign_to_node_pool cfg c pg params)
          (requested_lists cfg c pg pods)
          (λ names ne.
            Runs->>= (Inv cfg c) (λ p. choose names ≡ ok p) Anything (give (choose names))
              (λ params. assign_to_node_pool cfg c pg params)
              (Runs-give _ _ (choose names)
                (params_IsSafe c.get_node_pool pg.mark_unschedulable last current names ne)
                (OnOk-of _ (choose names) (λ p e. e)))
              (λ params e.
                let (member, accepts) =
                  chosen_node_pool c.get_node_pool pg.mark_unschedulable last current names params
                    e in
                let (np, replied, _, _, _) = accepts in
                assign-Fine pg params
                  (λ same. nameless np (subst (λ n. c.get_node_pool n ≡ reply np) same replied))
                  accepts))

    handle_pods-Fine :
        (pg : PodGroup) (last : Option SchedulingCondition) → Fine cfg c (handle_pods cfg c pg last)
    handle_pods-Fine pg last =
        let listed = lift (c.list_pods pg.namespace pg.name) in
        Runs->>= (Inv cfg c) Anything Anything (give listed) _
          (give_fine listed (lift-IsSafe (c.list_pods pg.namespace pg.name)))
          (λ pods _.
            Runs->>= (Inv cfg c) Anything Anything (some_pods pods) _ (some_pods_fine pods) (λ _ _.
              Runs-if (Inv cfg c) Anything (not (is_eligible_for_assignment_by_pods pods))
                (give (ok pg)) (handle_node_pool_assignment cfg c pg last pods) (λ _. idle pg)
                (λ _. handle-Fine pg last pods)))

    -- Run of a pod group, from a state whose memo holds no empty list and whose requests are
    -- allowed, when no node pool has the empty name: it does not panic, and it leaves such a state
    -- behind whether it fails or not. So each patch that it sends puts the pod group on a node pool
    -- that exists and is neither new, deleting nor unschedulable, and keeps a topology constraint that the
    -- user set; each status patch drops the conditions of type UnschedulableOnNodePool and no other.
    pub run_keeps :
        (pg : PodGroup) (s : State) → Inv cfg c s → Ends (Inv cfg c) Anything (run cfg c pg s)
    unfolding run
    run_keeps pg =
        let external = is_external_namespace cfg c pg.namespace in
        let eligible = is_eligible_for_node_pool_assignment cfg c pg in
        Runs->>= (Inv cfg c) Anything Anything (give external) _
          (give_fine external (external-IsSafe pg.namespace))
          (λ b _.
            Runs-if (Inv cfg c) Anything b (give (ok pg)) _ (λ _. idle pg)
              (λ _.
                Runs->>= (Inv cfg c) Anything Anything (give eligible) _
                  (give_fine eligible (eligible-IsSafe pg))
                  (λ (up, last) _.
                    Runs-if (Inv cfg c) Anything (not up) (give (ok pg)) (handle_pods cfg c pg last)
                      (λ _. idle pg) (λ _. handle_pods-Fine pg last))))
