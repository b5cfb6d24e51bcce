-- ===== src/Assignment/Assigner/Sound.antt =====
-- What a reconcile sends to the API server, and that it never panics.
use kai_resource_management.Prelude.{
  if◌then◌else◌, length, get_elem?-total, All, lookup, lookup-insert, ok, OnOk, OnOk-of, IsSafe,
  String, eq_iff, ◌≡◌, refl, sym, ap, subst, ◌≢◌, Bool, false, Option, none, some, List, [], ◌∷◌,
  arith,
}
use kai_resource_management.Prelude.Outcome.{◌>>=◌ as bind}
use kai_resource_management.Objects.{
  Labels, Topology, Answer, reply, fail, lift, Pod, TopologyConstraint, PodGroup,
}
use kai_resource_management.Converter.Precedence.{requested_ne_nil, requested-IsSafe}
use kai_resource_management.Assignment.Params.{NodePoolAssignmentParams}
use kai_resource_management.Assignment.Params.Chosen.{Accepts}
use kai_resource_management.Assignment.PodGroups.{
  AssignerConfig, get_node_pool_name_from_labels, is_topology_constraint_empty, is_system_sourced,
  FullNodePoolAssignmentParams, mutate_pod_group_obj_for_assignment, previous_assignment,
  other_conditions, same_assignment,
}
use kai_resource_management.Assignment.Queues.{
  Cluster, get_node_pool_preferred_network_topology_name, last_level,
  get_network_topology_lowest_level, desired_network_topology,
}
use kai_resource_management.Effects.{give}
use kai_resource_management.Assignment.Actions.{
  Request, patch_status_request, patch_request, State, Action, send, remember,
}
use kai_resource_management.Effects.Rules.{Runs, Runs->>=, Runs-give, Runs-if}
use kai_resource_management.Assignment.Assigner.{
  identifiers, pod_sources, convert_requested_node_pools, or_convert,
  get_requested_node_pools_for_pod_group, remove_unschedulable_conditions, assignment,
  patch_if_changed, update_pod_group_with_assignment,
}
use kai_resource_management.Assignment.Assigner.Stable.{reread_assignment}

-- No remembered list is empty.
abbrev pub RemembersSome : List (String × List String) → Type 0
RemembersSome lists =
    (uid : String) (names : List String) → lookup uid lists ≡ some names → names ≢ []

-- A topology constraint that the user set is not changed.
abbrev pub KeepsUserTopology : PodGroup → PodGroup → Type 0
KeepsUserTopology original patched =
    is_topology_constraint_empty original.topology_constraint ≡ false
    → is_system_sourced original.annotations ≡ false
    → patched.topology_constraint ≡ original.topology_constraint

abbrev pub IsAllowed : AssignerConfig → Cluster → Request → Type 0
IsAllowed cfg c (patch_status_request pg conditions) =
    conditions ≡ other_conditions pg.scheduling_conditions
IsAllowed cfg c (patch_request original patched) =
    Accepts c.get_node_pool (
      get_node_pool_name_from_labels patched.labels cfg.node_pool_label_key
        cfg.default_nodepool_name)
    × KeepsUserTopology original patched

pub record Inv (cfg : AssignerConfig) (c : Cluster) (s : State) : Type 0 where
  pub remembers : RemembersSome s.node_pool_lists
  pub allowed : All (IsAllowed cfg c) s.requests

module _ (cfg : AssignerConfig) (c : Cluster) where
  abbrev pub Fine : Action PodGroup → Type 0
  Fine m = Runs (Inv cfg c) (λ _. Unit) m

  abbrev pub Nothing : PodGroup → Type 0
  Nothing _ = Unit

  remember_keeps :
      (uid : String) (names : List String)
      → names ≢ []
      → Runs (Inv cfg c) (λ _. Unit) (remember uid names)
  remember_keeps uid names h s i = (
    record {
      remembers = λ other found e. ground (
        arith,
        lookup-insert uid other names s.node_pool_lists,
        i.remembers other found,
        eq_iff uid other,
      );
      allowed = i.allowed;
    },
    tt,
  )

  converted :
      (labels : Labels) (pods : List Pod)
      → IsSafe (convert_requested_node_pools cfg c labels pods)
        × OnOk (λ names. names ≢ []) (convert_requested_node_pools cfg c labels pods)
  unfolding convert_requested_node_pools
  converted labels [] = (tt, tt)
  converted labels (pod ∷ pods) = (
    requested-IsSafe labels (identifiers cfg) (pod_sources c pod),
    OnOk-of _ _ (requested_ne_nil labels (identifiers cfg) (pod_sources c pod)),
  )

  or_convert_lists :
      (pg : PodGroup) (pods : List Pod) (found : Option (List String))
      → ((names : List String) → found ≡ some names → names ≢ [])
      → Runs (Inv cfg c) (λ names. names ≢ []) (or_convert cfg c pg pods found)
  or_convert_lists pg pods (some names) h = Runs-give _ (λ ns. ns ≢ []) (ok names) tt (h names refl)
  or_convert_lists pg pods none h =
      let (safe, some_names) = converted pg.labels pods in
      Runs->>= _ (λ names. names ≢ []) (λ names. names ≢ [])
        (give (convert_requested_node_pools cfg c pg.labels pods))
        (λ names s. (ok names, (remember pg.uid names s).1)) (Runs-give _ _ _ safe some_names)
        (λ names ne s i. ((remember_keeps pg.uid names ne s i).0, ne))

  pub requested_lists :
      (pg : PodGroup) (pods : List Pod)
      → Runs
          (Inv cfg c)
          (λ names. names ≢ [])
          (get_requested_node_pools_for_pod_group cfg c pg pods)
  unfolding get_requested_node_pools_for_pod_group
  requested_lists pg pods s i =
      or_convert_lists pg pods (lookup pg.uid s.node_pool_lists) (i.remembers pg.uid) s i

  send-Fine :
      (request : Request) (answer : Answer PodGroup)
      → IsAllowed cfg c request
      → Fine (send request answer)
  send-Fine request (reply pg) h s i =
      (record { remembers = i.remembers; allowed = (h, i.allowed) }, tt)
  send-Fine request (fail e) h s i = record { remembers = i.remembers; allowed = (h, i.allowed) }

  patched_node_pool :
      (pg : PodGroup) (next : FullNodePoolAssignmentParams)
      → next.params.node_pool_name ≢ ""
      → get_node_pool_name_from_labels
          (mutate_pod_group_obj_for_assignment cfg pg next).labels
          cfg.node_pool_label_key
          cfg.default_nodepool_name
        ≡ next.params.node_pool_name
  unfolding previous_assignment
  patched_node_pool pg next named =
      ap (λ a. a.params.node_pool_name) (reread_assignment cfg pg next named)

  patched_topology :
      (pg : PodGroup) (next : FullNodePoolAssignmentParams)
      → desired_network_topology c pg.topology_constraint
          (is_system_sourced pg.annotations)
          next.params.node_pool_name
        ≡ ok (next.network_topology_constraint, next.network_topology_system_sourced)
      → KeepsUserTopology pg (mutate_pod_group_obj_for_assignment cfg pg next)
  unfolding mutate_pod_group_obj_for_assignment desired_network_topology
  patched_topology pg next e full mine = ground arith

  preferred-IsSafe : (name : String) → IsSafe (get_node_pool_preferred_network_topology_name c name)
  unfolding get_node_pool_preferred_network_topology_name
  preferred-IsSafe name = ground arith

  lowest-IsSafe : (name : String) → IsSafe (get_network_topology_lowest_level c name)
  unfolding get_network_topology_lowest_level
  lowest-IsSafe name = of_answer (c.get_topology name)
    where
      of_levels : (levels : List String) → IsSafe (last_level levels)
      of_levels [] = tt
      of_levels (level ∷ levels) =
          let (a, e) = get_elem?-total (level ∷ levels) (length levels) (omega arith) in
          ground arith

      of_answer :
          (answer : Answer Topology) → IsSafe (bind (lift answer) (λ t. last_level t.levels))
      of_answer (reply t) = of_levels t.levels
      of_answer (fail e) = tt

  desired-IsSafe :
      (previous : TopologyConstraint) (sourced : Bool) (name : String)
      → IsSafe (desired_network_topology c previous sourced name)
  unfolding desired_network_topology
  desired-IsSafe previous sourced name = grind (arith, preferred-IsSafe, lowest-IsSafe)

  patch_if_changed-Fine :
      (params : NodePoolAssignmentParams) (queue : String) (pg : PodGroup)
      → params.node_pool_name ≢ ""
      → Accepts c.get_node_pool params.node_pool_name
      → Fine (patch_if_changed cfg c params queue pg)
  unfolding patch_if_changed
  patch_if_changed-Fine params queue pg named accepts =
      let topology =
        desired_network_topology c pg.topology_constraint (is_system_sourced pg.annotations)
          params.node_pool_name in
      let remove = params.remove_unschedulable_on_node_pool_scheduling_condition in
      Runs->>= (Inv cfg c) (λ d. topology ≡ ok d) Nothing (give topology) _
        (Runs-give _ _ topology (desired-IsSafe _ _ _) (OnOk-of _ topology (λ d e. e)))
        (λ (t, sourced) e.
          let next = assignment params queue t sourced in
          let patched = mutate_pod_group_obj_for_assignment cfg pg next in
          Runs-if (Inv cfg c) Nothing (same_assignment (previous_assignment cfg pg remove) next)
            (give (ok pg)) (send (patch_request pg patched) (c.patch pg patched))
            (λ _. Runs-give (Inv cfg c) Nothing (ok pg) tt tt)
            (λ _. send-Fine (patch_request pg patched) (c.patch pg patched) (
              subst (Accepts c.get_node_pool) (sym (patched_node_pool pg next named)) accepts,
              patched_topology pg next e,
            )))

  pub update-Fine :
      (pg : PodGroup) (params : NodePoolAssignmentParams) (queue : String)
      → params.node_pool_name ≢ ""
      → Accepts c.get_node_pool params.node_pool_name
      → Fine (update_pod_group_with_assignment cfg c pg params queue)
  unfolding update_pod_group_with_assignment remove_unschedulable_conditions
  update-Fine pg params queue named accepts =
      let others = other_conditions pg.scheduling_conditions in
      Runs->>= (Inv cfg c) Nothing Nothing
        (if params.remove_unschedulable_on_node_pool_scheduling_condition
          then send (patch_status_request pg others) (c.patch_status pg others)
          else give (ok pg))
        _
        (Runs-if (Inv cfg c) Nothing params.remove_unschedulable_on_node_pool_scheduling_condition
          (send (patch_status_request pg others) (c.patch_status pg others)) (give (ok pg))
          (λ _. send-Fine (patch_status_request pg others) (c.patch_status pg others) refl)
          (λ _. Runs-give (Inv cfg c) Nothing (ok pg) tt tt))
        (λ current _. patch_if_changed-Fine params queue current named accepts)
