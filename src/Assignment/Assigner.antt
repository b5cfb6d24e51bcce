-- ===== src/Assignment/Assigner.antt =====
-- The reconcile of a pod group: pkg/pod-group-assigner/controllers/podgroup/assigner
-- (pod_group_assigner.go) and requested_nodepools_converter.go beside it. Logging is left out.
pub mod Stable
pub mod Sound
pub mod Run
use kai_resource_management.Prelude.{
  int_eq, ◌!=◌, if◌then◌else◌, any, lookup, invalid, Result, ok, err, String, Bool, true, false,
  not, Option, none, some, List, [], ◌∷◌,
}
use kai_resource_management.Prelude.Outcome.{◌>>=◌ as bind}
use kai_resource_management.Objects.{
  Labels, lift, Pod, TopologyConstraint, SchedulingCondition, PodGroup,
}
use kai_resource_management.Converter.{
  NodePoolIdentifiers, NodePoolsSources, get_requested_node_pools,
}
use kai_resource_management.Assignment.Common.{
  no_scheduling_backoff, get_scheduling_backoff_value, is_node_pool_available_for_scheduling,
}
use kai_resource_management.Assignment.Params.{
  NodePoolAssignmentParams, get_node_pool_assignment_params,
}
use kai_resource_management.Assignment.PodGroups.{
  AssignerConfig, get_node_pool_name_from_labels, get_last_scheduling_condition,
  is_eligible_for_assignment_by_pods, is_system_sourced, FullNodePoolAssignmentParams,
  mutate_pod_group_obj_for_assignment, previous_assignment, other_conditions, same_assignment,
}
use kai_resource_management.Assignment.Queues.{
  Cluster, is_external_namespace, get_project_name_of_namespace, get_queue_name_of_node_pool,
  desired_network_topology,
}
use kai_resource_management.Effects.{◌>>=◌, ◌>>◌, give}
use kai_resource_management.Assignment.Actions.{
  patch_status_request, patch_request, Action, send, memo, remember,
}

abbrev pub identifiers : AssignerConfig → NodePoolIdentifiers
identifiers cfg = record {
  node_pool_assignment_label_key = cfg.node_pool_label_key;
  default_nodepool_name = cfg.default_nodepool_name;
  unexisting_nodepool_sentinel = cfg.unexisting_nodepool_sentinel;
  annotation_nodepools_key = cfg.annotation_nodepools_key;
}

-- The sources that count for a pod group: its first pod's annotations and affinity.
abbrev pub pod_sources : Cluster → Pod → NodePoolsSources
pod_sources c pod = record {
  pod_annotations = pod.annotations;
  affinity_source = record {
    affinity = pod.affinity;
    reader_client = some c.list_node_pools;
    ignore_conversion_errors = false;
  };
  project = none;
}

unfoldable pub convert_requested_node_pools :
    AssignerConfig → Cluster → Labels → List Pod → Result (List String)
convert_requested_node_pools cfg c labels [] = err (invalid "didn't find any pods for pod group")
convert_requested_node_pools cfg c labels (pod ∷ pods) =
    get_requested_node_pools labels (identifiers cfg) (pod_sources c pod)

abbrev pub or_convert :
    AssignerConfig → Cluster → PodGroup → List Pod → Option (List String) → Action (List String)
or_convert cfg c pg pods (some names) = give (ok names)
or_convert cfg c pg pods none = do
  names ← give (convert_requested_node_pools cfg c pg.labels pods)
  remember pg.uid names
  give (ok names)

unfoldable pub get_requested_node_pools_for_pod_group :
    AssignerConfig → Cluster → PodGroup → List Pod → Action (List String)
get_requested_node_pools_for_pod_group cfg c pg pods = do
  found ← memo pg.uid
  or_convert cfg c pg pods found

-- A scheduling condition of another node pool than the current one: the current one's scheduler is
-- at work, unless the node pool takes no pods.
abbrev pub at_last_condition :
    AssignerConfig
    → Cluster
    → PodGroup
    → SchedulingCondition
    → Result (Bool × Option SchedulingCondition)
at_last_condition cfg c pg last =
    let current =
      get_node_pool_name_from_labels pg.labels cfg.node_pool_label_key cfg.default_nodepool_name in
    if last.node_pool != current
    then bind (is_node_pool_available_for_scheduling c.get_node_pool current)
        (λ (available, phase). ok (not available, some last))
    else ok (true, some last)

unfoldable pub is_eligible_for_node_pool_assignment :
    AssignerConfig → Cluster → PodGroup → Result (Bool × Option SchedulingCondition)
is_eligible_for_node_pool_assignment cfg c pg =
    if int_eq (get_scheduling_backoff_value pg.scheduling_backoff) no_scheduling_backoff
    then ok (false, none)
    else elim (get_last_scheduling_condition pg.scheduling_conditions) [
      | none ↦ ok (true, none)
      | some last ↦ at_last_condition cfg c pg last
    ]

unfoldable pub calculate_pod_group_queue_name_of_node_pool :
    AssignerConfig → Cluster → PodGroup → String → Result String
calculate_pod_group_queue_name_of_node_pool cfg c pg name =
    elim (lookup cfg.project_label_key pg.labels) [
      | some project ↦ get_queue_name_of_node_pool cfg c project name
      | none ↦
          bind (get_project_name_of_namespace cfg c pg.namespace)
            (λ project. get_queue_name_of_node_pool cfg c project name)
    ]

unfoldable pub remove_unschedulable_conditions : Cluster → PodGroup → Action PodGroup
remove_unschedulable_conditions c pg =
    let conditions = other_conditions pg.scheduling_conditions in
    send (patch_status_request pg conditions) (c.patch_status pg conditions)

abbrev pub assignment :
    NodePoolAssignmentParams → String → TopologyConstraint → Bool → FullNodePoolAssignmentParams
assignment params queue desired sourced = record {
  queue = queue;
  params = params;
  network_topology_constraint = desired;
  network_topology_system_sourced = sourced;
}

-- The update of an object that has no condition left to remove.
unfoldable pub patch_if_changed :
    AssignerConfig → Cluster → NodePoolAssignmentParams → String → PodGroup → Action PodGroup
patch_if_changed cfg c params queue pg = do
  (desired, sourced) ← give (
      desired_network_topology c pg.topology_constraint (is_system_sourced pg.annotations)
        params.node_pool_name)
  let next = assignment params queue desired sourced
  let patched = mutate_pod_group_obj_for_assignment cfg pg next
  let unchanged =
      same_assignment
        (previous_assignment cfg pg params.remove_unschedulable_on_node_pool_scheduling_condition)
        next
  (if unchanged then give (ok pg) else send (patch_request pg patched) (c.patch pg patched))

unfoldable pub update_pod_group_with_assignment :
    AssignerConfig → Cluster → PodGroup → NodePoolAssignmentParams → String → Action PodGroup
update_pod_group_with_assignment cfg c pg params queue = do
  current ←
      if params.remove_unschedulable_on_node_pool_scheduling_condition
      then remove_unschedulable_conditions c pg
      else give (ok pg)
  patch_if_changed cfg c params queue current

unfoldable pub assign_to_node_pool :
    AssignerConfig → Cluster → PodGroup → NodePoolAssignmentParams → Action PodGroup
assign_to_node_pool cfg c pg params = do
  queue ← give (calculate_pod_group_queue_name_of_node_pool cfg c pg params.node_pool_name)
  update_pod_group_with_assignment cfg c pg params queue

unfoldable pub handle_node_pool_assignment :
    AssignerConfig → Cluster → PodGroup → Option SchedulingCondition → List Pod → Action PodGroup
handle_node_pool_assignment cfg c pg last pods = do
  requested ← get_requested_node_pools_for_pod_group cfg c pg pods
  params ← give (
      get_node_pool_assignment_params c.get_node_pool pg.mark_unschedulable last
        (get_node_pool_name_from_labels pg.labels cfg.node_pool_label_key cfg.default_nodepool_name)
        requested)
  assign_to_node_pool cfg c pg params

abbrev pub some_pods : List Pod → Action (Unit {0})
some_pods [] = give (err (invalid "didn't find any pods for pod group"))
some_pods (pod ∷ pods) = give (ok tt)

abbrev pub handle_pods :
    AssignerConfig → Cluster → PodGroup → Option SchedulingCondition → Action PodGroup
handle_pods cfg c pg last = do
  pods ← give (lift (c.list_pods pg.namespace pg.name))
  some_pods pods
  (if not (is_eligible_for_assignment_by_pods pods)
      then give (ok pg)
      else handle_node_pool_assignment cfg c pg last pods)

-- `Run`: the pod group as it is left in memory.
unfoldable pub run : AssignerConfig → Cluster → PodGroup → Action PodGroup
run cfg c pg = do
  external ← give (is_external_namespace cfg c pg.namespace)
  if external then give (ok pg) else do
    (up, last) ← give (is_eligible_for_node_pool_assignment cfg c pg)
    if not up then give (ok pg) else handle_pods cfg c pg last
