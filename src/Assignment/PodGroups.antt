-- ===== src/Assignment/PodGroups.antt =====
-- What the assigner reads off a pod group and its pods, and what it writes on it:
-- pkg/pod-group-assigner/controllers/common/common.go, and pod_group_assigner.go and
-- network_topology.go of controllers/podgroup/assigner. A pod group's labels are a map here, since
-- Run makes one where there is none.
use kai_resource_management.Prelude.{
  int_eq, ◌==◌, ◌!=◌, if◌then◌else◌, filter, lookup, insert, delete, get_or_empty, String, Bool,
  true, false, not, ◌&&◌, ◌||◌, Option, none, some, List, [], ◌∷◌,
}
use kai_resource_management.Objects.{
  Labels, PodPhase, pod_running, pod_succeeded, pod_failed, Pod, TopologyConstraint,
  SchedulingCondition, PodGroup,
}
use kai_resource_management.Assignment.Common.{
  get_mark_unschedulable_value, get_scheduling_backoff_value,
}
use kai_resource_management.Assignment.Params.{NodePoolAssignmentParams}

pub record AssignerConfig : Type 0 where
  pub node_pool_label_key : String
  pub queue_label_key : String
  pub namespace_project_label_key : String
  pub project_label_key : String
  pub unexisting_nodepool_sentinel : String
  pub default_nodepool_name : String
  pub annotation_nodepools_key : String
  pub allow_external_queues : Bool

unfoldable pub get_node_pool_name_from_labels : Labels → String → String → String
get_node_pool_name_from_labels labels key default = elim (lookup key labels) [
  | none ↦ default
  | some name ↦ if name == "" then default else name
]

unfoldable pub update_labels_with_node_pool_assignment : String → Labels → String → String → Labels
update_labels_with_node_pool_assignment default labels name key =
    if name == default then delete key labels else insert key name labels

unfoldable pub get_last_scheduling_condition : List SchedulingCondition → Option SchedulingCondition
get_last_scheduling_condition [] = none
get_last_scheduling_condition (c ∷ []) = some c
get_last_scheduling_condition (c ∷ d ∷ cs) = get_last_scheduling_condition (d ∷ cs)

abbrev pub is_bound_phase : PodPhase → Bool
is_bound_phase pod_running = true
is_bound_phase pod_succeeded = true
is_bound_phase pod_failed = true
is_bound_phase _ = false

abbrev pub is_pod_bound_to_node : Pod → Bool
is_pod_bound_to_node pod = pod.node_name != "" || is_bound_phase pod.phase

unfoldable pub is_eligible_for_assignment_by_pods : List Pod → Bool
is_eligible_for_assignment_by_pods [] = false
is_eligible_for_assignment_by_pods (pod ∷ pods) =
    not (is_pod_bound_to_node pod) || is_eligible_for_assignment_by_pods pods

abbrev pub topology_source_annotation_key : String
topology_source_annotation_key = "topology.kai/source"

abbrev pub topology_source_system : String
topology_source_system = "system"

abbrev pub is_topology_constraint_empty : TopologyConstraint → Bool
is_topology_constraint_empty t =
    t.topology == "" && t.preferred_topology_level == "" && t.required_topology_level == ""

abbrev pub empty_topology_constraint : TopologyConstraint
empty_topology_constraint = record {
  topology = "";
  preferred_topology_level = "";
  required_topology_level = "";
}

-- The annotation says that the assigner stamped the pod group's topology constraint.
abbrev pub is_system_sourced : Labels → Bool
is_system_sourced annotations =
    get_or_empty topology_source_annotation_key annotations == topology_source_system

unfoldable pub apply_topology_to_pod_group : PodGroup → TopologyConstraint → Bool → PodGroup
apply_topology_to_pod_group pg constraint system_sourced = record pg {
  topology_constraint = constraint;
  annotations =
      if system_sourced
      then insert topology_source_annotation_key topology_source_system pg.annotations
      else delete topology_source_annotation_key pg.annotations;
}

pub record FullNodePoolAssignmentParams : Type 0 where
  pub queue : String
  pub params : NodePoolAssignmentParams
  pub network_topology_constraint : TopologyConstraint
  pub network_topology_system_sourced : Bool

unfoldable pub mutate_pod_group_obj_for_assignment :
    AssignerConfig → PodGroup → FullNodePoolAssignmentParams → PodGroup
unfolding apply_topology_to_pod_group update_labels_with_node_pool_assignment
mutate_pod_group_obj_for_assignment cfg pg next =
    let labelled = record pg {
      mark_unschedulable = some next.params.mark_unschedulable;
      scheduling_backoff = some next.params.scheduling_backoff;
      queue = next.queue;
      labels =
          update_labels_with_node_pool_assignment cfg.default_nodepool_name
            (insert cfg.queue_label_key next.queue pg.labels) next.params.node_pool_name
            cfg.node_pool_label_key;
    } in
    apply_topology_to_pod_group labelled next.network_topology_constraint
      next.network_topology_system_sourced

-- The assignment that the pod group holds; the flag that asks to remove conditions is the next
-- assignment's.
unfoldable pub previous_assignment : AssignerConfig → PodGroup → Bool → FullNodePoolAssignmentParams
unfolding get_node_pool_name_from_labels
previous_assignment cfg pg remove = record {
  queue = pg.queue;
  params = record {
    node_pool_name =
        get_node_pool_name_from_labels pg.labels cfg.node_pool_label_key cfg.default_nodepool_name;
    mark_unschedulable = get_mark_unschedulable_value pg.mark_unschedulable;
    scheduling_backoff = get_scheduling_backoff_value pg.scheduling_backoff;
    remove_unschedulable_on_node_pool_scheduling_condition = remove;
  };
  network_topology_constraint = pg.topology_constraint;
  network_topology_system_sourced = is_system_sourced pg.annotations;
}

-- The conditions that stay when those of type UnschedulableOnNodePool go.
abbrev pub other_conditions : List SchedulingCondition → List SchedulingCondition
other_conditions cs = filter (λ c. not c.unschedulable_on_node_pool) cs

abbrev pub bool_eq : Bool → Bool → Bool
bool_eq true b = b
bool_eq false b = not b

abbrev pub same_topology : TopologyConstraint → TopologyConstraint → Bool
same_topology a b =
    a.topology == b.topology
    && a.preferred_topology_level == b.preferred_topology_level
    && a.required_topology_level == b.required_topology_level

-- reflect.DeepEqual on two assignments.
abbrev pub same_assignment : FullNodePoolAssignmentParams → FullNodePoolAssignmentParams → Bool
same_assignment a b =
    a.queue == b.queue
    && a.params.node_pool_name == b.params.node_pool_name
    && bool_eq a.params.mark_unschedulable b.params.mark_unschedulable
    && int_eq a.params.scheduling_backoff b.params.scheduling_backoff
    && bool_eq a.params.remove_unschedulable_on_node_pool_scheduling_condition
        b.params.remove_unschedulable_on_node_pool_scheduling_condition
    && same_topology a.network_topology_constraint b.network_topology_constraint
    && bool_eq a.network_topology_system_sourced b.network_topology_system_sourced
