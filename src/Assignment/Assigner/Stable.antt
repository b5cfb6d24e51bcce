-- ===== src/Assignment/Assigner/Stable.antt =====
-- What the assigner writes on a pod group is what it reads back: a second update changes nothing.
use kai_resource_management.Prelude.{
  if◌then◌else◌, insert, delete, lookup-insert, lookup-delete, lookup-insert_self,
  lookup-delete_self, ok, String, eq_iff, eq_refl, ◌≡◌, ◌≢◌, Bool, true, false, arith,
}
use kai_resource_management.Objects.{Labels, TopologyConstraint, PodGroup}
use kai_resource_management.Assignment.Params.{NodePoolAssignmentParams}
use kai_resource_management.Assignment.PodGroups.{
  AssignerConfig, get_node_pool_name_from_labels, update_labels_with_node_pool_assignment,
  topology_source_annotation_key, topology_source_system, is_system_sourced,
  FullNodePoolAssignmentParams, mutate_pod_group_obj_for_assignment, previous_assignment,
  same_assignment,
}
use kai_resource_management.Assignment.Queues.{Cluster, desired_network_topology}
use kai_resource_management.Assignment.Actions.{State}
use kai_resource_management.Assignment.Assigner.{assignment, patch_if_changed}

reread_node_pool :
    (cfg : AssignerConfig) (labels : Labels) (queue name : String)
    → name ≢ ""
    → get_node_pool_name_from_labels
        (update_labels_with_node_pool_assignment cfg.default_nodepool_name
          (insert cfg.queue_label_key queue labels)
          name
          cfg.node_pool_label_key)
        cfg.node_pool_label_key
        cfg.default_nodepool_name
      ≡ name
unfolding get_node_pool_name_from_labels update_labels_with_node_pool_assignment
reread_node_pool cfg labels queue name h =
    let key = cfg.node_pool_label_key in
    let queued = insert cfg.queue_label_key queue labels in
    ground (
      arith,
      lookup-insert key key name queued,
      lookup-delete key key queued,
      eq_refl key,
      eq_iff name "",
      eq_iff name cfg.default_nodepool_name,
    )

reread_source :
    (annotations : Labels) (sourced : Bool)
    → is_system_sourced (
        if sourced
        then insert topology_source_annotation_key topology_source_system annotations
        else delete topology_source_annotation_key annotations)
      ≡ sourced
reread_source annotations true = rw lookup-insert_self
reread_source annotations false = rw lookup-delete_self

-- The assignment that is read off a pod group right after an assignment was written on it is that
-- assignment, for a node pool with a name.
pub reread_assignment :
    (cfg : AssignerConfig) (pg : PodGroup) (next : FullNodePoolAssignmentParams)
    → next.params.node_pool_name ≢ ""
    → previous_assignment cfg
        (mutate_pod_group_obj_for_assignment cfg pg next)
        next.params.remove_unschedulable_on_node_pool_scheduling_condition
      ≡ next
unfolding mutate_pod_group_obj_for_assignment previous_assignment
reread_assignment cfg pg next h = ground (
  arith,
  reread_node_pool cfg pg.labels next.queue next.params.node_pool_name h,
  reread_source pg.annotations next.network_topology_system_sourced,
)

desired_stable :
    (c : Cluster) (before t : TopologyConstraint) (was sourced : Bool) (name : String)
    → desired_network_topology c before was name ≡ ok (t, sourced)
    → desired_network_topology c t sourced name ≡ ok (t, sourced)
unfolding desired_network_topology
desired_stable c before t was sourced name h = ground arith

desired_of_patched :
    (cfg : AssignerConfig) (c : Cluster) (next : FullNodePoolAssignmentParams) (pg : PodGroup)
    → (let t = next.network_topology_constraint in
        let sourced = next.network_topology_system_sourced in
        let patched = mutate_pod_group_obj_for_assignment cfg pg next in
        desired_network_topology c pg.topology_constraint
            (is_system_sourced pg.annotations)
            next.params.node_pool_name
          ≡ ok (t, sourced)
        → desired_network_topology c patched.topology_constraint
            (is_system_sourced patched.annotations)
            next.params.node_pool_name
          ≡ ok (t, sourced))
unfolding mutate_pod_group_obj_for_assignment
desired_of_patched cfg c next pg h =
    rw (reread_source pg.annotations next.network_topology_system_sourced)
      (desired_stable c _ _ _ _ _ h)

same_assignment_self : (a : FullNodePoolAssignmentParams) → same_assignment a a ≡ true
same_assignment_self a = ground (
  arith,
  eq_refl a.queue,
  eq_refl a.params.node_pool_name,
  eq_refl a.network_topology_constraint.topology,
  eq_refl a.network_topology_constraint.preferred_topology_level,
  eq_refl a.network_topology_constraint.required_topology_level,
)

-- A pod group that carries an assignment, with the network topology that its node pool gives, is
-- left alone by a further update with that assignment: no patch is sent, and it stays as it is.
pub patch_if_changed_again :
    (cfg : AssignerConfig) (c : Cluster) (params : NodePoolAssignmentParams) (queue : String)
    (pg : PodGroup) (t : TopologyConstraint) (sourced : Bool) (s : State)
    → params.node_pool_name ≢ ""
    → desired_network_topology c pg.topology_constraint
        (is_system_sourced pg.annotations)
        params.node_pool_name
      ≡ ok (t, sourced)
    → let patched =
        mutate_pod_group_obj_for_assignment cfg pg (assignment params queue t sourced) in
      patch_if_changed cfg c params queue patched s ≡ (ok patched, s)
unfolding patch_if_changed
patch_if_changed_again cfg c params queue pg t sourced s named h =
    let next = assignment params queue t sourced in
    rw (
      desired_of_patched cfg c next pg h,
      reread_assignment cfg pg next named,
      same_assignment_self next,
    )
