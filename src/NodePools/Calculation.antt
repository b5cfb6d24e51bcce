-- ===== src/NodePools/Calculation.antt =====
-- How the status of a node pool is calculated: nodepool_status_handler.go, scheduler_handler.go and
-- project_reference_handler.go. Nothing is sent here, so the functions read the API server alone.
use Prim.Native.String
use kai_resource_management.Prelude.{
  ltb, ◌==◌, ◌!=◌, if◌then◌else◌, length, any, filter, contains, Err, Result, ok, err, panic, ◌>>=◌,
  ℕ, zero, suc, ◌-◌, String, Bool, not, ◌&&◌, ◌||◌, Option, none, some, List, [], ◌∷◌, ◌++◌, map,
}
use kai_resource_management.Objects.{
  empty, unschedulable, deleting, Project, Topology, Requirement, equals, Answer, reply, fail, lift,
}
use kai_resource_management.NodePools.{
  NodePoolsConfig, Node, NodeInNodePool, NodePoolCondition, NodePoolStatus, Pool, Patch, Cluster,
  has_label,
}
use kai_resource_management.NodePools.Pods.{not_node_pool_label_selector}
use kai_resource_management.NodePools.Drain.{marked_unschedulable}
use kai_resource_management.NodePools.Texts.{sorted, join, difference}
use kai_resource_management.NodePools.Status.{
  is_node_ready, Situation, nodes_situation, node_pool_phase_for_node_situation, is_nonempty_list,
  join_node_pool_status_messages, nrt_node_pool_prereq_message, get_node_pool_deleting_message,
}
use kai_resource_management.NodePools.Reconcile.{check_requirements, listed}

abbrev pub missing_node_labels : Node → (levels : List String) → List String
missing_node_labels node levels = filter (λ level. not (has_label level node.labels)) levels

abbrev pub has_mismatch : Node → Topology → Bool
has_mismatch node topology = is_nonempty_list (missing_node_labels node topology.levels)

abbrev pub mismatched : List Node → Option Topology → List Node
mismatched nodes none = []
mismatched nodes (some topology) = filter (λ node. has_mismatch node topology) nodes

abbrev pub name_of : Node → String
name_of node = node.name

abbrev pub scheduler_not_ready : String
scheduler_not_ready = "Scheduler is not ready"

abbrev pub with_reason : String → String
with_reason reason = String.◌++◌ scheduler_not_ready (String.◌++◌ ", reason: " reason)

abbrev pub nodes_message : (template : String) → List String → String
nodes_message template nodes = String.◌++◌ template (join ", " nodes)

abbrev pub phase_message_part : (template : String) → List String → List String
phase_message_part template [] = []
phase_message_part template (node ∷ nodes) = nodes_message template (node ∷ nodes) ∷ []

module _ (cfg : NodePoolsConfig) (cluster : Cluster) (sent : List Patch) where
  abbrev pub get_topology_by_name : String → Result (Option Topology)
  get_topology_by_name name =
      if name == ""
      then ok none
      else lift (cluster.get_topology sent name) >>= λ topology. ok (some topology)

  unfoldable pub get_topology_mismatch_nodes : Pool → List Node → Result (List Node)
  get_topology_mismatch_nodes pool nodes =
      get_topology_by_name pool.preferred_network_topology_name >>= λ topology.
      ok (mismatched nodes topology)

  abbrev pub mismatch_condition : NodePoolCondition
  mismatch_condition = record {
    condition_type = cfg.node_topology_mismatch;
    status = "";
    reason = cfg.node_topology_mismatch_reason;
    message = "";
    last_transition_time = 0;
  }

  abbrev with_topology : List String → NodeInNodePool → NodeInNodePool
  with_topology mismatch node = record node { topology_mismatch = contains mismatch node.name }

  abbrev pub update_nodes_topology_mismatch : List Node → List NodeInNodePool → List NodeInNodePool
  update_nodes_topology_mismatch mismatch nodes = map (with_topology (map name_of mismatch)) nodes

  -- The nodes that match the node pool's label and wait to be drained.
  abbrev pub waiting_requirements : Pool → List Requirement
  waiting_requirements pool =
      not_node_pool_label_selector cfg pool.name
      ∷ equals cfg.unschedulable_label_key marked_unschedulable
      ∷ (if pool.label_key != "" && pool.label_value != ""
          then equals pool.label_key pool.label_value ∷ []
          else [])

  abbrev pub nodes_assigned_waiting_for_drain : Pool → Result (List String)
  nodes_assigned_waiting_for_drain pool =
      listed cfg cluster (check_requirements cfg cluster (waiting_requirements pool))
        (cluster.list_nodes sent (waiting_requirements pool))
      >>= λ nodes. ok (map name_of (filter (λ node. node.unschedulable) nodes))

  abbrev pub is_unschedulable_by_us : Node → Bool
  is_unschedulable_by_us node =
      has_label cfg.unschedulable_label_key node.labels && node.unschedulable

  abbrev pub full_status_message_of : List Node → Result (List String) → String
  full_status_message_of nodes (ok waiting) =
      let by_us = filter is_unschedulable_by_us nodes in
      let not_ready =
        filter (λ node. not (is_unschedulable_by_us node) && not (is_node_ready node)) nodes in
      join "\n\n" (
        phase_message_part
          "The following node(s) are assigned to this node pool and will be added once they finish draining: "
          (sorted (difference waiting (map name_of nodes)))
        ++ phase_message_part
            "The following node(s) within the node pool aren't ready because they are assigned to a different node pool but haven't been drained yet: "
            (sorted (map name_of by_us))
        ++ phase_message_part "The following node(s) within the node pool aren't ready: "
            (sorted (map name_of not_ready)))
  full_status_message_of nodes _ = ""

  abbrev pub full_status_message : Pool → List Node → String
  full_status_message pool nodes =
      full_status_message_of nodes (nodes_assigned_waiting_for_drain pool)

  abbrev pub nrt_node_pool_condition : List String → NodePoolCondition
  nrt_node_pool_condition items = record {
    condition_type = cfg.nodepool_missing_nrt;
    status = "";
    reason = cfg.nodepool_missing_nrt_reason;
    message = nrt_node_pool_prereq_message items;
    last_transition_time = 0;
  }

  -- Phase, message, conditions and nodes before the topology is compared.
  abbrev pub status_of_situation : Pool → List Node → Situation → NodePoolStatus
  status_of_situation pool nodes found = record {
    phase =
        node_pool_phase_for_node_situation found.at_least_one_node_ready
          found.at_least_one_node_unschedulable (is_nonempty_list found.missing_nrt_items);
    message = join_node_pool_status_messages (
        full_status_message pool nodes ∷ nrt_node_pool_prereq_message found.missing_nrt_items ∷ []);
    nodes = found.nodes_in_node_pool;
    conditions =
        cluster.set_condition (nrt_node_pool_condition found.missing_nrt_items)
          (is_nonempty_list found.missing_nrt_items) pool.status.conditions;
  }

  abbrev pub with_mismatch : NodePoolStatus → Result (List Node) → NodePoolStatus × List Err
  with_mismatch status (ok mismatch) = (
    record status {
      nodes = update_nodes_topology_mismatch mismatch status.nodes;
      conditions =
          cluster.set_condition mismatch_condition (is_nonempty_list mismatch) status.conditions;
    },
    [],
  )
  with_mismatch status (err e) = (status, e ∷ [])
  with_mismatch status panic = (status, [])

  unfoldable pub node_pool_status_by_nodes : Pool → List Node → NodePoolStatus × List Err
  node_pool_status_by_nodes pool nodes =
      with_mismatch (status_of_situation pool nodes (nodes_situation nodes))
        (get_topology_mismatch_nodes pool nodes)

  -- `getNodesStatusForNodePool`: the nodes alone.
  abbrev pub with_nodes : List Node → NodePoolStatus → NodePoolStatus
  with_nodes nodes status = record status { nodes = (nodes_situation nodes).nodes_in_node_pool }

  abbrev pub not_ready_status : Pool → String → NodePoolStatus
  not_ready_status pool message = record pool.status { phase = unschedulable; message = message }

  abbrev pub unresolvable_message : Option String → String
  unresolvable_message none = scheduler_not_ready
  unresolvable_message (some reason) = with_reason reason

  abbrev pub status_by_scheduler :
      Pool → List Node → Answer (Bool × List String) → NodePoolStatus × List Err
  status_by_scheduler pool nodes (fail e) = (
    with_nodes nodes (not_ready_status pool (unresolvable_message (cluster.unresolvable_shard e))),
    [],
  )
  status_by_scheduler pool nodes (reply (is_ready, reasons)) =
      if not is_ready
      then (with_nodes nodes (not_ready_status pool (with_reason (join ", " reasons))), [])
      else node_pool_status_by_nodes pool nodes

  unfoldable pub calculate_node_pool_status : Pool → List Node → NodePoolStatus × List Err
  calculate_node_pool_status pool nodes =
      status_by_scheduler pool nodes (cluster.scheduler_status sent pool)

  -- The projects that hold a queue of the node pool.
  abbrev pub references : String → Project → Bool
  references node_pool project = any (λ queue. queue.nodepool == node_pool) project.queues

  unfoldable pub projects_referencing_node_pool : String → Result (List String)
  projects_referencing_node_pool node_pool = lift (cluster.list_projects sent) >>= λ projects.
      ok (sorted (map (λ project. project.name) (filter (references node_pool) projects)))

  abbrev taken : ℕ → List String → List String
  taken zero names = []
  taken (suc n) [] = []
  taken (suc n) (name ∷ names) = name ∷ taken n names

  abbrev pub projects_reference_message : List String → String
  projects_reference_message [] = ""
  projects_reference_message (name ∷ names) =
      let projects = name ∷ names in
      let prefix : String = "NodePool is referenced by the following project(s): " in
      if ltb 10 (length projects)
      then String.◌++◌ prefix (
          String.◌++◌ (join ", " (taken 10 projects)) (
            String.◌++◌ " (and "
              (String.◌++◌ (cluster.to_decimal (length projects - 10)) " more)")))
      else String.◌++◌ prefix (join ", " projects)

  abbrev pub projects_reference_condition : List String → NodePoolCondition
  projects_reference_condition referencing = record {
    condition_type = cfg.project_references_exist;
    status = "";
    reason = cfg.project_references_exist_reason;
    message = if is_nonempty_list referencing then projects_reference_message referencing else "";
    last_transition_time = 0;
  }

  unfoldable pub deletion_status : Pool → List Node → List String → NodePoolStatus
  deletion_status pool nodes referencing =
      let found = nodes_situation nodes in
      record {
        phase =
            if found.at_least_one_node_unschedulable || is_nonempty_list referencing
            then deleting
            else empty;
        message = join "\n" (
            filter (λ message. message != "")
              (get_node_pool_deleting_message found.unschedulable_nodes
                ∷ projects_reference_message referencing
                ∷ []));
        nodes = found.nodes_in_node_pool;
        conditions =
            cluster.set_condition (projects_reference_condition referencing)
              (is_nonempty_list referencing) pool.status.conditions;
      }

  -- `getNodePoolDeletionStatus`: without the projects, the status is left as it is.
  abbrev pub deletion_status_of :
      Pool → List Node → Result (List String) → NodePoolStatus × List Err
  deletion_status_of pool nodes (ok referencing) = (deletion_status pool nodes referencing, [])
  deletion_status_of pool nodes (err e) = (pool.status, e ∷ [])
  deletion_status_of pool nodes panic = (pool.status, [])

  abbrev pub get_node_pool_deletion_status : Pool → List Node → NodePoolStatus × List Err
  get_node_pool_deletion_status pool nodes =
      deletion_status_of pool nodes (projects_referencing_node_pool pool.name)
