-- ===== src/NodePools/Reconcile.antt =====
-- The reconcile of a node pool's nodes: nodepool_handler.go, node_lister.go, handleNodesOfNodePool of
-- node_handler.go, and reconcileNodes of nodepool_reconciler.go. A function that returns nodes and a
-- multierror gives the nodes, as the calls left them, and the list of errors.
use kai_resource_management.Prelude.{
  ◌==◌, ◌!=◌, if◌then◌else◌, contains, insert, Err, Result, ok, err, panic, String, Bool, List, [],
  ◌∷◌, ◌++◌, map,
}
use kai_resource_management.Objects.{Requirement, equals, not_equals, Answer, reply, fail, lift}
use kai_resource_management.Effects.{◌>>=◌, give, attempt}
use kai_resource_management.NodePools.{NodePoolsConfig, Node, Pool, Cluster, OnNode, Sending}
use kai_resource_management.NodePools.Pods.{
  node_pool_name_from_labels, node_pool_label_selector, not_node_pool_label_selector,
}
use kai_resource_management.NodePools.Drain.{
  find_matching_node_pool_from_list, update_node_with_node_pool_name_if_needed, unschedulable_error,
  validate_node_status_in_node_pool_wrapper, change_node_pool_for_node_generic,
}
use kai_resource_management.NodePools.Nrt.{reconcile_nrt_health_condition}
use kai_resource_management.NodePools.Shards.{list_partition_label_values}
use kai_resource_management.NodePools.Annotations.{reconcile_node_annotations}

abbrev pub Outcomes : Type 0
Outcomes = List Node × List Err

-- `AppendErrIfNotNil`.
abbrev pub errors_of : {A : Type 0} → Result A → List Err
errors_of (ok _) = []
errors_of (err e) = e ∷ []
errors_of panic = []

-- A turn of a node among the patches of a reconcile: what it gives, and the node as it leaves it.
abbrev pub visited : {A : Type 0} → Result A → Node → Result (Result A × Node)
visited (ok a) node = ok (ok a, node)
visited (err e) node = ok (err e, node)
visited panic node = panic

abbrev pub visit : {A : Type 0} → OnNode A → Node → Sending (Result A × Node)
visit m node sent =
    let (r, t) = m (record { node = node; sent = sent }) in (visited r t.node, t.sent)

abbrev pub with_visit : Outcomes → Result (List Err) × Node → Outcomes
with_visit (nodes, errors) (ok es, node) = (node ∷ nodes, es ++ errors)
with_visit (nodes, errors) (err e, node) = (node ∷ nodes, e ∷ errors)
with_visit (nodes, errors) (panic, node) = (node ∷ nodes, errors)

-- The loop over the nodes, for the errors that each turn gives.
unfoldable pub for_each_node : (Node → OnNode (List Err)) → List Node → Sending Outcomes
for_each_node handle [] = give (ok ([], []))
for_each_node handle (node ∷ nodes) = visit (handle node) node >>= λ done.
    for_each_node handle nodes >>= λ rest. give (ok (with_visit rest done))

-- A reconcile that cannot read what it needs returns no nodes and that error.
abbrev pub or_none : Result Outcomes → Sending Outcomes
or_none (ok done) = give (ok done)
or_none (err e) = give (ok ([], e ∷ []))
or_none panic = give panic

abbrev pub recovering : Sending Outcomes → Sending Outcomes
recovering m = attempt m >>= or_none

abbrev pub unless_empty : (List Node → Sending Outcomes) → List Node → Sending Outcomes
unless_empty handle [] = give (ok ([], []))
unless_empty handle (node ∷ nodes) = handle (node ∷ nodes)

module _ (cfg : NodePoolsConfig) (cluster : Cluster) where
  unfoldable pub check_requirements : List Requirement → Result (Unit {0})
  check_requirements [] = ok tt
  check_requirements (requirement ∷ requirements) =
      let rest = check_requirements requirements in
      checked (cluster.check_requirement requirement) rest
    where
      checked : Answer (Unit {0}) → Result (Unit {0}) → Result (Unit {0})
      checked (reply _) rest = rest
      checked (fail e) rest = err e

  abbrev pub listed : Result (Unit {0}) → Answer (List Node) → Result (List Node)
  listed (ok _) answer = lift answer
  listed (err e) answer = err e
  listed panic answer = panic

  abbrev pub list_nodes_with_requirements : List Requirement → Sending (List Node)
  list_nodes_with_requirements requirements sent =
      (listed (check_requirements requirements) (cluster.list_nodes sent requirements), sent)

  abbrev pub available_node_pools : Sending (List Pool)
  available_node_pools sent = (lift (cluster.list_available_pools sent), sent)

  abbrev pub node_pool_name_matching : String → Requirement
  node_pool_name_matching node_pool = equals cfg.node_pool_name_label node_pool

  abbrev pub nodes_matching_node_pool_name_no_label : Pool → Sending (List Node)
  nodes_matching_node_pool_name_no_label pool =
      list_nodes_with_requirements
        (node_pool_name_matching pool.name ∷ not_equals pool.label_key pool.label_value ∷ [])

  abbrev pub nodes_in_default_node_pool_matching_other_node_pool_label : Pool → Sending (List Node)
  nodes_in_default_node_pool_matching_other_node_pool_label pool = list_nodes_with_requirements (
      node_pool_label_selector cfg cfg.default_nodepool_name
      ∷ equals pool.label_key pool.label_value
      ∷ [])

  abbrev pub nodes_matching_node_pool_name_and_label : Pool → Sending (List Node)
  nodes_matching_node_pool_name_and_label pool =
      list_nodes_with_requirements
        (node_pool_name_matching pool.name ∷ equals pool.label_key pool.label_value ∷ [])

  abbrev pub node_pool_nodes : String → Sending (List Node)
  node_pool_nodes node_pool =
      list_nodes_with_requirements (node_pool_label_selector cfg node_pool ∷ [])

  abbrev pub nodes_not_in_default_node_pool : Sending (List Node)
  nodes_not_in_default_node_pool =
      list_nodes_with_requirements (not_node_pool_label_selector cfg cfg.default_nodepool_name ∷ [])

  abbrev pub change_errors : Node → Bool × Result (Unit {0}) → List Err
  change_errors node (schedulable, error) =
      errors_of error ++ (if schedulable then [] else unschedulable_error cfg cluster node ∷ [])

  -- A change of node pool, with an error where the node is left unschedulable.
  abbrev pub change_node_pool : (new old : String) → List Pool → Node → OnNode (List Err)
  change_node_pool new old available node =
      change_node_pool_for_node_generic cfg cluster new old available >>= λ changed.
      give (ok (change_errors node changed))

  unfoldable pub reconcile_nodes_matching_node_pool_name_no_label : Pool → Sending Outcomes
  reconcile_nodes_matching_node_pool_name_no_label pool = recovering (
      nodes_matching_node_pool_name_no_label pool
      >>= unless_empty (λ nodes. available_node_pools >>= λ pools.
          for_each_node (change_node_pool "" pool.name pools) nodes))

  unfoldable pub reconcile_nodes_in_default_node_pool_matching_other_node_pool_label :
      Pool → Sending Outcomes
  reconcile_nodes_in_default_node_pool_matching_other_node_pool_label pool = recovering (
      nodes_in_default_node_pool_matching_other_node_pool_label pool
      >>= for_each_node (change_node_pool pool.name cfg.default_nodepool_name []))

  abbrev pub validate_node : String → Node → OnNode (List Err)
  validate_node node_pool node =
      attempt (validate_node_status_in_node_pool_wrapper cfg cluster node_pool) >>= λ validated.
      give (ok (errors_of validated))

  unfoldable pub reconcile_nodes_matching_node_pool_name_and_label : Pool → Sending Outcomes
  reconcile_nodes_matching_node_pool_name_and_label pool =
      recovering
        (nodes_matching_node_pool_name_and_label pool >>= for_each_node (validate_node pool.name))

  abbrev pub validate_default_node : Node → OnNode (List Err)
  validate_default_node node =
      attempt (update_node_with_node_pool_name_if_needed cfg cluster cfg.default_nodepool_name)
      >>= λ labelled. validate_node cfg.default_nodepool_name node >>= λ errors.
          give (ok (errors_of labelled ++ errors))

  abbrev pub reconcile_default_node : List Pool → Node → OnNode (List Err)
  reconcile_default_node pools node =
      let found = find_matching_node_pool_from_list cfg node.labels pools in
      if found == cfg.default_nodepool_name
      then validate_default_node node
      else change_node_pool found cfg.default_nodepool_name [] node

  unfoldable pub reconcile_nodes_in_default_node_pool : Sending Outcomes
  reconcile_nodes_in_default_node_pool = recovering (
      node_pool_nodes cfg.default_nodepool_name
      >>= unless_empty (λ nodes.
        available_node_pools >>= λ pools. for_each_node (reconcile_default_node pools) nodes))

  -- The excluded node pool, the unmanaged partitions and the node pools that are available.
  abbrev pub existing_node_pools : List Pool → (unmanaged : List String) → List String
  existing_node_pools pools unmanaged =
      cfg.excluded_nodepool_name ∷ unmanaged ++ map (λ pool. pool.name) pools

  abbrev pub reconcile_assigned_node :
      List Pool → (unmanaged : List String) → Node → OnNode (List Err)
  reconcile_assigned_node pools unmanaged node =
      let assigned = node_pool_name_from_labels cfg node.labels in
      if contains (existing_node_pools pools unmanaged) assigned
      then give (ok [])
      else change_node_pool "" assigned pools node

  unfoldable pub reconcile_nodes_not_in_default_node_pool : Sending Outcomes
  reconcile_nodes_not_in_default_node_pool = recovering (
      nodes_not_in_default_node_pool
      >>= unless_empty (λ nodes. available_node_pools >>= λ pools.
          unmanaged_partitions >>= λ unmanaged.
          for_each_node (reconcile_assigned_node pools unmanaged) nodes))
    where
      unmanaged_partitions : Sending (List String)
      unmanaged_partitions sent = (list_partition_label_values cluster sent, sent)

  -- `filterNodePoolNodes`: a map by the node's name, so the last node of a name stays.
  unfoldable pub filter_node_pool_nodes :
      List (String × Node) → List Node → Pool → List (String × Node)
  filter_node_pool_nodes found [] pool = found
  filter_node_pool_nodes found (node ∷ nodes) pool =
      filter_node_pool_nodes
        (if node_pool_name_from_labels cfg node.labels == pool.name
          then insert node.name node found
          else found)
        nodes pool

  abbrev pub nodes_of_pool : List Node → Pool → List Node
  nodes_of_pool nodes pool = map (λ entry. entry.1) (filter_node_pool_nodes [] nodes pool)

  abbrev pub handle_node_of_node_pool : (nrt_enabled : Bool) → Pool → Node → OnNode (List Err)
  handle_node_of_node_pool nrt_enabled pool node =
      attempt (reconcile_node_annotations cfg cluster nrt_enabled pool) >>= λ annotated.
      attempt (reconcile_nrt_health_condition cluster nrt_enabled pool) >>= λ checked.
      give (ok (errors_of annotated ++ errors_of checked))

  abbrev pub handle_nodes_of_node_pool : (nrt_enabled : Bool) → Pool → List Node → Sending Outcomes
  handle_nodes_of_node_pool nrt_enabled pool altered =
      for_each_node (handle_node_of_node_pool nrt_enabled pool) (nodes_of_pool altered pool)

  abbrev pub both : Outcomes → Outcomes → Outcomes
  both (nodes, errors) (others, more) = (nodes ++ others, errors ++ more)

  abbrev pub reconcile_nodes_by_label : Pool → Sending Outcomes
  reconcile_nodes_by_label pool =
      if pool.name != cfg.default_nodepool_name
      then (reconcile_nodes_matching_node_pool_name_no_label pool >>= λ first.
          reconcile_nodes_in_default_node_pool_matching_other_node_pool_label pool >>= λ second.
          reconcile_nodes_matching_node_pool_name_and_label pool >>= λ third.
          give (ok (both first (both second third))))
      else (reconcile_nodes_in_default_node_pool >>= λ first.
          reconcile_nodes_not_in_default_node_pool >>= λ second. give (ok (both first second)))

  unfoldable pub reconcile_nodes : (nrt_enabled : Bool) → Pool → Sending Outcomes
  reconcile_nodes nrt_enabled pool = reconcile_nodes_by_label pool >>= λ altered.
      handle_nodes_of_node_pool nrt_enabled pool altered.0 >>= λ handled.
      give (ok (handled.0, altered.1 ++ handled.1))
