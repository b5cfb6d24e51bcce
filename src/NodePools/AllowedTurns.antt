-- ===== src/NodePools/AllowedTurns.antt =====
-- What the turns of a node may send: the steps of node_handler.go and node_status_handler.go, and the loops
-- of nodepool_handler.go.
use kai_resource_management.Prelude.{
  ◌==◌, if◌then◌else◌, contains, Err, Result, ok, err, panic, IsSafe, String, Bool, true, false,
  List, [], ◌++◌,
}
use kai_resource_management.Effects.{◌>>=◌, give}
use kai_resource_management.Effects.Keeping.{give-Keeps, then-Keeps, if-Keeps, attempt-Keeps}
use kai_resource_management.NodePools.{NodePoolsConfig, Node, Pool, Cluster, with_node}
use kai_resource_management.NodePools.Reading.{reading-IsSafe}
use kai_resource_management.NodePools.Reconcile.{
  errors_of, change_errors, change_node_pool, validate_node, reconcile_default_node,
  existing_node_pools, reconcile_assigned_node,
}
use kai_resource_management.NodePools.Pods.{
  node_pool_name_from_labels, are_pods_running_with_node_pool,
}
use kai_resource_management.NodePools.Drain.{
  find_matching_node_pool_from_list, update_node_with_node_pool_name_if_needed,
  update_node_unschedulable_if_needed, are_pods_running, mark_by_pods,
  validate_node_status_when_changing_node_pool, validate_node_status_in_node_pool,
  unschedulable_error, validate_node_status_in_node_pool_wrapper, move_node, after_validation,
  change_node_pool_for_node_generic,
}
use kai_resource_management.NodePools.Allowed.{OursIn, KeepsTurn, rename-KeepsTurn, mark-KeepsTurn}

module _ (cfg : NodePoolsConfig) (cluster : Cluster) where
  reading-KeepsTurn :
      (node_pool : String) (same_node_pool : Bool)
      → KeepsTurn cfg cluster (are_pods_running cfg cluster node_pool same_node_pool)
  reading-KeepsTurn node_pool same_node_pool t i =
      give-Keeps (OursIn cfg cluster)
        (are_pods_running_with_node_pool cfg cluster t.sent t.node.name node_pool same_node_pool)
        (reading-IsSafe cfg cluster t.sent t.node.name node_pool same_node_pool) t i

  mark_by_pods-KeepsTurn :
      (running : Bool) → KeepsTurn cfg cluster (mark_by_pods cfg cluster running)
  mark_by_pods-KeepsTurn true =
      then-Keeps (OursIn cfg cluster) (update_node_unschedulable_if_needed cfg cluster true) _
        (mark-KeepsTurn cfg cluster true) (λ _. give-Keeps (OursIn cfg cluster) (ok false) tt)
  mark_by_pods-KeepsTurn false =
      then-Keeps (OursIn cfg cluster) (update_node_unschedulable_if_needed cfg cluster false) _
        (mark-KeepsTurn cfg cluster false) (λ _. give-Keeps (OursIn cfg cluster) (ok true) tt)

  validate_changing-KeepsTurn :
      (old : String)
      → KeepsTurn cfg cluster (validate_node_status_when_changing_node_pool cfg cluster old)
  unfolding validate_node_status_when_changing_node_pool
  validate_changing-KeepsTurn old =
      then-Keeps (OursIn cfg cluster) (are_pods_running cfg cluster old true) _
        (reading-KeepsTurn old true) mark_by_pods-KeepsTurn

  pub change-KeepsTurn :
      (new old : String) (available : List Pool)
      → KeepsTurn cfg cluster (change_node_pool_for_node_generic cfg cluster new old available)
  unfolding change_node_pool_for_node_generic
  change-KeepsTurn new old available =
      attempt-Keeps (OursIn cfg cluster)
        (validate_node_status_when_changing_node_pool cfg cluster old) _
        (validate_changing-KeepsTurn old) validated
    where
      validated :
          (r : Result Bool)
          → IsSafe r
          → KeepsTurn cfg cluster (after_validation cfg cluster new available r)
      validated (ok true) safe =
          attempt-Keeps (OursIn cfg cluster) (move_node cfg cluster new available) _
            (λ t i. rename-KeepsTurn cfg cluster _ t i)
            (λ moved _.
              give-Keeps (OursIn cfg cluster) {A = Bool × Result (Unit {0})} (ok (true, moved)) tt)
      validated (ok false) safe =
          give-Keeps (OursIn cfg cluster) {A = Bool × Result (Unit {0})} (ok (false, ok tt)) tt
      validated (err e) safe =
          give-Keeps (OursIn cfg cluster) {A = Bool × Result (Unit {0})} (ok (false, err e)) tt
      validated panic safe = absurd safe

  validate_in-KeepsTurn :
      (node_pool : String)
      → KeepsTurn cfg cluster (validate_node_status_in_node_pool_wrapper cfg cluster node_pool)
  unfolding validate_node_status_in_node_pool
  validate_in-KeepsTurn node_pool =
      then-Keeps (OursIn cfg cluster)
        (are_pods_running cfg cluster node_pool false >>= mark_by_pods cfg cluster) _
        (then-Keeps (OursIn cfg cluster) (are_pods_running cfg cluster node_pool false) _
          (reading-KeepsTurn node_pool false) mark_by_pods-KeepsTurn)
        judged
    where
      judged :
          (schedulable : Bool)
          → KeepsTurn cfg cluster (
              with_node λ node.
                give (if schedulable then ok tt else err (unschedulable_error cfg cluster node)))
      judged true t i = (i, tt)
      judged false t i = i

  pub change_node_pool-KeepsTurn :
      (new old : String) (available : List Pool) (node : Node)
      → KeepsTurn cfg cluster (change_node_pool cfg cluster new old available node)
  change_node_pool-KeepsTurn new old available node =
      then-Keeps (OursIn cfg cluster)
        (change_node_pool_for_node_generic cfg cluster new old available) _
        (change-KeepsTurn new old available)
        (λ changed.
          give-Keeps (OursIn cfg cluster) (ok (change_errors cfg cluster node changed)) tt)

  pub validate_node-KeepsTurn :
      (node_pool : String) (node : Node)
      → KeepsTurn cfg cluster (validate_node cfg cluster node_pool node)
  validate_node-KeepsTurn node_pool node =
      attempt-Keeps (OursIn cfg cluster)
        (validate_node_status_in_node_pool_wrapper cfg cluster node_pool) _
        (validate_in-KeepsTurn node_pool)
        (λ validated _. give-Keeps (OursIn cfg cluster) (ok (errors_of validated)) tt)

  pub default_node-KeepsTurn :
      (pools : List Pool) (node : Node)
      → KeepsTurn cfg cluster (reconcile_default_node cfg cluster pools node)
  default_node-KeepsTurn pools node =
      if-Keeps (OursIn cfg cluster)
        (find_matching_node_pool_from_list cfg node.labels pools == cfg.default_nodepool_name) _ _
        (λ _.
          attempt-Keeps (OursIn cfg cluster)
            (update_node_with_node_pool_name_if_needed cfg cluster cfg.default_nodepool_name) _
            (rename-KeepsTurn cfg cluster cfg.default_nodepool_name)
            (λ labelled _.
              then-Keeps (OursIn cfg cluster)
                (validate_node cfg cluster cfg.default_nodepool_name node) _
                (validate_node-KeepsTurn cfg.default_nodepool_name node)
                (λ errors. give-Keeps (OursIn cfg cluster) (ok (errors_of labelled ++ errors)) tt)))
        (λ _.
          change_node_pool-KeepsTurn (find_matching_node_pool_from_list cfg node.labels pools)
            cfg.default_nodepool_name [] node)

  pub assigned_node-KeepsTurn :
      (pools : List Pool) (unmanaged : List String) (node : Node)
      → KeepsTurn cfg cluster (reconcile_assigned_node cfg cluster pools unmanaged node)
  assigned_node-KeepsTurn pools unmanaged node =
      let assigned = node_pool_name_from_labels cfg node.labels in
      if-Keeps (OursIn cfg cluster)
        (contains (existing_node_pools cfg cluster pools unmanaged) assigned) _ _
        (λ _. give-Keeps (OursIn cfg cluster) {A = List Err} (ok []) tt)
        (λ _. change_node_pool-KeepsTurn "" assigned pools node)
