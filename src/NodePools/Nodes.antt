-- ===== src/NodePools/Nodes.antt =====
-- Every patch that a reconcile of a node pool's nodes sends (nodepool_handler.go and
-- nodepool_reconciler.go).
use kai_resource_management.Prelude.{
  ◌!=◌, Err, Result, ok, err, panic, IsSafe, inl, inr, Bool, List, [], ◌∷◌, ◌++◌,
}
use kai_resource_management.Objects.{Requirement, Answer, reply, fail, lift}
use kai_resource_management.Effects.{◌>>=◌}
use kai_resource_management.Effects.Rules.{Ends}
use kai_resource_management.Effects.Keeping.{Keeps, give-Keeps, then-Keeps, if-Keeps, attempt-Keeps}
use kai_resource_management.NodePools.{
  NodePoolsConfig, Node, Pool, SchedulingShard, Patch, Cluster, Turn, OnNode, Sending,
}
use kai_resource_management.NodePools.Pods.{not_node_pool_label_selector}
use kai_resource_management.NodePools.Shards.{unmanaged_values, list_partition_label_values}
use kai_resource_management.NodePools.Merging.{Answer-cases}
use kai_resource_management.NodePools.Reading.{lift-IsSafe}
use kai_resource_management.NodePools.Reconcile.{
  Outcomes, visited, visit, with_visit, for_each_node, or_none, recovering, unless_empty,
  check_requirements, listed, list_nodes_with_requirements, available_node_pools,
  nodes_not_in_default_node_pool, change_node_pool,
  reconcile_nodes_matching_node_pool_name_no_label,
  reconcile_nodes_in_default_node_pool_matching_other_node_pool_label, validate_node,
  reconcile_nodes_matching_node_pool_name_and_label, reconcile_default_node,
  reconcile_nodes_in_default_node_pool, reconcile_assigned_node,
  reconcile_nodes_not_in_default_node_pool, nodes_of_pool, handle_node_of_node_pool,
  handle_nodes_of_node_pool, both, reconcile_nodes_by_label, reconcile_nodes,
}
use kai_resource_management.NodePools.Allowed.{AllOurs, OursIn, KeepsTurn}
use kai_resource_management.NodePools.AllowedTurns.{
  change_node_pool-KeepsTurn, validate_node-KeepsTurn, default_node-KeepsTurn,
  assigned_node-KeepsTurn,
}
use kai_resource_management.NodePools.Sent.{handled-Kept}

module _ (cfg : NodePoolsConfig) (cluster : Cluster) where
  abbrev pub KeepsSent : {A : Type 0} → Sending A → Type 0
  KeepsSent m = Keeps (AllOurs cfg) m

  visit-KeepsSent :
      (m : OnNode (List Err)) (node : Node) → KeepsTurn cfg cluster m → KeepsSent (visit m node)
  visit-KeepsSent m node h sent i =
      of_end (m (record { node = node; sent = sent })) (h (record { node = node; sent = sent }) i)
    where
      of_end :
          (r : Result (List Err) × Turn)
          → Ends (OursIn cfg cluster) (λ _. Unit) r
          → Ends
              (AllOurs cfg)
              {A = Result (List Err) × Node}
              (λ _. Unit)
              (visited r.0 r.1.node, r.1.sent)
      of_end (ok a, t) k = k
      of_end (err e, t) k = (k, tt)
      of_end (panic, t) k = k

  for_each-KeepsSent :
      (handle : Node → OnNode (List Err)) (nodes : List Node)
      → ((node : Node) → KeepsTurn cfg cluster (handle node))
      → KeepsSent (for_each_node handle nodes)
  unfolding for_each_node
  for_each-KeepsSent handle [] h = give-Keeps (AllOurs cfg) {A = Outcomes} (ok ([], [])) tt
  for_each-KeepsSent handle (node ∷ nodes) h =
      then-Keeps (AllOurs cfg) (visit (handle node) node) _
        (visit-KeepsSent (handle node) node (h node))
        (λ done.
          then-Keeps (AllOurs cfg) (for_each_node handle nodes) _
            (for_each-KeepsSent handle nodes h)
            (λ rest. give-Keeps (AllOurs cfg) (ok (with_visit rest done)) tt))

  recovering-KeepsSent : (m : Sending Outcomes) → KeepsSent m → KeepsSent (recovering m)
  recovering-KeepsSent m h = attempt-Keeps (AllOurs cfg) m or_none h recovered
    where
      recovered : (r : Result Outcomes) → IsSafe r → KeepsSent (or_none r)
      recovered (ok done) safe = give-Keeps (AllOurs cfg) (ok done) tt
      recovered (err e) safe = give-Keeps (AllOurs cfg) {A = Outcomes} (ok ([], e ∷ [])) tt
      recovered panic safe = absurd safe

  unless_empty-KeepsSent :
      (handle : List Node → Sending Outcomes)
      → ((nodes : List Node) → KeepsSent (handle nodes))
      → (nodes : List Node) → KeepsSent (unless_empty handle nodes)
  unless_empty-KeepsSent handle h [] = give-Keeps (AllOurs cfg) {A = Outcomes} (ok ([], [])) tt
  unless_empty-KeepsSent handle h (node ∷ nodes) = h (node ∷ nodes)

  check-IsSafe :
      (requirements : List Requirement) → IsSafe (check_requirements cfg cluster requirements)
  unfolding check_requirements
  check-IsSafe [] = tt
  check-IsSafe (requirement ∷ requirements) =
      elim (Answer-cases (cluster.check_requirement requirement)) [
        | inl (u, e) ↦ rw (e) (check-IsSafe requirements)
        | inr (x, e) ↦ rw (e) tt
      ]

  list-KeepsSent :
      (requirements : List Requirement)
      → KeepsSent (list_nodes_with_requirements cfg cluster requirements)
  list-KeepsSent requirements sent i =
      give-Keeps (AllOurs cfg)
        (listed cfg cluster (check_requirements cfg cluster requirements)
          (cluster.list_nodes sent requirements))
        (listed-IsSafe (check_requirements cfg cluster requirements) (check-IsSafe requirements)
          (cluster.list_nodes sent requirements))
        sent i
    where
      listed-IsSafe :
          (r : Result (Unit {0}))
          → IsSafe r
          → (answer : Answer (List Node)) → IsSafe (listed cfg cluster r answer)
      listed-IsSafe (ok u) safe answer = lift-IsSafe answer
      listed-IsSafe (err e) safe answer = tt
      listed-IsSafe panic safe answer = safe

  pools-KeepsSent : KeepsSent (available_node_pools cfg cluster)
  pools-KeepsSent sent i =
      give-Keeps (AllOurs cfg) (lift (cluster.list_available_pools sent))
        (lift-IsSafe (cluster.list_available_pools sent)) sent i

  unmanaged-IsSafe :
      (answer : Answer (List SchedulingShard)) → IsSafe (unmanaged_values cluster answer)
  unmanaged-IsSafe (reply shards) = tt
  unmanaged-IsSafe (fail e) = tt

  -- The nodes listed are handled one by one, with the node pools that are available.
  pub listed-KeepsSent :
      (requirements : List Requirement) (handle : List Pool → Node → OnNode (List Err))
      → ((pools : List Pool) (node : Node) → KeepsTurn cfg cluster (handle pools node))
      → KeepsSent (
          recovering (
            list_nodes_with_requirements cfg cluster requirements
            >>= unless_empty (λ nodes.
              available_node_pools cfg cluster >>= λ pools. for_each_node (handle pools) nodes)))
  listed-KeepsSent requirements handle h = recovering-KeepsSent _ (
      then-Keeps (AllOurs cfg) (list_nodes_with_requirements cfg cluster requirements) _
        (list-KeepsSent requirements)
        (unless_empty-KeepsSent _ (λ nodes.
          then-Keeps (AllOurs cfg) (available_node_pools cfg cluster) _ pools-KeepsSent
            (λ pools. for_each-KeepsSent (handle pools) nodes (h pools)))))

  each-KeepsSent :
      (requirements : List Requirement) (handle : Node → OnNode (List Err))
      → ((node : Node) → KeepsTurn cfg cluster (handle node))
      → KeepsSent (
          recovering
            (list_nodes_with_requirements cfg cluster requirements >>= for_each_node handle))
  each-KeepsSent requirements handle h = recovering-KeepsSent _ (
      then-Keeps (AllOurs cfg) (list_nodes_with_requirements cfg cluster requirements) _
        (list-KeepsSent requirements) (λ nodes. for_each-KeepsSent handle nodes h))

  assigned-KeepsSent : KeepsSent (reconcile_nodes_not_in_default_node_pool cfg cluster)
  unfolding reconcile_nodes_not_in_default_node_pool
  assigned-KeepsSent = recovering-KeepsSent _ (
      then-Keeps (AllOurs cfg) (nodes_not_in_default_node_pool cfg cluster) _
        (list-KeepsSent (not_node_pool_label_selector cfg cfg.default_nodepool_name ∷ []))
        (unless_empty-KeepsSent _ (λ nodes.
          then-Keeps (AllOurs cfg) (available_node_pools cfg cluster) _ pools-KeepsSent (λ pools.
            then-Keeps (AllOurs cfg) (λ sent. (list_partition_label_values cluster sent, sent)) _
              (λ sent i.
                give-Keeps (AllOurs cfg) (list_partition_label_values cluster sent)
                  (unmanaged-IsSafe (cluster.list_shards sent)) sent i)
              (λ unmanaged.
                for_each-KeepsSent (reconcile_assigned_node cfg cluster pools unmanaged) nodes
                  (assigned_node-KeepsTurn cfg cluster pools unmanaged))))))

  by_label-KeepsSent : (pool : Pool) → KeepsSent (reconcile_nodes_by_label cfg cluster pool)
  unfolding reconcile_nodes_matching_node_pool_name_no_label
      reconcile_nodes_in_default_node_pool_matching_other_node_pool_label
      reconcile_nodes_matching_node_pool_name_and_label reconcile_nodes_in_default_node_pool
  by_label-KeepsSent pool =
      if-Keeps (AllOurs cfg) (pool.name != cfg.default_nodepool_name) _ _
        (λ _.
          then-Keeps (AllOurs cfg)
            (reconcile_nodes_matching_node_pool_name_no_label cfg cluster pool) _
            (listed-KeepsSent _ (λ pools. change_node_pool cfg cluster "" pool.name pools)
              (λ pools. change_node_pool-KeepsTurn cfg cluster "" pool.name pools))
            (λ first.
              then-Keeps (AllOurs cfg)
                (reconcile_nodes_in_default_node_pool_matching_other_node_pool_label cfg cluster
                  pool)
                _
                (each-KeepsSent _
                  (change_node_pool cfg cluster pool.name cfg.default_nodepool_name [])
                  (change_node_pool-KeepsTurn cfg cluster pool.name cfg.default_nodepool_name []))
                (λ second.
                  then-Keeps (AllOurs cfg)
                    (reconcile_nodes_matching_node_pool_name_and_label cfg cluster pool) _
                    (each-KeepsSent _ (validate_node cfg cluster pool.name)
                      (validate_node-KeepsTurn cfg cluster pool.name))
                    (λ third.
                      give-Keeps (AllOurs cfg)
                        (ok (both cfg cluster first (both cfg cluster second third))) tt))))
        (λ _.
          then-Keeps (AllOurs cfg) (reconcile_nodes_in_default_node_pool cfg cluster) _
            (listed-KeepsSent _ (reconcile_default_node cfg cluster)
              (default_node-KeepsTurn cfg cluster))
            (λ first.
              then-Keeps (AllOurs cfg) (reconcile_nodes_not_in_default_node_pool cfg cluster) _
                assigned-KeepsSent
                (λ second. give-Keeps (AllOurs cfg) (ok (both cfg cluster first second)) tt)))

-- A reconcile of a node pool's nodes does not panic, and whatever fails, all that it sends are patches
-- of the node pool label, the mark, the two annotations or the NRT condition of a node, or of the
-- status of a node pool; none makes a node schedulable that does not have the mark.
pub reconcile_nodes_keeps :
    (cfg : NodePoolsConfig) (cluster : Cluster) (nrt_enabled : Bool) (pool : Pool)
    (sent : List Patch)
    → AllOurs cfg sent
    → Ends
        (AllOurs cfg)
        {A = Outcomes}
        (λ _. Unit)
        (reconcile_nodes cfg cluster nrt_enabled pool sent)
unfolding reconcile_nodes
reconcile_nodes_keeps cfg cluster nrt_enabled pool =
    then-Keeps (AllOurs cfg) (reconcile_nodes_by_label cfg cluster pool) _
      (by_label-KeepsSent cfg cluster pool)
      (λ altered.
        then-Keeps (AllOurs cfg) (handle_nodes_of_node_pool cfg cluster nrt_enabled pool altered.0)
          _
          (for_each-KeepsSent cfg cluster (handle_node_of_node_pool cfg cluster nrt_enabled pool)
            (nodes_of_pool cfg cluster altered.0 pool) (handled-Kept cfg cluster nrt_enabled pool))
          (λ handled.
            give-Keeps (AllOurs cfg) {A = Outcomes} (ok (handled.0, altered.1 ++ handled.1)) tt))
