-- ===== src/NodePools/Reading.antt =====
-- Reading the pods of a node never panics.
use kai_resource_management.Prelude.{if◌then◌else◌, ok, IsSafe, >>=-IsSafe, String, Bool, List}
use kai_resource_management.Objects.{Answer, reply, fail, lift}
use kai_resource_management.NodePools.{NodePoolsConfig, Patch, Cluster}
use kai_resource_management.NodePools.Pods.{
  node_pool_label_selector, not_node_pool_label_selector, filter_pods_with_incorrect_nodepool_label,
  running_pods_with_node_pool_on_node, is_nonempty, are_pods_running_with_node_pool,
}

pub lift-IsSafe : {A : Type 0} (answer : Answer A) → IsSafe (lift answer)
lift-IsSafe (reply a) = tt
lift-IsSafe (fail e) = tt

pub reading-IsSafe :
    (cfg : NodePoolsConfig) (cluster : Cluster) (sent : List Patch) (node_name node_pool : String)
    (same_node_pool : Bool)
    → IsSafe (are_pods_running_with_node_pool cfg cluster sent node_name node_pool same_node_pool)
unfolding running_pods_with_node_pool_on_node
reading-IsSafe cfg cluster sent node_name node_pool same_node_pool =
    let selector =
      if same_node_pool
      then node_pool_label_selector cfg node_pool
      else not_node_pool_label_selector cfg node_pool in
    >>=-IsSafe
      (running_pods_with_node_pool_on_node cfg cluster sent node_name node_pool same_node_pool)
      (λ pods. ok (is_nonempty cfg cluster sent pods))
      (>>=-IsSafe (lift (cluster.check_requirement selector)) _
        (lift-IsSafe (cluster.check_requirement selector))
        (λ _ _.
          >>=-IsSafe (lift (cluster.list_pods sent node_name selector))
            (λ pods. ok (filter_pods_with_incorrect_nodepool_label cfg cluster sent pods))
            (lift-IsSafe (cluster.list_pods sent node_name selector)) (λ _ _. tt)))
      (λ _ _. tt)
