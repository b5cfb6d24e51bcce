-- ===== src/NodePools/Tests.antt =====
-- The theorems about the node pool controller on the sample cluster.
use kai_resource_management.Prelude.{
  length, All, In, here, not-In_of_contains, lookup, delete, insert, ok, String, ◌≡◌, refl, ◌≢◌,
  ◌↔◌, ◌⊎◌, inr, true, false, none, List, [], ◌∷◌,
}
use kai_resource_management.Objects.{unschedulable, reply}
use kai_resource_management.NodePools.{NodePoolCondition, Patch, patch_pool_finalizers, Cluster}
use kai_resource_management.Effects.Rules.{Ends}
use kai_resource_management.NodePools.Pods.{
  pods_by_group, filter_groups, running_pods_with_node_pool_on_node,
}
use kai_resource_management.NodePools.Texts.{insert_sorted, sort_by, index_of, delete_from_list}
use kai_resource_management.NodePools.Drain.{change_node_pool_for_node_generic}
use kai_resource_management.NodePools.Destination.{IsTarget}
use kai_resource_management.NodePools.Keyed.{by_key, all_matched}
use kai_resource_management.NodePools.Held.{IsHeld}
use kai_resource_management.NodePools.Moving.{HasStayed, HasMoved, running_stays, drained_moves}
use kai_resource_management.NodePools.Nrt.{
  nrt_healthy_condition_type, find_node_condition, evaluate_nrt_health, get_node_resource_topology,
  remove_nrt_condition, reconcile_nrt_health_condition,
}
use kai_resource_management.NodePools.NrtHealth.{IsHealthy, condition_iff}
use kai_resource_management.NodePools.Allowed.{AllOurs}
use kai_resource_management.NodePools.Reconcile.{Outcomes, reconcile_nodes}
use kai_resource_management.NodePools.Nodes.{reconcile_nodes_keeps}
use kai_resource_management.NodePools.StatusEqual.{
  is_node_in_nodepool_equal, is_node_pool_conditions_equal, is_status_equal, SaysTheSame,
  is_status_equal_sound,
}
use kai_resource_management.NodePools.Calculation.{
  calculate_node_pool_status, projects_referencing_node_pool,
}
use kai_resource_management.NodePools.Finalize.{finalize}
use kai_resource_management.NodePools.Blocked.{referenced_blocks}
use kai_resource_management.NodePools.Phases.{HasNoScheduler, unschedulable_iff}
use kai_resource_management.NodePools.Texts.{insert_sorted, sort_by, index_of, delete_from_list}
use kai_resource_management.NodePools.Status.{is_node_ready}
use kai_resource_management.NodePools.Completed.{delete_from_list_lem, finalize_completes}
use kai_resource_management.NodePools.Sample.{
  cfg, worker, busy_status, team_pool, pod, cluster_of, cluster_of-Merges, cluster_of-Accepts, turn,
  cluster_of-MergesConditions,
}

pod_holds : IsHeld cfg (cluster_of (pod ∷ [])) [] "worker" "old"
unfolding lookup
pod_holds = inr (
    inr (
      pod ∷ [],
      pod,
      refl,
      ("group", ("pool", "old") ∷ [], here refl, refl, refl, refl, ((λ _. refl), tt)),
    ))

running_stays_example :
    HasStayed cfg worker
      (change_node_pool_for_node_generic cfg (cluster_of (pod ∷ [])) "new" "old" [] turn)
running_stays_example =
    running_stays cfg (cluster_of (pod ∷ [])) (cluster_of-Merges (pod ∷ [])) "new" "old" [] turn
      pod_holds

drained_moves_example :
    (target : String) × IsTarget cfg "" (team_pool ∷ []) worker.labels target
    × HasMoved cfg target worker
        (change_node_pool_for_node_generic cfg (cluster_of []) "" "old" (team_pool ∷ []) turn)
unfolding running_pods_with_node_pool_on_node filter_groups pods_by_group lookup
drained_moves_example =
    drained_moves cfg (cluster_of []) (cluster_of-Merges []) "" "old" (team_pool ∷ []) turn
      (cluster_of-Accepts []) ((λ k. cc), tt) refl

condition_iff_example :
    (find_node_condition nrt_healthy_condition_type
        (reconcile_nrt_health_condition (cluster_of []) true team_pool turn).1.node.conditions
      ≡ none)
    ↔ IsHealthy (cluster_of []) true team_pool turn
unfolding reconcile_nrt_health_condition get_node_resource_topology evaluate_nrt_health
    remove_nrt_condition find_node_condition lookup
condition_iff_example =
    condition_iff (cluster_of []) true team_pool turn (cluster_of-MergesConditions []) refl

reconcile_nodes_keeps_example :
    Ends
      (AllOurs cfg)
      {A = Outcomes}
      (λ _. Unit)
      (reconcile_nodes cfg (cluster_of (pod ∷ [])) true team_pool [])
reconcile_nodes_keeps_example =
    reconcile_nodes_keeps cfg (cluster_of (pod ∷ [])) true team_pool [] tt

is_status_equal_sound_example :
    (busy_status.phase ≡ busy_status.phase)
    × (busy_status.message ≡ busy_status.message)
    × (length busy_status.nodes ≡ length busy_status.nodes)
    × (length busy_status.conditions ≡ length busy_status.conditions)
    × All (λ node. In node busy_status.nodes) busy_status.nodes
    × All
        (λ b. (a : NodePoolCondition) × In a busy_status.conditions × SaysTheSame a b)
        busy_status.conditions
unfolding by_key all_matched insert delete lookup is_status_equal is_node_pool_conditions_equal
    is_node_in_nodepool_equal
is_status_equal_sound_example = is_status_equal_sound busy_status busy_status refl

referenced_blocks_example :
    Ends (AllOurs cfg) {A = Unit {0}} (λ _. ⊥) (finalize cfg (cluster_of []) team_pool [])
unfolding projects_referencing_node_pool index_of sort_by insert_sorted
referenced_blocks_example =
    referenced_blocks cfg (cluster_of []) team_pool [] (λ _ k. cc) refl refl tt

unschedulable_iff_example :
    ((calculate_node_pool_status cfg (cluster_of []) [] team_pool (worker ∷ [])).0.phase
      ≡ unschedulable)
    ↔ (HasNoScheduler cfg (cluster_of []) [] team_pool
        ⊎ (((worker ∷ []) ≢ []) × All (λ node. is_node_ready node ≡ false) (worker ∷ [])))
unschedulable_iff_example = unschedulable_iff cfg (cluster_of []) [] team_pool (worker ∷ [])

abbrev finalizers : List String
finalizers = "a" ∷ "b" ∷ []

abbrev kept_finalizer : String
kept_finalizer = "b"

delete_from_list_lem_example :
    In kept_finalizer (delete_from_list finalizers "a")
    ↔ (In kept_finalizer finalizers × (kept_finalizer ≢ "a"))
delete_from_list_lem_example =
    delete_from_list_lem finalizers "a" kept_finalizer
      (not-In_of_contains (kept_finalizer ∷ []) refl, ((λ m. elim m [ ]), tt))

abbrev empty_cluster : Cluster
empty_cluster = record (cluster_of []) {
  list_nodes = λ _ _. reply [];
  list_projects = λ _. reply [];
}

finalize_completes_example :
    (earlier : List Patch) × (finalize cfg empty_cluster team_pool [] ≡ (
      ok tt,
      patch_pool_finalizers team_pool.name
            (delete_from_list team_pool.finalizers cfg.finalizer_name)
          ∷ earlier,
    ))
unfolding projects_referencing_node_pool index_of sort_by
finalize_completes_example =
    finalize_completes cfg empty_cluster team_pool [] refl refl refl refl refl (λ _ _. refl)
