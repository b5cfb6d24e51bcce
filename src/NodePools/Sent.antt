-- ===== src/NodePools/Sent.antt =====
-- The reconcile of a node pool's nodes sends only what NodePools/Allowed allows.
use kai_resource_management.Prelude.{
  Bool-cases, is_some, not_found, already_exists, failure, invalid, conversion_failed, ok, IsSafe,
  String, ◌≡◌, refl, inl, inr, Bool, true, false, not, ◌||◌, List, ◌++◌,
}
use kai_resource_management.Objects.{Answer, reply, fail}
use kai_resource_management.Effects.{◌>>◌, give}
use kai_resource_management.Effects.Keeping.{give-Keeps, then-Keeps, if-Keeps, attempt-Keeps}
use kai_resource_management.NodePools.{
  NodePoolsConfig, NodeCondition, Node, Pool, NodeResourceTopology, ConditionPatch,
  upsert_condition, delete_condition, Cluster, OnNode, send_condition_patch,
}
use kai_resource_management.NodePools.Nrt.{
  nrt_healthy_condition_type, nrt_health_reason_missing, nrt_missing_item_no_object,
  nrt_prereq_message, is_numa_enabled, find_node_condition, upsert_node_condition,
  delete_node_condition, evaluate_nrt_health, found_nrt, get_node_resource_topology, is_up_to_date,
  nrt_condition, change_conditions, ensure_nrt_condition, remove_nrt_condition, apply_nrt_health,
  reconcile_nrt_health_condition, topology_manager_policy_from_node_nrt,
}
use kai_resource_management.NodePools.Annotations.{
  annotations_up_to_date, annotations_patch, desired_annotations, annotate,
  reconcile_node_annotations,
}
use kai_resource_management.NodePools.Reconcile.{errors_of, handle_node_of_node_pool}
use kai_resource_management.NodePools.Allowed.{
  kind_of, OursIn, KeepsTurn, send-KeepsTurn, send_condition-KeepsTurn,
}

module _ (cfg : NodePoolsConfig) (cluster : Cluster) where
  abbrev Kept : {A : Type 0} → OnNode A → Type 0
  Kept m = KeepsTurn cfg cluster m

  condition-Kept :
      (patch : ConditionPatch) (change : List NodeCondition → List NodeCondition)
      → kind_of patch ≡ nrt_healthy_condition_type
      → Kept (send_condition_patch cluster patch >> change_conditions cluster change)
  condition-Kept patch change ours =
      then-Keeps (OursIn cfg cluster) (send_condition_patch cluster patch) _
        (send_condition-KeepsTurn cfg cluster patch ours) (λ _ t i. (i, tt))

  ensure-Kept : (reason message : String) → Kept (ensure_nrt_condition cluster reason message)
  unfolding ensure_nrt_condition
  ensure-Kept reason message t i =
      let existing = find_node_condition nrt_healthy_condition_type t.node.conditions in
      let condition = nrt_condition cluster reason message existing in
      if-Keeps (OursIn cfg cluster) (is_up_to_date cluster reason message existing) (give (ok tt)) _
        (λ _. give-Keeps (OursIn cfg cluster) (ok tt) tt)
        (λ _. condition-Kept (upsert_condition condition) (upsert_node_condition condition) refl) t
        i

  remove-Kept : Kept (remove_nrt_condition cluster)
  unfolding remove_nrt_condition
  remove-Kept t i =
      if-Keeps (OursIn cfg cluster)
        (not (is_some (find_node_condition nrt_healthy_condition_type t.node.conditions)))
        (give (ok tt)) _ (λ _. give-Keeps (OursIn cfg cluster) (ok tt) tt)
        (λ _.
          condition-Kept (delete_condition nrt_healthy_condition_type)
            (delete_node_condition nrt_healthy_condition_type) refl)
        t i

  found_nrt-IsSafe : (answer : Answer NodeResourceTopology) → IsSafe (found_nrt cluster answer)
  found_nrt-IsSafe (reply nrt) = tt
  found_nrt-IsSafe (fail not_found) = tt
  found_nrt-IsSafe (fail already_exists) = tt
  found_nrt-IsSafe (fail (failure n)) = tt
  found_nrt-IsSafe (fail (invalid s)) = tt
  found_nrt-IsSafe (fail (conversion_failed e)) = tt

  get_nrt-Kept : Kept (get_node_resource_topology cluster)
  unfolding get_node_resource_topology
  get_nrt-Kept t i =
      give-Keeps (OursIn cfg cluster) (found_nrt cluster (cluster.get_nrt t.sent t.node.name))
        (found_nrt-IsSafe (cluster.get_nrt t.sent t.node.name)) t i

  apply-Kept : (verdict : Bool × (String × String)) → Kept (apply_nrt_health cluster verdict)
  apply-Kept (true, (reason, message)) = remove-Kept
  apply-Kept (false, (reason, message)) = ensure-Kept reason message

  health-Kept :
      (nrt_enabled : Bool) (pool : Pool)
      → Kept (reconcile_nrt_health_condition cluster nrt_enabled pool)
  unfolding reconcile_nrt_health_condition
  health-Kept nrt_enabled pool =
      if-Keeps (OursIn cfg cluster) (not (is_numa_enabled pool)) (remove_nrt_condition cluster) _
        (λ _. remove-Kept)
        (λ _.
          if-Keeps (OursIn cfg cluster) (not nrt_enabled)
            (ensure_nrt_condition cluster nrt_health_reason_missing
              (nrt_prereq_message nrt_missing_item_no_object))
            _
            (λ _.
              ensure-Kept nrt_health_reason_missing (nrt_prereq_message nrt_missing_item_no_object))
            (λ _.
              then-Keeps (OursIn cfg cluster) (get_node_resource_topology cluster) _ get_nrt-Kept
                (λ nrt. apply-Kept (evaluate_nrt_health cluster nrt))))

  policy-Kept :
      (nrt_enabled : Bool) (pool : Pool)
      → Kept (topology_manager_policy_from_node_nrt cluster nrt_enabled pool)
  policy-Kept nrt_enabled pool =
      if-Keeps (OursIn cfg cluster) (not (is_numa_enabled pool) || not nrt_enabled) (give (ok "")) _
        (λ _. give-Keeps (OursIn cfg cluster) {A = String} (ok "") tt)
        (λ _.
          then-Keeps (OursIn cfg cluster) (get_node_resource_topology cluster) _ get_nrt-Kept
            (λ nrt t i. (i, tt)))

  annotations-Kept :
      (nrt_enabled : Bool) (pool : Pool)
      → Kept (reconcile_node_annotations cfg cluster nrt_enabled pool)
  unfolding reconcile_node_annotations
  annotations-Kept nrt_enabled pool =
      then-Keeps (OursIn cfg cluster)
        (topology_manager_policy_from_node_nrt cluster nrt_enabled pool) _
        (policy-Kept nrt_enabled pool) annotate-Kept
    where
      annotate-Kept :
          (policy : String) → Kept (annotate cfg cluster (desired_annotations cfg pool policy))
      annotate-Kept policy t i =
          elim (Bool-cases
            (annotations_up_to_date t.node.annotations (desired_annotations cfg pool policy))) [
              | inl same ↦ rw (same) (i, tt)
              | inr stale ↦ rw (stale) (
                  send-KeepsTurn cfg cluster t
                    (annotations_patch (desired_annotations cfg pool policy))
                    (tt, (inl refl, (inr refl, tt)), λ k. absurd (cc)) i)
            ]

  pub handled-Kept :
      (nrt_enabled : Bool) (pool : Pool) (node : Node)
      → Kept (handle_node_of_node_pool cfg cluster nrt_enabled pool node)
  handled-Kept nrt_enabled pool node =
      attempt-Keeps (OursIn cfg cluster) (reconcile_node_annotations cfg cluster nrt_enabled pool) _
        (annotations-Kept nrt_enabled pool)
        (λ annotated _.
          attempt-Keeps (OursIn cfg cluster)
            (reconcile_nrt_health_condition cluster nrt_enabled pool) _
            (health-Kept nrt_enabled pool)
            (λ checked _.
              give-Keeps (OursIn cfg cluster) (ok (errors_of annotated ++ errors_of checked)) tt))
