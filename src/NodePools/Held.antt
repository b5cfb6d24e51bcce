-- ===== src/NodePools/Held.antt =====
-- When a pod holds its node in the old node pool (getRunningPodsWithNodePoolOnNode and
-- filterPodsWithIncorrectNodepoolLabel of node_status_handler.go).
use kai_resource_management.Prelude.{
  Bool-cases, Option-cases, All, filter, In, here, there, lookup, Err, ok, String, eq_refl, ◌≡◌,
  refl, ap, ◌∙◌, ◌≢◌, ◌⊎◌, inl, inr, true, false, some, List, [], ◌∷◌, ◌++◌, arith,
}
use kai_resource_management.Objects.{Labels, Answer, reply, fail}
use kai_resource_management.NodePools.{NodePoolsConfig, RunningPod, Patch, Cluster}
use kai_resource_management.NodePools.Grouped.{pod_group_of, Holds, grouped-Holds}
use kai_resource_management.NodePools.Pods.{
  node_pool_label_selector, PodsOfGroup, pods_by_group, has_label_of_group, labelled_as_group,
  filter_groups, running_pods_with_node_pool_on_node, is_nonempty, are_pods_running_with_node_pool,
}

module _ (cfg : NodePoolsConfig) (cluster : Cluster) (sent : List Patch) where
  -- A listed pod that has the node pool label of its pod group, which can be read; the listed pods whose pod
  -- group has that name are in its namespace.
  abbrev pub HoldsNode : List RunningPod → RunningPod → Type 0
  HoldsNode pods pod =
      (group : String) × (labels : Labels) × In pod pods
      × (pod_group_of cfg pod ≡ some group)
      × (cluster.get_pod_group_labels sent pod.namespace group ≡ reply labels)
      × (lookup cfg.node_pool_name_label pod.labels ≡ lookup cfg.node_pool_name_label labels)
      × All (λ other. pod_group_of cfg other ≡ some group → other.namespace ≡ pod.namespace) pods

  -- The node runs such a pod among those that the node pool's selector lists, or they cannot be listed.
  abbrev pub IsHeld : (node_name node_pool : String) → Type 0
  IsHeld node_name node_pool =
      let selector = node_pool_label_selector cfg node_pool in
      ((e : Err) × (cluster.check_requirement selector ≡ fail e))
      ⊎ (((e : Err) × (cluster.list_pods sent node_name selector ≡ fail e))
          ⊎ ((pods : List RunningPod) × (pod : RunningPod) × (cluster.list_pods sent node_name
                  selector
                ≡ reply pods)
              × HoldsNode pods pod))

  labelled_In :
      (pod : RunningPod) (pods : List RunningPod) (labels : Labels)
      → In pod pods
      → has_label_of_group cfg labels pod ≡ true
      → filter (has_label_of_group cfg labels) pods ≢ []
  labelled_In pod [] labels m has = elim m [ ]
  labelled_In pod (p ∷ pods) labels (here e) has =
      rw (ap (has_label_of_group cfg labels) e ∙ has) (λ k. cc)
  labelled_In pod (p ∷ pods) labels (there m) has =
      elim (Bool-cases (has_label_of_group cfg labels p)) [
        | inl e ↦ rw (e) (λ k. cc)
        | inr e ↦ rw (e) (labelled_In pod pods labels m has)
      ]

  left-ne_nil : (xs ys : List RunningPod) → xs ≢ [] → (xs ++ ys) ≢ []
  left-ne_nil [] ys h k = h refl
  left-ne_nil (x ∷ xs) ys h k = cc

  right-ne_nil : (xs ys : List RunningPod) → ys ≢ [] → (xs ++ ys) ≢ []
  right-ne_nil [] ys h k = h k
  right-ne_nil (x ∷ xs) ys h k = cc

  filtered_ne_nil :
      (group namespace : String) (labels : Labels) (pod : RunningPod)
      (groups : List (PodsOfGroup cfg))
      → cluster.get_pod_group_labels sent namespace group ≡ reply labels
      → has_label_of_group cfg labels pod ≡ true
      → Holds cfg group namespace pod groups
      → filter_groups cfg cluster sent groups ≢ []
  unfolding filter_groups
  filtered_ne_nil group namespace labels pod [] read has h = absurd h
  filtered_ne_nil group namespace labels pod ((name, (first, others)) ∷ groups) read has
        (inl (e, near, m)) =
      left-ne_nil
        (labelled_as_group cfg (first ∷ others)
          (cluster.get_pod_group_labels sent first.namespace name))
        (filter_groups cfg cluster sent groups)
        (rw ((λ i. cluster.get_pod_group_labels sent (near i) (e i)) ∙ read)
          (labelled_In pod (first ∷ others) labels m has))
  filtered_ne_nil group namespace labels pod ((name, (first, others)) ∷ groups) read has (inr h) =
      right-ne_nil
        (labelled_as_group cfg (first ∷ others)
          (cluster.get_pod_group_labels sent first.namespace name))
        (filter_groups cfg cluster sent groups)
        (filtered_ne_nil group namespace labels pod groups read has h)

  same_label_as_group :
      (pod : RunningPod) (labels : Labels)
      → lookup cfg.node_pool_name_label pod.labels ≡ lookup cfg.node_pool_name_label labels
      → has_label_of_group cfg labels pod ≡ true
  same_label_as_group pod labels same =
      elim (Option-cases (lookup cfg.node_pool_name_label labels)) [
        | inl e ↦ rw (same, e) refl
        | inr (value, e) ↦ rw (same, e) (eq_refl value)
      ]

  -- A held node is not found free of pods of its old node pool.
  pub held-ne_free :
      (node_name node_pool : String)
      → IsHeld node_name node_pool
      → are_pods_running_with_node_pool cfg cluster sent node_name node_pool true ≢ ok false
  unfolding running_pods_with_node_pool_on_node
  held-ne_free node_name node_pool (inl (e, failed)) k = let j = k in absurd (ground arith)
  held-ne_free node_name node_pool (inr (inl (e, failed))) k =
      of_check (cluster.check_requirement (node_pool_label_selector cfg node_pool)) refl
    where
      of_check :
          (answer : Answer (Unit {0}))
          → cluster.check_requirement (node_pool_label_selector cfg node_pool) ≡ answer
          → ⊥
      of_check (reply u) c = let j = k in absurd (ground arith)
      of_check (fail e') c = let j = k in absurd (ground arith)
  held-ne_free node_name node_pool
        (inr (inr (pods, pod, listed, (group, labels, m, own, read, same, near)))) k =
      of_check (cluster.check_requirement (node_pool_label_selector cfg node_pool)) refl
    where
      kept : filter_groups cfg cluster sent (pods_by_group cfg [] pods) ≢ []
      kept =
          filtered_ne_nil group pod.namespace labels pod (pods_by_group cfg [] pods) read
            (same_label_as_group pod labels same)
            (grouped-Holds cfg group pod.namespace pod [] pods m own near tt)

      of_kept :
          (left : List RunningPod)
          → left ≢ []
          → ok (is_nonempty cfg cluster sent left) ≡ ok false
          → ⊥
      of_kept [] some_left e = some_left refl
      of_kept (p ∷ ps) some_left e = cc

      of_check :
          (answer : Answer (Unit {0}))
          → cluster.check_requirement (node_pool_label_selector cfg node_pool) ≡ answer
          → ⊥
      of_check (reply u) c = of_kept _ kept (rw (c, listed) at k)
      of_check (fail e') c = let j = k in absurd (ground arith)
