-- ===== src/NodePools/Pods.antt =====
-- Which pods run on a node: node_status_handler.go, and the label selectors of node pools
-- (pkg/common/node-pool-utils/utils/label_selector_utils.go).
use kai_resource_management.Prelude.{
  ◌==◌, if◌then◌else◌, filter, lookup, Result, ok, ◌>>=◌, String, Bool, true, false, Option, none,
  some, List, [], ◌∷◌, ◌++◌,
}
use kai_resource_management.Objects.{
  Labels, Requirement, equals, exists, does_not_exist, not_in, Answer, reply, fail, lift,
}
use kai_resource_management.NodePools.{NodePoolsConfig, RunningPod, Patch, Cluster}

module _ (cfg : NodePoolsConfig) where
  abbrev pub node_pool_name_from_labels : Labels → String
  node_pool_name_from_labels labels = or_default (lookup cfg.node_pool_name_label labels)
    where
      or_default : Option String → String
      or_default none = cfg.default_nodepool_name
      or_default (some name) = if name == "" then cfg.default_nodepool_name else name

  abbrev pub node_pool_label_selector : (node_pool : String) → Requirement
  node_pool_label_selector node_pool =
      if node_pool == cfg.default_nodepool_name
      then does_not_exist cfg.node_pool_name_label
      else equals cfg.node_pool_name_label node_pool

  abbrev pub not_node_pool_label_selector : (node_pool : String) → Requirement
  not_node_pool_label_selector node_pool =
      if node_pool == cfg.default_nodepool_name
      then exists cfg.node_pool_name_label
      else not_in cfg.node_pool_name_label (node_pool ∷ [])

  -- The pods of one pod group: its name, the first pod and the others.
  abbrev pub PodsOfGroup : Type 0
  PodsOfGroup = String × (RunningPod × List RunningPod)

  unfoldable pub add_to_group : String → RunningPod → List PodsOfGroup → List PodsOfGroup
  add_to_group group pod [] = (group, (pod, [])) ∷ []
  add_to_group group pod ((name, (first, others)) ∷ groups) =
      let rest = add_to_group group pod groups in
      if name == group
      then (name, (first, others ++ pod ∷ [])) ∷ groups
      else (name, (first, others)) ∷ rest

  abbrev pub add_annotated : RunningPod → List PodsOfGroup → Option String → List PodsOfGroup
  add_annotated pod groups none = groups
  add_annotated pod groups (some group) = add_to_group group pod groups

  unfoldable pub pods_by_group : List PodsOfGroup → List RunningPod → List PodsOfGroup
  pods_by_group groups [] = groups
  pods_by_group groups (pod ∷ pods) =
      pods_by_group
        (add_annotated pod groups (lookup cfg.pod_group_annotation_for_pod pod.annotations)) pods

  -- The node pool label of the pod is that of its pod group, or neither has one.
  abbrev pub has_label_of_group : Labels → RunningPod → Bool
  has_label_of_group group_labels pod =
      same (lookup cfg.node_pool_name_label pod.labels)
        (lookup cfg.node_pool_name_label group_labels)
    where
      same : Option String → Option String → Bool
      same none none = true
      same (some a) (some b) = a == b
      same _ _ = false

  abbrev pub labelled_as_group : List RunningPod → Answer Labels → List RunningPod
  labelled_as_group pods (reply labels) = filter (has_label_of_group labels) pods
  labelled_as_group pods (fail e) = []

  module _ (cluster : Cluster) (sent : List Patch) where
    -- A pod group that cannot be read is left out. Go visits the groups in no fixed order.
    unfoldable pub filter_groups : List PodsOfGroup → List RunningPod
    filter_groups [] = []
    filter_groups ((group, (first, others)) ∷ groups) =
        labelled_as_group (first ∷ others) (cluster.get_pod_group_labels sent first.namespace group)
        ++ filter_groups groups

    abbrev pub filter_pods_with_incorrect_nodepool_label : List RunningPod → List RunningPod
    filter_pods_with_incorrect_nodepool_label pods = filter_groups (pods_by_group [] pods)

    unfoldable pub running_pods_with_node_pool_on_node :
        (node_name node_pool : String) → (same_node_pool : Bool) → Result (List RunningPod)
    running_pods_with_node_pool_on_node node_name node_pool same_node_pool =
        let selector =
          if same_node_pool
          then node_pool_label_selector node_pool
          else not_node_pool_label_selector node_pool in
        lift (cluster.check_requirement selector) >>= λ _.
        lift (cluster.list_pods sent node_name selector) >>= λ pods.
        ok (filter_pods_with_incorrect_nodepool_label pods)

    abbrev pub is_nonempty : List RunningPod → Bool
    is_nonempty [] = false
    is_nonempty (_ ∷ _) = true

    abbrev pub are_pods_running_with_node_pool :
        (node_name node_pool : String) → (same_node_pool : Bool) → Result Bool
    are_pods_running_with_node_pool node_name node_pool same_node_pool =
        running_pods_with_node_pool_on_node node_name node_pool same_node_pool >>= λ pods.
        ok (is_nonempty pods)
