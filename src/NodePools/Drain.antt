-- ===== src/NodePools/Drain.antt =====
-- How a node changes its node pool, and when it is made unschedulable: node_handler.go and
-- node_status_handler.go.
use kai_resource_management.Prelude.{
  ◌==◌, if◌then◌else◌, is_some, lookup, Err, invalid, Result, ok, err, panic, String, Bool, true,
  false, not, ◌&&◌, Option, none, some, List, [], ◌∷◌, ◌++◌, map,
}
use kai_resource_management.Objects.{Labels}
use kai_resource_management.Effects.{◌>>=◌, ◌>>◌, give, attempt}
use kai_resource_management.NodePools.{
  NodePoolsConfig, Node, Pool, NodePatch, Cluster, OnNode, with_node, send_node_patch, has_label,
}
use kai_resource_management.NodePools.Pods.{are_pods_running_with_node_pool}

abbrev added : String × String → String × Option String
added (key, value) = (key, some value)

abbrev removed : String → String × Option String
removed key = (key, none)

-- `updateNodeLabelsPatchBytes`: what is removed comes first, since it overwrites what is added.
abbrev pub labels_patch : (to_add : Labels) → (to_remove : List String) → NodePatch
labels_patch to_add to_remove = record {
  labels = map removed to_remove ++ map added to_add;
  annotations = [];
  unschedulable = none;
}

abbrev pub marked_unschedulable : String
marked_unschedulable = "true"

module _ (cfg : NodePoolsConfig) where
  abbrev pub unschedulable_patch : Bool → NodePatch
  unschedulable_patch to_mark = record {
    labels =
        (cfg.unschedulable_label_key, if to_mark then some marked_unschedulable else none) ∷ [];
    annotations = [];
    unschedulable = some to_mark;
  }

  abbrev pub matches_pool : Labels → Pool → Bool
  matches_pool labels pool = is_value (lookup pool.label_key labels)
    where
      is_value : Option String → Bool
      is_value none = false
      is_value (some value) = value == pool.label_value

  unfoldable pub find_matching_node_pool_from_list : Labels → List Pool → String
  find_matching_node_pool_from_list labels [] = cfg.default_nodepool_name
  find_matching_node_pool_from_list labels (pool ∷ pools) =
      if matches_pool labels pool then pool.name else find_matching_node_pool_from_list labels pools

  module _ (cluster : Cluster) where
    abbrev pub update_node_labels : Labels → List String → OnNode (Unit {0})
    update_node_labels to_add to_remove = send_node_patch cluster (labels_patch to_add to_remove)

    abbrev holds : Option String → String → Bool
    holds none name = false
    holds (some value) name = value == name

    -- The labels to change, where the node does not say already that it is in the node pool.
    abbrev pub node_pool_label_change : Labels → String → Option (Labels × List String)
    node_pool_label_change labels node_pool =
        let found = lookup cfg.node_pool_name_label labels in
        if node_pool == cfg.default_nodepool_name
        then (if is_some found then some ([], cfg.node_pool_name_label ∷ []) else none)
        else (if holds found node_pool
            then none
            else some ((cfg.node_pool_name_label, node_pool) ∷ [], []))

    abbrev pub update_labels_if_needed : Option (Labels × List String) → OnNode (Unit {0})
    update_labels_if_needed none = give (ok tt)
    update_labels_if_needed (some (to_add, to_remove)) = update_node_labels to_add to_remove

    unfoldable pub update_node_with_node_pool_name_if_needed : String → OnNode (Unit {0})
    update_node_with_node_pool_name_if_needed node_pool =
        with_node λ node. update_labels_if_needed (node_pool_label_change node.labels node_pool)

    abbrev pub validate_node_labeled_with_unschedulable : Bool → OnNode (Unit {0})
    validate_node_labeled_with_unschedulable to_mark = with_node λ node.
        let found = has_label cfg.unschedulable_label_key node.labels in
        if to_mark
        then (if found
            then give (ok tt)
            else update_node_labels ((cfg.unschedulable_label_key, marked_unschedulable) ∷ []) [])
        else (if not found
            then give (ok tt)
            else update_node_labels [] (cfg.unschedulable_label_key ∷ []))

    abbrev pub patch_node_unschedulable : Bool → OnNode (Unit {0})
    patch_node_unschedulable to_mark = send_node_patch cluster (unschedulable_patch to_mark)

    abbrev pub bool_eq : Bool → Bool → Bool
    bool_eq true b = b
    bool_eq false b = not b

    -- A failure to set or remove the label alone is only logged.
    unfoldable pub update_node_unschedulable_if_needed : Bool → OnNode (Unit {0})
    update_node_unschedulable_if_needed to_mark = with_node λ node.
        if bool_eq node.unschedulable to_mark
        then attempt (validate_node_labeled_with_unschedulable to_mark) >> give (ok tt)
        else if not to_mark && not (has_label cfg.unschedulable_label_key node.labels)
        then give (ok tt)
        else patch_node_unschedulable to_mark

    abbrev pub are_pods_running : (node_pool : String) → (same_node_pool : Bool) → OnNode Bool
    are_pods_running node_pool same_node_pool t =
        (are_pods_running_with_node_pool cfg cluster t.sent t.node.name node_pool same_node_pool, t)

    abbrev pub mark_by_pods : (running : Bool) → OnNode Bool
    mark_by_pods running =
        if not running
        then update_node_unschedulable_if_needed false >> give (ok true)
        else update_node_unschedulable_if_needed true >> give (ok false)

    unfoldable pub validate_node_status_when_changing_node_pool : String → OnNode Bool
    validate_node_status_when_changing_node_pool old = are_pods_running old true >>= mark_by_pods

    unfoldable pub validate_node_status_in_node_pool : String → OnNode Bool
    validate_node_status_in_node_pool node_pool = are_pods_running node_pool false >>= mark_by_pods

    abbrev pub unschedulable_error : Node → Err
    unschedulable_error node = invalid node.name

    abbrev pub validate_node_status_in_node_pool_wrapper : String → OnNode (Unit {0})
    validate_node_status_in_node_pool_wrapper node_pool =
        validate_node_status_in_node_pool node_pool >>= λ schedulable.
        with_node λ node. give (if schedulable then ok tt else err (unschedulable_error node))

    -- `newNodePoolName`, or the one that matches where it is empty.
    abbrev pub move_node : (new : String) → List Pool → OnNode (Unit {0})
    move_node new available = with_node λ node.
        update_node_with_node_pool_name_if_needed
          (if new == "" then find_matching_node_pool_from_list node.labels available else new)

    -- The two results of the Go function: `schedulable` and the error.
    abbrev pub after_validation :
        (new : String) → List Pool → Result Bool → OnNode (Bool × Result (Unit {0}))
    after_validation new available (ok true) =
        attempt (move_node new available) >>= λ moved. give (ok (true, moved))
    after_validation new available (ok false) = give (ok (false, ok tt))
    after_validation new available (err e) = give (ok (false, err e))
    after_validation new available panic = give panic

    unfoldable pub change_node_pool_for_node_generic :
        (new old : String) → List Pool → OnNode (Bool × Result (Unit {0}))
    change_node_pool_for_node_generic new old available =
        attempt (validate_node_status_when_changing_node_pool old)
        >>= after_validation new available
