-- ===== src/NodePools/Allowed.antt =====
-- What a reconcile of nodes may send: labels and annotations of its own, never the end of a mark that
-- another has set, and no panic.
use kai_resource_management.Prelude.{
  ◌==◌, Bool-cases, All, ok, String, ◌≡◌, refl, ◌⊎◌, inl, inr, Bool, true, false, not, ◌&&◌, Option,
  none, some, List, [], ◌∷◌, arith,
}
use kai_resource_management.Objects.{Labels, Answer, reply, fail}
use kai_resource_management.Effects.{give}
use kai_resource_management.Effects.Rules.{Ends}
use kai_resource_management.Effects.Keeping.{Keeps, give-Keeps, attempt-Keeps}
use kai_resource_management.NodePools.{
  NodePoolsConfig, Node, MergePatch, NodePatch, ConditionPatch, upsert_condition, delete_condition,
  Patch, patch_node, patch_node_status, patch_pool_finalizers, patch_pool_status,
  patch_pool_annotations, Cluster, Turn, OnNode, replaced_by, send_node_patch, send_condition_patch,
  has_label,
}
use kai_resource_management.NodePools.Drain.{
  labels_patch, marked_unschedulable, unschedulable_patch, update_node_labels,
  node_pool_label_change, update_labels_if_needed, update_node_with_node_pool_name_if_needed,
  validate_node_labeled_with_unschedulable, bool_eq, update_node_unschedulable_if_needed,
}
use kai_resource_management.NodePools.Nrt.{nrt_healthy_condition_type}
use kai_resource_management.NodePools.Annotations.{gpu_network_acceleration_label_key}

abbrev pub kind_of : ConditionPatch → String
kind_of (upsert_condition condition) = condition.condition_type
kind_of (delete_condition kind) = kind

abbrev pub OnlyKeys : (first second : String) → MergePatch → Type 0
OnlyKeys first second patch = All (λ change. (change.0 ≡ first) ⊎ (change.0 ≡ second)) patch

-- A patch of the node pool label, the mark and the two annotations of a node, which makes it
-- schedulable only where it has the mark; or one of its NRT condition; or
-- a status of a node pool.
abbrev pub IsOurs : NodePoolsConfig → Patch → Type 0
IsOurs cfg (patch_node node patch) =
    OnlyKeys cfg.node_pool_name_label cfg.unschedulable_label_key patch.labels
    × OnlyKeys gpu_network_acceleration_label_key cfg.topology_manager_policy_annotation
        patch.annotations
    × (patch.unschedulable ≡ some false → has_label cfg.unschedulable_label_key node.labels ≡ true)
IsOurs cfg (patch_node_status node patch) = kind_of patch ≡ nrt_healthy_condition_type
IsOurs cfg (patch_pool_finalizers _ _) = ⊥
IsOurs cfg (patch_pool_status _ _) = Unit
IsOurs cfg (patch_pool_annotations _ _) = ⊥

abbrev pub AllOurs : NodePoolsConfig → List Patch → Type 0
AllOurs cfg sent = All (IsOurs cfg) sent

module _ (cfg : NodePoolsConfig) (cluster : Cluster) where
  abbrev pub OursIn : Turn → Type 0
  OursIn t = AllOurs cfg t.sent

  abbrev pub KeepsTurn : {A : Type 0} → OnNode A → Type 0
  KeepsTurn m = Keeps OursIn m

  -- A patch is sent for the node in hand.
  pub send-KeepsTurn :
      (t : Turn) (patch : NodePatch)
      → IsOurs cfg (patch_node t.node patch)
      → OursIn t
      → Ends OursIn (λ _. Unit) (send_node_patch cluster patch t)
  send-KeepsTurn t patch ours i = of_answer (cluster.perform t.sent t.node patch)
    where
      of_answer :
          (answer : Answer Node)
          → Ends OursIn
              (λ _. Unit)
              (replaced_by (record t { sent = patch_node t.node patch ∷ t.sent }) answer)
      of_answer (reply node) = ((ours, i), tt)
      of_answer (fail e) = (ours, i)

  pub send_condition-KeepsTurn :
      (patch : ConditionPatch)
      → kind_of patch ≡ nrt_healthy_condition_type
      → KeepsTurn (send_condition_patch cluster patch)
  send_condition-KeepsTurn patch ours t i = of_answer (cluster.perform_status t.sent t.node patch)
    where
      of_answer :
          (answer : Answer Node)
          → Ends OursIn
              (λ _. Unit)
              (replaced_by (record t { sent = patch_node_status t.node patch ∷ t.sent }) answer)
      of_answer (reply node) = ((ours, i), tt)
      of_answer (fail e) = (ours, i)

  pub labels-KeepsTurn :
      (to_add : Labels) (to_remove : List String)
      → OnlyKeys cfg.node_pool_name_label cfg.unschedulable_label_key
          (labels_patch to_add to_remove).labels
      → KeepsTurn (update_node_labels cfg cluster to_add to_remove)
  labels-KeepsTurn to_add to_remove only t i =
      send-KeepsTurn t (labels_patch to_add to_remove) (only, tt, λ k. absurd (cc)) i

  change-OnlyKeys :
      (labels : Labels) (node_pool : String) (change : Labels × List String)
      → node_pool_label_change cfg cluster labels node_pool ≡ some change
      → OnlyKeys cfg.node_pool_name_label cfg.unschedulable_label_key
          (labels_patch change.0 change.1).labels
  change-OnlyKeys labels node_pool change h =
      elim (Bool-cases (node_pool == cfg.default_nodepool_name)) [
        | inl d ↦
            let e : change ≡ ([], cfg.node_pool_name_label ∷ []) = ground arith in
            rw (e) (inl refl, tt)
        | inr d ↦
            let e : change ≡ ((cfg.node_pool_name_label, node_pool) ∷ [], []) = ground arith in
            rw (e) (inl refl, tt)
      ]

  pub rename-KeepsTurn :
      (node_pool : String)
      → KeepsTurn (update_node_with_node_pool_name_if_needed cfg cluster node_pool)
  unfolding update_node_with_node_pool_name_if_needed
  rename-KeepsTurn node_pool t i =
      of_change t.node (node_pool_label_change cfg cluster t.node.labels node_pool) refl t i
    where
      of_change :
          (node : Node) (change : Option (Labels × List String))
          → node_pool_label_change cfg cluster node.labels node_pool ≡ change
          → KeepsTurn (update_labels_if_needed cfg cluster change)
      of_change node none same = give-Keeps OursIn (ok tt) tt
      of_change node (some change) same =
          labels-KeepsTurn change.0 change.1 (change-OnlyKeys node.labels node_pool change same)

  pub label_mark-KeepsTurn :
      (to_mark : Bool) → KeepsTurn (validate_node_labeled_with_unschedulable cfg cluster to_mark)
  label_mark-KeepsTurn true t i =
      elim (Bool-cases (has_label cfg.unschedulable_label_key t.node.labels)) [
        | inl found ↦ rw (found) (i, tt)
        | inr missing ↦ rw (missing) (
            labels-KeepsTurn ((cfg.unschedulable_label_key, marked_unschedulable) ∷ []) []
              (inr refl, tt) t i)
      ]
  label_mark-KeepsTurn false t i =
      elim (Bool-cases (has_label cfg.unschedulable_label_key t.node.labels)) [
        | inl found ↦
            rw (found) (labels-KeepsTurn [] (cfg.unschedulable_label_key ∷ []) (inr refl, tt) t i)
        | inr missing ↦ rw (missing) (i, tt)
      ]

  pub mark-KeepsTurn :
      (to_mark : Bool) → KeepsTurn (update_node_unschedulable_if_needed cfg cluster to_mark)
  unfolding update_node_unschedulable_if_needed
  mark-KeepsTurn to_mark t i =
      elim (Bool-cases (bool_eq cfg cluster t.node.unschedulable to_mark)) [
        | inl same ↦ rw (same) (
            attempt-Keeps OursIn (validate_node_labeled_with_unschedulable cfg cluster to_mark)
              (λ _. give (ok tt)) (label_mark-KeepsTurn to_mark)
              (λ _ _. give-Keeps OursIn (ok tt) tt) t i)
        | inr differs ↦
            elim (Bool-cases
              (not to_mark && not (has_label cfg.unschedulable_label_key t.node.labels))) [
                | inl not_ours ↦ rw (differs, not_ours) (i, tt)
                | inr ours ↦
                    rw (differs, ours)
                      (send-KeepsTurn t (unschedulable_patch cfg to_mark)
                        ((inr refl, tt), tt, λ k. ground arith) i)
              ]
      ]
