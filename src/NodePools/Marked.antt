-- ===== src/NodePools/Marked.antt =====
-- What a node is like once it is marked or unmarked (updateNodeUnschedulableIfNeeded of node_handler.go and
-- node_status_handler.go).
use kai_resource_management.Prelude.{
  if◌then◌else◌, Bool-cases, lookup, Err, Result, ok, err, String, eq_iff, ◌≡◌, refl, ◌∙◌, ◌≢◌, ◌⊎◌,
  inl, inr, Bool, true, false, not, ◌&&◌, List, [], ◌∷◌, arith,
}
use kai_resource_management.Objects.{Labels}
use kai_resource_management.Effects.{◌>>◌, give, attempt}
use kai_resource_management.NodePools.{NodePoolsConfig, Node, Cluster, Turn, has_label}
use kai_resource_management.NodePools.Drain.{
  labels_patch, marked_unschedulable, unschedulable_patch, update_node_labels,
  validate_node_labeled_with_unschedulable, patch_node_unschedulable, bool_eq,
  update_node_unschedulable_if_needed,
}
use kai_resource_management.NodePools.Merging.{
  lookup_patched, Merges, Accepts, send_node_patch-cases,
}

module _ (cfg : NodePoolsConfig) where
  -- What marking a node leaves: the node's name and its other labels.
  abbrev pub IsSameNode : Node → Node → Type 0
  IsSameNode node later =
      (later.name ≡ node.name)
      × ((key : String)
          → cfg.unschedulable_label_key ≢ key
          → lookup key later.labels ≡ lookup key node.labels)

module _ (cfg : NodePoolsConfig) (cluster : Cluster) (merges : Merges cluster) where
  -- The outcome of a mark, which fails only where the server refuses it.
  abbrev pub EndsMarked : Bool → Node → Result (Unit {0}) × Turn → Type 0
  EndsMarked to_mark node r =
      IsSameNode cfg node r.1.node
      × ((r.0 ≡ ok tt) ⊎ ((e : Err) × (r.0 ≡ err e) × (¬ Accepts cluster)))
      × (r.0 ≡ ok tt → to_mark ≡ true → r.1.node.unschedulable ≡ true)

  patch-EndsMarked :
      (to_mark : Bool) (t : Turn)
      → EndsMarked to_mark t.node (patch_node_unschedulable cfg cluster to_mark t)
  patch-EndsMarked to_mark t =
      elim (send_node_patch-cases cluster merges (unschedulable_patch cfg to_mark) t) [
        | inl (patched, (name, label, mark), same) ↦ rw (same) (
          (name, λ key other. ground (arith, label key, eq_iff cfg.unschedulable_label_key key)),
          inl refl,
          λ _ e. ground arith,
        )
        | inr (e, refused, same) ↦
            rw (same) ((refl, λ key other. refl), inr (e, refl, refused), λ k. absurd (cc))
      ]

  -- A patch of the unschedulable label alone, whose failure is only logged.
  relabel-EndsMarked :
      (to_mark : Bool) (to_add : Labels) (to_remove : List String) (t : Turn)
      → ((key : String)
          → cfg.unschedulable_label_key ≢ key
          → lookup_patched key t.node.labels (labels_patch to_add to_remove).labels
            ≡ lookup key t.node.labels)
      → (to_mark ≡ true → t.node.unschedulable ≡ true)
      → EndsMarked to_mark t.node
          ((attempt (update_node_labels cfg cluster to_add to_remove) >> give (ok tt)) t)
  relabel-EndsMarked to_mark to_add to_remove t kept marked =
      elim (send_node_patch-cases cluster merges (labels_patch to_add to_remove) t) [
        | inl (patched, (name, label, mark), same) ↦
            rw (same)
              ((name, λ key other. label key ∙ kept key other), inl refl, λ _ e. mark ∙ marked e)
        | inr (e, _, same) ↦ rw (same) ((refl, λ key other. refl), inl refl, λ _ k. marked k)
      ]

  idle-EndsMarked :
      (to_mark : Bool) (t : Turn)
      → (to_mark ≡ true → t.node.unschedulable ≡ true)
      → EndsMarked to_mark t.node (ok tt, t)
  idle-EndsMarked to_mark t marked = ((refl, λ key other. refl), inl refl, λ _ k. marked k)

  pub update-EndsMarked :
      (to_mark : Bool) (t : Turn)
      → EndsMarked to_mark t.node (update_node_unschedulable_if_needed cfg cluster to_mark t)
  unfolding update_node_unschedulable_if_needed
  update-EndsMarked to_mark t =
      elim (Bool-cases (bool_eq cfg cluster t.node.unschedulable to_mark)) [
        | inl same ↦ rw (same) (agreeing to_mark same)
        | inr differs ↦ rw (differs) (differing to_mark)
      ]
    where
      agreeing :
          (to_mark : Bool)
          → bool_eq cfg cluster t.node.unschedulable to_mark ≡ true
          → EndsMarked to_mark t.node (
              (attempt (validate_node_labeled_with_unschedulable cfg cluster to_mark)
                  >> give (ok tt))
                t)
      agreeing true same = elim (Bool-cases (has_label cfg.unschedulable_label_key t.node.labels)) [
        | inl found ↦ rw (found) (idle-EndsMarked true t (λ _. ground arith))
        | inr missing ↦ rw (missing) (
            relabel-EndsMarked true ((cfg.unschedulable_label_key, marked_unschedulable) ∷ []) [] t
              (λ key other. ground (arith, eq_iff cfg.unschedulable_label_key key))
              (λ _. ground arith))
      ]
      agreeing false same =
          elim (Bool-cases (has_label cfg.unschedulable_label_key t.node.labels)) [
            | inl found ↦ rw (found) (
                relabel-EndsMarked false [] (cfg.unschedulable_label_key ∷ []) t
                  (λ key other. ground (arith, eq_iff cfg.unschedulable_label_key key))
                  (λ k. absurd (cc)))
            | inr missing ↦ rw (missing) (idle-EndsMarked false t (λ k. absurd (cc)))
          ]

      differing :
          (to_mark : Bool)
          → EndsMarked to_mark t.node (
              (if not to_mark && not (has_label cfg.unschedulable_label_key t.node.labels)
                  then give (ok tt)
                  else patch_node_unschedulable cfg cluster to_mark)
                t)
      differing true = patch-EndsMarked true t
      differing false = elim (Bool-cases (has_label cfg.unschedulable_label_key t.node.labels)) [
        | inl found ↦ rw (found) (patch-EndsMarked false t)
        | inr missing ↦ rw (missing) (idle-EndsMarked false t (λ k. absurd (cc)))
      ]
