-- ===== src/NodePools/Moving.antt =====
-- What a change of node pool leaves of a node (changeNodePoolForNodeGeneric of node_handler.go).
use kai_resource_management.Prelude.{
  ◌==◌, if◌then◌else◌, Bool-cases, Option-cases, All, lookup, Err, Result, ok, err, panic, String,
  eq_iff, eq_refl, ◌≡◌, refl, sym, ◌∙◌, ◌≢◌, ◌⊎◌, inl, inr, Bool, true, false, Option, none, some,
  List, [], ◌∷◌, arith,
}
use kai_resource_management.Objects.{Labels}
use kai_resource_management.Effects.{continue, give, caught}
use kai_resource_management.NodePools.{NodePoolsConfig, Node, Pool, Cluster, Turn}
use kai_resource_management.NodePools.Pods.{are_pods_running_with_node_pool}
use kai_resource_management.NodePools.Drain.{
  labels_patch, find_matching_node_pool_from_list, node_pool_label_change,
  update_node_with_node_pool_name_if_needed, validate_node_status_when_changing_node_pool,
  after_validation, change_node_pool_for_node_generic,
}
use kai_resource_management.NodePools.Reading.{reading-IsSafe}
use kai_resource_management.NodePools.Merging.{
  lookup_patched, Merges, Accepts, send_node_patch-cases,
}
use kai_resource_management.NodePools.Held.{IsHeld, held-ne_free}
use kai_resource_management.NodePools.Destination.{IsTarget, found-IsTarget}
use kai_resource_management.NodePools.Marked.{IsSameNode, EndsMarked, update-EndsMarked}

module _ (cfg : NodePoolsConfig) where
  -- The node is the same but for the mark, and it is unschedulable or the call reports an error.
  abbrev pub HasStayed : Node → Result (Bool × Result (Unit {0})) × Turn → Type 0
  HasStayed node r =
      IsSameNode cfg node r.1.node
      × (((r.0 ≡ ok (false, ok tt)) × (r.1.node.unschedulable ≡ true))
          ⊎ ((e : Err) × (r.0 ≡ ok (false, err e))))

  -- The node pool label says that the node is in the node pool.
  abbrev pub IsIn : String → Node → Type 0
  IsIn node_pool node =
      lookup cfg.node_pool_name_label node.labels
      ≡ (if node_pool == cfg.default_nodepool_name then none else some node_pool)

  abbrev pub HasMoved : String → Node → Result (Bool × Result (Unit {0})) × Turn → Type 0
  HasMoved node_pool node r =
      (r.0 ≡ ok (true, ok tt)) × IsIn node_pool r.1.node × (r.1.node.name ≡ node.name)

  -- Without the mark, a node matches the same node pools.
  find_matching-same :
      (labels later : Labels) (pools : List Pool)
      → All (λ pool. cfg.unschedulable_label_key ≢ pool.label_key) pools
      → ((key : String) → cfg.unschedulable_label_key ≢ key → lookup key later ≡ lookup key labels)
      → find_matching_node_pool_from_list cfg later pools
        ≡ find_matching_node_pool_from_list cfg labels pools
  unfolding find_matching_node_pool_from_list
  find_matching-same labels later [] other same = refl
  find_matching-same labels later (pool ∷ pools) other same =
      rw (same pool.label_key other.0, find_matching-same labels later pools other.1 same) refl

module _ (cfg : NodePoolsConfig) (cluster : Cluster) (merges : Merges cluster) where
  marked-HasStayed :
      (t : Turn) (r : Result (Unit {0}) × Turn)
      → EndsMarked cfg cluster merges true t.node r
      → (new : String) (available : List Pool)
      → HasStayed cfg t.node (
          let (marked, t') = (let (u, t'') = r in continue u (λ _. give (ok false)) t'') in
          continue (caught marked) (after_validation cfg cluster new available) t')
  marked-HasStayed t (u, t') (same, inl done, marks) new available =
      rw (done) (same, inl (refl, marks done refl))
  marked-HasStayed t (u, t') (same, inr (e, failed, _), marks) new available =
      rw (failed) (same, inr (e, refl))

  unread_HasStayed :
      (new old : String) (available : List Pool) (t : Turn)
      → are_pods_running_with_node_pool cfg cluster t.sent t.node.name old true ≢ ok false
      → HasStayed cfg t.node (change_node_pool_for_node_generic cfg cluster new old available t)
  unfolding change_node_pool_for_node_generic validate_node_status_when_changing_node_pool
  unread_HasStayed new old available t running =
      of_reading (are_pods_running_with_node_pool cfg cluster t.sent t.node.name old true) refl
    where
      of_reading :
          (reading : Result Bool)
          → are_pods_running_with_node_pool cfg cluster t.sent t.node.name old true ≡ reading
          → HasStayed cfg t.node (change_node_pool_for_node_generic cfg cluster new old available t)
      of_reading (ok true) same =
          rw (same)
            (marked-HasStayed t _ (update-EndsMarked cfg cluster merges true t) new available)
      of_reading (ok false) same = absurd (running same)
      of_reading (err e) same = rw (same) ((refl, λ key other. refl), inr (e, refl))
      of_reading panic same =
          absurd (let k = reading-IsSafe cfg cluster t.sent t.node.name old true in rw same at k)

  -- While a pod with the node pool label of its readable pod group is listed on the node under its old node
  -- pool, or the pods cannot be listed, the node keeps its name and all labels but the mark; the call
  -- reports an error, or the node is unschedulable. The listed pods of a pod group of that name are
  -- in one namespace. The server applies the merge patches that it accepts.
  pub running_stays :
      (new old : String) (available : List Pool) (t : Turn)
      → IsHeld cfg cluster t.sent t.node.name old
      → HasStayed cfg t.node (change_node_pool_for_node_generic cfg cluster new old available t)
  running_stays new old available t held =
      unread_HasStayed new old available t (held-ne_free cfg cluster t.sent t.node.name old held)

  -- Where no label is to change, the node is in the node pool already.
  unchanged_IsIn :
      (labels : Labels) (node_pool : String)
      → node_pool_label_change cfg cluster labels node_pool ≡ none
      → lookup cfg.node_pool_name_label labels
        ≡ (if node_pool == cfg.default_nodepool_name then none else some node_pool)
  unchanged_IsIn labels node_pool h = elim (Option-cases (lookup cfg.node_pool_name_label labels)) [
    | inl e ↦ ground arith
    | inr (value, e) ↦ ground (arith, eq_iff value node_pool)
  ]

  -- The labels that are changed put the node in the node pool.
  changed_IsIn :
      (labels : Labels) (node_pool : String) (change : Labels × List String)
      → node_pool_label_change cfg cluster labels node_pool ≡ some change
      → lookup_patched cfg.node_pool_name_label labels (labels_patch change.0 change.1).labels
        ≡ (if node_pool == cfg.default_nodepool_name then none else some node_pool)
  changed_IsIn labels node_pool change h =
      elim (Bool-cases (node_pool == cfg.default_nodepool_name)) [
        | inl d ↦
            let e : change ≡ ([], cfg.node_pool_name_label ∷ []) = ground arith in
            rw (e, d, eq_refl cfg.node_pool_name_label) refl
        | inr d ↦
            let e : change ≡ ((cfg.node_pool_name_label, node_pool) ∷ [], []) = ground arith in
            rw (e, d, eq_refl cfg.node_pool_name_label) refl
      ]

  rename-accepted :
      (node_pool : String) (t : Turn)
      → Accepts cluster
      → ((update_node_with_node_pool_name_if_needed cfg cluster node_pool t).0 ≡ ok tt)
        × IsIn cfg node_pool
            (update_node_with_node_pool_name_if_needed cfg cluster node_pool t).1.node
        × ((update_node_with_node_pool_name_if_needed cfg cluster node_pool t).1.node.name
            ≡ t.node.name)
  unfolding update_node_with_node_pool_name_if_needed
  rename-accepted node_pool t accepts =
      of_change (node_pool_label_change cfg cluster t.node.labels node_pool) refl
    where
      of_change :
          (change : Option (Labels × List String))
          → node_pool_label_change cfg cluster t.node.labels node_pool ≡ change
          → ((update_node_with_node_pool_name_if_needed cfg cluster node_pool t).0 ≡ ok tt)
            × IsIn cfg node_pool
                (update_node_with_node_pool_name_if_needed cfg cluster node_pool t).1.node
            × ((update_node_with_node_pool_name_if_needed cfg cluster node_pool t).1.node.name
                ≡ t.node.name)
      of_change none same = rw (same) (refl, unchanged_IsIn t.node.labels node_pool same, refl)
      of_change (some (to_add, to_remove)) same =
          elim (send_node_patch-cases cluster merges (labels_patch to_add to_remove) t) [
            | inl (patched, (name, label, mark), sent) ↦
                rw (same, sent)
                  (
                    refl,
                    label cfg.node_pool_name_label
                        ∙ changed_IsIn t.node.labels node_pool (to_add, to_remove) same,
                    name,
                  )
            | inr (e, refused, sent) ↦ absurd (refused accepts)
          ]

  moved_HasMoved :
      (t : Turn) (r : Result (Unit {0}) × Turn)
      → Accepts cluster
      → EndsMarked cfg cluster merges false t.node r
      → (new : String) (available : List Pool)
      → All (λ pool. cfg.unschedulable_label_key ≢ pool.label_key) available
      → HasMoved cfg
          (if new == "" then find_matching_node_pool_from_list cfg t.node.labels available else new)
          t.node
          (let (marked, t') = (let (u, t'') = r in continue u (λ _. give (ok true)) t'') in
            continue (caught marked) (after_validation cfg cluster new available) t')
  moved_HasMoved t (u, t') accepts (same, inr (e, failed, refused), marks) new available others =
      absurd (refused accepts)
  moved_HasMoved t (u, t') accepts (same, inl done, marks) new available others =
      let (sent, placed, name) =
        rename-accepted
          (if new == ""
            then find_matching_node_pool_from_list cfg t'.node.labels available
            else new)
          t' accepts in
      let target = find_matching-same cfg t.node.labels t'.node.labels available others same.1 in
      rw (done, sent, sym target) (refl, placed, name ∙ same.0)

  -- Where no pod of the old node pool is found on a node and the server accepts and applies the patches,
  -- the node ends in the new node pool, or where none is given in the first whose label it has, or
  -- else in the default one. No node pool's label key is the mark's.
  pub drained_moves :
      (new old : String) (available : List Pool) (t : Turn)
      → Accepts cluster
      → All (λ pool. cfg.unschedulable_label_key ≢ pool.label_key) available
      → are_pods_running_with_node_pool cfg cluster t.sent t.node.name old true ≡ ok false
      → (target : String) × IsTarget cfg new available t.node.labels target
        × HasMoved cfg target t.node
            (change_node_pool_for_node_generic cfg cluster new old available t)
  unfolding change_node_pool_for_node_generic validate_node_status_when_changing_node_pool
  drained_moves new old available t accepts others drained = (
    _,
    found-IsTarget cfg new available t.node.labels,
    rw (drained) (
        moved_HasMoved t _ accepts (update-EndsMarked cfg cluster merges false t) new available
          others),
  )
