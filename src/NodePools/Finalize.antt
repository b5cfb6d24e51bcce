-- ===== src/NodePools/Finalize.antt =====
-- What the controller does with a node pool besides its nodes: finalizer.go, the deletion of
-- nodepool_handler.go, the writes of nodepool_status_handler.go, nodepool_reconciler.go, and Reconcile
-- of nodepool_controller.go.
use kai_resource_management.Prelude.{
  ◌==◌, ◌!=◌, if◌then◌else◌, filter, lookup, Err, invalid, Result, ok, err, panic, is_not_found,
  String, Bool, true, false, not, Option, none, some, List, [], ◌∷◌, ◌++◌,
}
use kai_resource_management.Objects.{NodePoolPhase, deleting, Answer, reply, fail, lift}
use kai_resource_management.Effects.{◌>>=◌, ◌>>◌, give, attempt}
use kai_resource_management.NodePools.{
  NodePoolsConfig, Node, NodePoolStatus, Pool, Patch, patch_pool_finalizers, patch_pool_status,
  patch_pool_annotations, Cluster, OnNode, Sending, send_pool_patch,
}
use kai_resource_management.NodePools.Drain.{update_node_labels, change_node_pool_for_node_generic}
use kai_resource_management.NodePools.Texts.{is_item_in_list, delete_from_list}
use kai_resource_management.NodePools.Annotations.{
  get_gpu_network_acceleration_detection, calculate_gpu_network_acceleration_detected,
}
use kai_resource_management.NodePools.Reconcile.{
  Outcomes, errors_of, for_each_node, recovering, unless_empty, available_node_pools,
  node_pool_nodes, nodes_of_pool, reconcile_nodes,
}
use kai_resource_management.NodePools.StatusEqual.{is_status_equal}
use kai_resource_management.NodePools.Calculation.{
  with_nodes, calculate_node_pool_status, get_node_pool_deletion_status,
}

-- `DeleteFromNodePoolList`.
abbrev pub delete_from_node_pool_list : List Pool → Pool → List Pool
delete_from_node_pool_list pools gone = filter (λ pool. pool.name != gone.name) pools

-- The error that a function makes of the errors it has gathered.
abbrev pub gathered_error : List Err → Result (Unit {0})
gathered_error [] = ok tt
gathered_error (e ∷ _) = err e

module _ (cfg : NodePoolsConfig) (cluster : Cluster) where
  unfoldable pub add_controller_as_finalizer_if_needed : Pool → Sending (Unit {0})
  add_controller_as_finalizer_if_needed pool =
      if is_item_in_list pool.finalizers cfg.finalizer_name
      then give (ok tt)
      else send_pool_patch cluster
          (patch_pool_finalizers pool.name (pool.finalizers ++ cfg.finalizer_name ∷ []))

  abbrev pub unless_gone : Result (Unit {0}) → Result (Unit {0})
  unless_gone (ok u) = ok u
  unless_gone (err e) = if is_not_found e then ok tt else err e
  unless_gone panic = panic

  abbrev pub delete_finalizer : Pool → Sending (Unit {0})
  delete_finalizer pool =
      attempt (
        send_pool_patch cluster
          (patch_pool_finalizers pool.name (delete_from_list pool.finalizers cfg.finalizer_name)))
      >>= λ r. give (unless_gone r)

  abbrev pub unlabel_node : Node → OnNode (List Err)
  unlabel_node node =
      attempt (update_node_labels cfg cluster [] (cfg.node_pool_name_label ∷ [])) >>= λ unlabelled.
      give (ok (errors_of unlabelled))

  abbrev pub cleanup_deleted_node_pool : Pool → Sending Outcomes
  cleanup_deleted_node_pool pool =
      recovering (node_pool_nodes cfg cluster pool.name >>= for_each_node unlabel_node)

  -- A missing owner counts as uninstalled, any other error does not.
  abbrev owner_is_gone : Answer Bool → Bool
  owner_is_gone (reply being_deleted) = being_deleted
  owner_is_gone (fail e) = is_not_found e

  abbrev pub is_uninstalled : List Patch → Bool
  is_uninstalled sent = of_owner cluster.uninstall_owner
    where
      of_owner : Option (List Patch → Answer Bool) → Bool
      of_owner none = false
      of_owner (some read) = owner_is_gone (read sent)

  abbrev pub reassign_node : Pool → List Pool → Node → OnNode (List Err)
  reassign_node pool pools node =
      change_node_pool_for_node_generic cfg cluster "" pool.name pools >>= λ changed.
      give (ok (errors_of changed.1))

  unfoldable pub reassign_node_for_deleting_node_pool : Pool → Sending Outcomes
  reassign_node_for_deleting_node_pool pool = recovering (
      node_pool_nodes cfg cluster pool.name
      >>= unless_empty (λ nodes. available_node_pools cfg cluster >>= λ pools.
          for_each_node (reassign_node pool (delete_from_node_pool_list pools pool)) nodes))

  unfoldable pub update_node_pool_status_if_needed :
      (updated : NodePoolStatus) → Pool → Sending (Unit {0})
  update_node_pool_status_if_needed updated pool =
      if not (is_status_equal updated pool.status)
      then send_pool_patch cluster (patch_pool_status pool.name updated)
      else give (ok tt)

  -- The nodes' statuses are calculated on the node pool that the copy is compared with.
  unfoldable pub update_node_pool_status_on_deletion_error : Pool → List Node → Sending (Unit {0})
  update_node_pool_status_on_deletion_error pool nodes sent =
      update_node_pool_status_if_needed
        (record pool.status { phase = deleting; message = "Error Deleting NodePool" })
        (record pool { status = with_nodes cfg cluster sent nodes pool.status }) sent

  -- The phase, and the errors.
  abbrev pub update_node_pool_status_on_deletion :
      Pool → List Node → Sending (NodePoolPhase × List Err)
  update_node_pool_status_on_deletion pool nodes sent =
      let (status, errors) = get_node_pool_deletion_status cfg cluster sent pool nodes in
      (attempt (update_node_pool_status_if_needed status pool) >>= λ updated.
      give (ok (status.phase, errors ++ errors_of updated)))
        sent

  abbrev pub deleting_error : Pool → Err
  deleting_error pool = invalid pool.name

  abbrev is_deleting_phase : NodePoolPhase → Bool
  is_deleting_phase deleting = true
  is_deleting_phase _ = false

  abbrev pub end_of_deletion : Pool → NodePoolPhase × List Err → Sending (Unit {0})
  end_of_deletion pool (phase, e ∷ _) = give (err e)
  end_of_deletion pool (phase, []) =
      if not (is_deleting_phase phase)
      then delete_finalizer pool
      else give (err (deleting_error pool))

  abbrev pub after_reassignment : Pool → Outcomes → Sending (Unit {0})
  after_reassignment pool (nodes, e ∷ _) =
      attempt (update_node_pool_status_on_deletion_error pool nodes) >> give (err e)
  after_reassignment pool (nodes, []) =
      update_node_pool_status_on_deletion pool nodes >>= end_of_deletion pool

  abbrev pub force_deletion : Pool → Sending (Unit {0})
  force_deletion pool =
      attempt (delete_finalizer pool) >> attempt (cleanup_deleted_node_pool pool) >> give (ok tt)

  unfoldable pub finalize : Pool → Sending (Unit {0})
  finalize pool sent =
      if not (is_item_in_list pool.finalizers cfg.finalizer_name)
      then (ok tt, sent)
      else if is_uninstalled sent
      then force_deletion pool sent
      else (reassign_node_for_deleting_node_pool pool >>= after_reassignment pool) sent

  -- `updateAnnotationStatusFields`.
  abbrev pub bool_text : Bool → String
  bool_text true = "true"
  bool_text false = "false"

  abbrev has_value : Option String → String → Bool
  has_value none value = false
  has_value (some current) value = current == value

  unfoldable pub update_annotation_status_fields : Pool → List Node → Sending (Unit {0})
  update_annotation_status_fields pool nodes =
      let detected = bool_text (calculate_gpu_network_acceleration_detected cfg pool nodes) in
      if get_gpu_network_acceleration_detection cfg pool == ""
      then give (ok tt)
      else if has_value (lookup cfg.gpu_detected_annotation pool.annotations) detected
      then give (ok tt)
      else send_pool_patch cluster
          (patch_pool_annotations pool.name ((cfg.gpu_detected_annotation, some detected) ∷ []))

  abbrev pub reconcile_node_pool_status : Pool → List Node → Sending (List Err)
  reconcile_node_pool_status pool nodes sent =
      let own = nodes_of_pool cfg cluster nodes pool in
      let (status, errors) = calculate_node_pool_status cfg cluster sent pool own in
      (attempt (update_node_pool_status_if_needed status pool) >>= λ updated.
      attempt (update_annotation_status_fields (record pool { status = status }) own)
      >>= λ annotated. give (ok (errors ++ errors_of updated ++ errors_of annotated)))
        sent

  abbrev pub reconcile_scheduler : Pool → Sending (Unit {0})
  reconcile_scheduler pool sent = (lift (cluster.reconcile_scheduler sent pool), sent)

  unfoldable pub reconcile_node_pool : (nrt_enabled : Bool) → Pool → Sending (List Err)
  reconcile_node_pool nrt_enabled pool =
      reconcile_nodes cfg cluster nrt_enabled pool >>= λ reconciled.
      attempt (reconcile_scheduler pool) >>= λ scheduled.
      reconcile_node_pool_status pool reconciled.0 >>= λ errors.
      give (ok (reconciled.1 ++ errors_of scheduled ++ errors))

  abbrev pub reconcile_found : (nrt_enabled : Bool) → Answer Pool → Sending (Unit {0})
  reconcile_found nrt_enabled (fail e) = give (if is_not_found e then ok tt else err e)
  reconcile_found nrt_enabled (reply pool) =
      if not pool.being_deleted
      then (add_controller_as_finalizer_if_needed pool
          >> reconcile_node_pool nrt_enabled pool
          >>= λ errors. give (gathered_error errors))
      else finalize pool

  unfoldable pub reconcile : (nrt_enabled : Bool) → (List Patch → Answer Pool) → Sending (Unit {0})
  reconcile nrt_enabled get_pool sent = reconcile_found nrt_enabled (get_pool sent) sent
