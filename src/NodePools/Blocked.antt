-- ===== src/NodePools/Blocked.antt =====
-- A node pool that projects still use keeps its finalizer (finalize of finalizer.go).
use kai_resource_management.Prelude.{
  Bool-cases, Err, Result, ok, err, panic, IsSafe, >>=-IsSafe, String, ◌≡◌, refl, ◌≢◌, inl, inr,
  true, false, not, List, [], ◌∷◌, ◌++◌,
}
use kai_resource_management.Objects.{NodePoolPhase, deleting, lift}
use kai_resource_management.Effects.{give, attempt}
use kai_resource_management.Effects.Rules.{Ends, Runs, Runs->>=, Runs-give}
use kai_resource_management.Effects.Keeping.{give-Keeps, then-Keeps, if-Keeps, attempt-Runs}
use kai_resource_management.NodePools.{
  NodePoolsConfig, Node, NodePoolStatus, Pool, Patch, patch_pool_status, Cluster, Sending,
}
use kai_resource_management.NodePools.Pods.{node_pool_label_selector}
use kai_resource_management.NodePools.Drain.{change_node_pool_for_node_generic}
use kai_resource_management.NodePools.Texts.{is_item_in_list}
use kai_resource_management.NodePools.Reading.{lift-IsSafe}
use kai_resource_management.NodePools.Reconcile.{Outcomes, errors_of}
use kai_resource_management.NodePools.Allowed.{AllOurs, OursIn}
use kai_resource_management.NodePools.AllowedTurns.{change-KeepsTurn}
use kai_resource_management.NodePools.Nodes.{KeepsSent, listed-KeepsSent}
use kai_resource_management.NodePools.Status.{nodes_situation}
use kai_resource_management.NodePools.StatusEqual.{is_status_equal}
use kai_resource_management.NodePools.Calculation.{
  projects_referencing_node_pool, deletion_status, deletion_status_of,
}
use kai_resource_management.NodePools.Finalize.{
  delete_from_node_pool_list, is_uninstalled, reassign_node, reassign_node_for_deleting_node_pool,
  update_node_pool_status_if_needed, update_node_pool_status_on_deletion_error,
  update_node_pool_status_on_deletion, deleting_error, end_of_deletion, after_reassignment,
  finalize,
}

module _ (cfg : NodePoolsConfig) (cluster : Cluster) where
  projects-IsSafe :
      (sent : List Patch) (node_pool : String)
      → IsSafe (projects_referencing_node_pool cfg cluster sent node_pool)
  unfolding projects_referencing_node_pool
  projects-IsSafe sent node_pool =
      >>=-IsSafe (lift (cluster.list_projects sent)) _ (lift-IsSafe (cluster.list_projects sent))
        (λ _ _. tt)

  reassign-KeepsSent :
      (pool : Pool) → KeepsSent cfg cluster (reassign_node_for_deleting_node_pool cfg cluster pool)
  unfolding reassign_node_for_deleting_node_pool
  reassign-KeepsSent pool =
      listed-KeepsSent cfg cluster (node_pool_label_selector cfg pool.name ∷ [])
        (λ pools. reassign_node cfg cluster pool (delete_from_node_pool_list pools pool))
        (λ pools node.
          then-Keeps (OursIn cfg cluster)
            (change_node_pool_for_node_generic cfg cluster "" pool.name
              (delete_from_node_pool_list pools pool))
            _ (change-KeepsTurn cfg cluster "" pool.name (delete_from_node_pool_list pools pool))
            (λ changed. give-Keeps (OursIn cfg cluster) (ok (errors_of changed.1)) tt))

  status-KeepsSent :
      (updated : NodePoolStatus) (pool : Pool)
      → KeepsSent cfg cluster (update_node_pool_status_if_needed cfg cluster updated pool)
  unfolding update_node_pool_status_if_needed
  status-KeepsSent updated pool =
      if-Keeps (AllOurs cfg) (not (is_status_equal updated pool.status)) _ (give (ok tt))
        (λ _ sent i.
          give-Keeps (AllOurs cfg)
            (lift (cluster.perform_pool sent (patch_pool_status pool.name updated)))
            (lift-IsSafe (cluster.perform_pool sent (patch_pool_status pool.name updated)))
            (patch_pool_status pool.name updated ∷ sent) (tt, i))
        (λ _. give-Keeps (AllOurs cfg) (ok tt) tt)

  -- It ends with an error.
  abbrev Fails : {A : Type 0} → Sending A → Type 0
  Fails m = Runs (AllOurs cfg) (λ _. ⊥) m

  abbrev IsBlocking : NodePoolPhase × List Err → Type 0
  IsBlocking (phase, []) = phase ≡ deleting
  IsBlocking (phase, _ ∷ _) = Unit

  end-Fails :
      (pool : Pool) (found : NodePoolPhase × List Err)
      → IsBlocking found
      → Fails (end_of_deletion cfg cluster pool found)
  end-Fails pool (phase, []) h = rw (h) (
      Runs-give (AllOurs cfg) {A = Unit {0}} (λ _. ⊥) (err (deleting_error cfg cluster pool)) tt tt)
  end-Fails pool (phase, e ∷ _) h = Runs-give (AllOurs cfg) {A = Unit {0}} (λ _. ⊥) (err e) tt tt

  status-IsBlocking :
      (sent : List Patch) (pool : Pool) (nodes : List Node) (reading : Result (List String))
      (more : List Err)
      → IsSafe reading
      → reading ≢ ok []
      → let found = deletion_status_of cfg cluster sent pool nodes reading in
        IsBlocking (found.0.phase, found.1 ++ more)
  unfolding deletion_status
  status-IsBlocking sent pool nodes (ok []) more safe h = absurd (h refl)
  status-IsBlocking sent pool nodes (ok (p ∷ ps)) [] safe h =
      elim (Bool-cases (nodes_situation nodes).at_least_one_node_unschedulable) [
        | inl e ↦ rw (e) refl
        | inr e ↦ rw (e) refl
      ]
  status-IsBlocking sent pool nodes (ok (p ∷ ps)) (e ∷ es) safe h = tt
  status-IsBlocking sent pool nodes (err e) more safe h = tt
  status-IsBlocking sent pool nodes panic more safe h = absurd safe

  -- While every list of the projects that reference a node pool fails or names one, and no uninstall is
  -- going on, the deletion of the node pool ends with an error, and its finalizers are not patched.
  pub referenced_blocks :
      (pool : Pool) (sent : List Patch)
      → ((later : List Patch) → projects_referencing_node_pool cfg cluster later pool.name ≢ ok [])
      → is_item_in_list pool.finalizers cfg.finalizer_name ≡ true
      → is_uninstalled cfg cluster sent ≡ false
      → AllOurs cfg sent
      → Ends (AllOurs cfg) {A = Unit {0}} (λ _. ⊥) (finalize cfg cluster pool sent)
  unfolding finalize update_node_pool_status_on_deletion_error
  referenced_blocks pool sent referenced has_finalizer installed i =
      rw (has_finalizer, installed)
        (Runs->>= (AllOurs cfg) (λ _. Unit) (λ _. ⊥)
          (reassign_node_for_deleting_node_pool cfg cluster pool)
          (after_reassignment cfg cluster pool) (reassign-KeepsSent pool) (λ done _. blocked done)
          sent i)
    where
      blocked : (done : Outcomes) → Fails (after_reassignment cfg cluster pool done)
      blocked (nodes, e ∷ es) =
          Runs->>= (AllOurs cfg) (λ r. IsSafe r) (λ _. ⊥)
            (attempt (update_node_pool_status_on_deletion_error cfg cluster pool nodes)) _
            (attempt-Runs (AllOurs cfg)
              (update_node_pool_status_on_deletion_error cfg cluster pool nodes)
              (λ s i. status-KeepsSent _ _ s i))
            (λ _ _. Runs-give (AllOurs cfg) {A = Unit {0}} (λ _. ⊥) (err e) tt tt)
      blocked (nodes, []) =
          Runs->>= (AllOurs cfg) IsBlocking (λ _. ⊥)
            (update_node_pool_status_on_deletion cfg cluster pool nodes) _ updated (end-Fails pool)
        where
          updated :
              Runs
                (AllOurs cfg)
                IsBlocking
                (update_node_pool_status_on_deletion cfg cluster pool nodes)
          updated s i =
              let reading = projects_referencing_node_pool cfg cluster s pool.name in
              let found = deletion_status_of cfg cluster s pool nodes reading in
              Runs->>= (AllOurs cfg) (λ r. IsSafe r) IsBlocking
                (attempt (update_node_pool_status_if_needed cfg cluster found.0 pool)) _
                (attempt-Runs (AllOurs cfg)
                  (update_node_pool_status_if_needed cfg cluster found.0 pool)
                  (status-KeepsSent found.0 pool))
                (λ u _.
                  Runs-give (AllOurs cfg) {A = NodePoolPhase × List Err} IsBlocking
                    (ok (found.0.phase, found.1 ++ errors_of u)) tt
                    (status-IsBlocking s pool nodes reading (errors_of u)
                      (projects-IsSafe s pool.name) (referenced s)))
                s i
