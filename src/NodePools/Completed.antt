-- ===== src/NodePools/Completed.antt =====
-- A node pool without nodes and references loses the controller's finalizer, and no other
-- (finalizer.go, and DeleteFromList of utils.go).
use kai_resource_management.Prelude.{
  ◌==◌, if◌then◌else◌, Bool-cases, eq_of_true, ne_of_false, Option-cases, In, here, there, Distinct,
  ok, String, ◌≡◌, refl, sym, ◌∙◌, subst, ◌≢◌, ◌↔◌, ◌⊎◌, inl, inr, true, false, List, [], ◌∷◌,
}
use kai_resource_management.Objects.{reply}
use kai_resource_management.NodePools.{
  NodePoolsConfig, Pool, Patch, patch_pool_finalizers, patch_pool_status, Cluster,
}
use kai_resource_management.NodePools.Pods.{node_pool_label_selector}
use kai_resource_management.NodePools.Texts.{index_of, is_item_in_list, remove_at, delete_from_list}
use kai_resource_management.NodePools.Reconcile.{check_requirements}
use kai_resource_management.NodePools.Status.{gather_nodes}
use kai_resource_management.NodePools.StatusEqual.{is_status_equal}
use kai_resource_management.NodePools.Calculation.{projects_referencing_node_pool, deletion_status}
use kai_resource_management.NodePools.Finalize.{
  is_uninstalled, reassign_node_for_deleting_node_pool, update_node_pool_status_if_needed, finalize,
}

delete_from_list-cons :
    (element : String) (elements : List String) (item : String)
    → delete_from_list (element ∷ elements) item
      ≡ (if element == item then elements else element ∷ delete_from_list elements item)
unfolding delete_from_list index_of remove_at
delete_from_list-cons element elements item = elim (Bool-cases (element == item)) [
  | inl e ↦ rw (e) refl
  | inr e ↦ elim (Option-cases (index_of elements item)) [
    | inl i ↦ rw (e, i) refl
    | inr (n, i) ↦ rw (e, i) refl
  ]
]

In-cons : {a x : String} {xs : List String} → In a (x ∷ xs) → (x ≡ a) ⊎ In a xs
In-cons (here e) = inl e
In-cons (there m) = inr m

-- From a list without a repeated item, DeleteFromList takes the item and nothing else.
pub delete_from_list_lem :
    (items : List String) (item a : String)
    → Distinct items
    → In a (delete_from_list items item) ↔ (In a items × (a ≢ item))
unfolding delete_from_list index_of
delete_from_list_lem [] item a distinct = ((λ m. elim m [ ]), λ h. elim h.0 [ ])
delete_from_list_lem (x ∷ xs) item a distinct =
    let rest = delete_from_list_lem xs item a distinct.1 in
    elim (Bool-cases (x == item)) [
      | inl e ↦
          rw (delete_from_list-cons x xs item, e)
            (
              (λ m. (
                there m,
                λ same. distinct.0 (subst (λ y. In y xs) (same ∙ sym (eq_of_true e)) m),
              )),
              λ h. elim (In-cons h.0) [
                | inl same ↦ absurd (h.1 (sym same ∙ eq_of_true e))
                | inr m ↦ m
              ],
            )
      | inr e ↦
          rw (delete_from_list-cons x xs item, e)
            (
              (λ m. elim (In-cons m) [
                | inl same ↦ (here same, λ k. ne_of_false e (same ∙ k))
                | inr n ↦ (there (rest.0 n).0, (rest.0 n).1)
              ]),
              λ h. elim (In-cons h.0) [ inl same ↦ here same | inr m ↦ there (rest.1 (m, h.1)) ],
            )
    ]

-- Nothing is left on the node pool.
nothing_reassigned :
    (cfg : NodePoolsConfig) (cluster : Cluster) (pool : Pool) (sent : List Patch)
    → cluster.check_requirement (node_pool_label_selector cfg pool.name) ≡ reply tt
    → cluster.list_nodes sent (node_pool_label_selector cfg pool.name ∷ []) ≡ reply []
    → reassign_node_for_deleting_node_pool cfg cluster pool sent ≡ (ok ([], []), sent)
unfolding reassign_node_for_deleting_node_pool check_requirements
nothing_reassigned cfg cluster pool sent valid no_nodes = rw (valid, no_nodes) refl

-- The deletion of a node pool without nodes ends well and takes the controller's finalizer off, where
-- no project references it, no uninstall is going on, and the server accepts patches of node pools.
pub finalize_completes :
    (cfg : NodePoolsConfig) (cluster : Cluster) (pool : Pool) (sent : List Patch)
    → is_item_in_list pool.finalizers cfg.finalizer_name ≡ true
    → is_uninstalled cfg cluster sent ≡ false
    → cluster.check_requirement (node_pool_label_selector cfg pool.name) ≡ reply tt
    → cluster.list_nodes sent (node_pool_label_selector cfg pool.name ∷ []) ≡ reply []
    → projects_referencing_node_pool cfg cluster sent pool.name ≡ ok []
    → ((later : List Patch) (patch : Patch) → cluster.perform_pool later patch ≡ reply tt)
    → (earlier : List Patch) × (finalize cfg cluster pool sent ≡ (
      ok tt,
      patch_pool_finalizers pool.name (delete_from_list pool.finalizers cfg.finalizer_name)
          ∷ earlier,
    ))
unfolding finalize update_node_pool_status_if_needed deletion_status gather_nodes
finalize_completes cfg cluster pool sent has_finalizer installed valid no_nodes no_projects
      accepts =
    let reassigned = nothing_reassigned cfg cluster pool sent valid no_nodes in
    let status = deletion_status cfg cluster sent pool [] [] in
    elim (Bool-cases (is_status_equal status pool.status)) [
      | inl same ↦
          (sent, rw (has_finalizer, installed, reassigned, no_projects, same, accepts sent _) refl)
      | inr differs ↦ (
        patch_pool_status pool.name status ∷ sent,
        rw
            (
              has_finalizer,
              installed,
              reassigned,
              no_projects,
              differs,
              accepts sent _,
              accepts (patch_pool_status pool.name status ∷ sent) _,
            )
            refl,
      )
    ]
