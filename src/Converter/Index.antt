-- ===== src/Converter/Index.antt =====
-- The maps that GetNodePoolsMap makes (pkg/common/node-pool-utils/utils/utils.go).
use kai_resource_management.Prelude.{
  ◌==◌, Bool-cases, eq_of_true, Option-cases, is_some, In, here, there, lookup, insert, lookup-nil,
  lookup-insert, String, eq_iff, ◌≡◌, refl, inl, inr, true, some, List, [], ◌∷◌, arith,
}
use kai_resource_management.Objects.{deleting, NodePool}
use kai_resource_management.Converter.{
  NodePoolsByLabel, DeletingNodePools, or_nil, index_node_pool, index_node_pools,
}

-- The index leads from a label to a listed node pool that carries it.
abbrev pub IsSound : List NodePool → NodePoolsByLabel → Type 0
IsSound nps by_label =
    (key value name : String) (by_value : List (String × String))
    → lookup key by_label ≡ some by_value
    → lookup value by_value ≡ some name
    → (np : NodePool) × In np nps
      × (np.name ≡ name)
      × (np.label_key ≡ key)
      × (np.label_value ≡ value)

pub index_node_pool-IsSound :
    (nps : List NodePool) (np : NodePool) (by_label : NodePoolsByLabel)
    (being_deleted : DeletingNodePools)
    → In np nps
    → IsSound nps by_label
    → IsSound nps (index_node_pool np (by_label, being_deleted)).0
unfolding index_node_pool
index_node_pool-IsSound nps np by_label being_deleted member h key value name by_value p q =
    let old = or_nil (lookup np.label_key by_label) in
    let outer = lookup-insert np.label_key key (insert np.label_value np.name old) by_label in
    let inner = lookup-insert np.label_value value np.name old in
    elim (Bool-cases (np.label_key == key)) [
      | inr other_key ↦ h key value name by_value (ground arith) q
      | inl same_key ↦ elim (Bool-cases (np.label_value == value)) [
        | inl same_value ↦ (np, member, ground arith, eq_of_true same_key, eq_of_true same_value)
        | inr other_value ↦ elim (Option-cases (lookup np.label_key by_label)) [
          | inl absent ↦ absurd (ground (arith, lookup-nil {V = String} value))
          | inr (before, e) ↦
              h key value name before (ground (arith, eq_iff np.label_key key)) (ground arith)
        ]
      ]
    ]

pub index_node_pools-IsSound :
    (nps rest : List NodePool) (maps : NodePoolsByLabel × DeletingNodePools)
    → ((np : NodePool) → In np rest → In np nps)
    → IsSound nps maps.0
    → IsSound nps (index_node_pools rest maps).0
unfolding index_node_pools
index_node_pools-IsSound nps [] maps sub h = h
index_node_pools-IsSound nps (np ∷ rest) maps sub h =
    index_node_pools-IsSound nps rest (index_node_pool np maps) (λ x m. sub x (there m))
      (index_node_pool-IsSound nps np maps.0 maps.1 (sub np (here refl)) h)

-- What is marked as being deleted stays marked.
pub marked_keeps :
    (name : String) (rest : List NodePool) (maps : NodePoolsByLabel × DeletingNodePools)
    → is_some (lookup name maps.1) ≡ true
    → is_some (lookup name (index_node_pools rest maps).1) ≡ true
unfolding index_node_pools index_node_pool
marked_keeps name [] maps h = h
marked_keeps name (np ∷ rest) maps h =
    marked_keeps name rest (index_node_pool np maps)
      (ground (arith, lookup-insert np.name name np.phase maps.1))

pub deleting_marked :
    (np : NodePool) (rest : List NodePool) (maps : NodePoolsByLabel × DeletingNodePools)
    → In np rest
    → np.phase ≡ deleting
    → is_some (lookup np.name (index_node_pools rest maps).1) ≡ true
unfolding index_node_pools index_node_pool
deleting_marked np [] maps m d = elim m [ ]
deleting_marked np (x ∷ rest) maps (here e) d =
    marked_keeps np.name rest (index_node_pool x maps)
      (ground (arith, lookup-insert x.name np.name x.phase maps.1, eq_iff x.name np.name))
deleting_marked np (x ∷ rest) maps (there m) d =
    deleting_marked np rest (index_node_pool x maps) m d
