-- ===== src/NodePools/Destination.antt =====
-- The node pool that a node's labels choose (findMatchingNodePoolFromList of node_handler.go).
use kai_resource_management.Prelude.{
  ◌==◌, if◌then◌else◌, Bool-cases, eq_of_true, ne_of_false, Option-cases, All, lookup, String,
  eq_iff, ◌≡◌, refl, ap, ◌∙◌, ◌≢◌, ◌⊎◌, inl, inr, true, false, some, List, [], ◌∷◌, ◌++◌, arith,
}
use kai_resource_management.Objects.{Labels}
use kai_resource_management.NodePools.{NodePoolsConfig, Pool}
use kai_resource_management.NodePools.Drain.{matches_pool, find_matching_node_pool_from_list}

-- The node has the node pool's label, with its value.
abbrev pub HasLabelOf : Labels → Pool → Type 0
HasLabelOf labels pool = lookup pool.label_key labels ≡ some pool.label_value

module _ (cfg : NodePoolsConfig) where
  -- The first node pool whose label the node has, or the default one where it has none of them.
  abbrev pub IsDestination : Labels → List Pool → String → Type 0
  IsDestination labels pools name =
      ((earlier : List Pool) × (pool : Pool) × (later : List Pool) × (pools
          ≡ earlier ++ pool ∷ later)
        × All (λ other. ¬ HasLabelOf labels other) earlier
        × HasLabelOf labels pool
        × (name ≡ pool.name))
      ⊎ (All (λ other. ¬ HasLabelOf labels other) pools × (name ≡ cfg.default_nodepool_name))

  matches-HasLabelOf :
      (labels : Labels) (pool : Pool) → matches_pool cfg labels pool ≡ true → HasLabelOf labels pool
  matches-HasLabelOf labels pool h = elim (Option-cases (lookup pool.label_key labels)) [
    | inl e ↦ absurd (ground arith)
    | inr (value, e) ↦ e ∙ ap (λ v. some v) (ground (arith, eq_iff value pool.label_value))
  ]

  other-HasLabelOf :
      (labels : Labels) (pool : Pool)
      → matches_pool cfg labels pool ≡ false
      → ¬ HasLabelOf labels pool
  other-HasLabelOf labels pool h found = ground (arith, eq_iff pool.label_value pool.label_value)

  found-IsDestination :
      (labels : Labels) (pool : Pool) (pools : List Pool) (name : String)
      → ¬ HasLabelOf labels pool
      → IsDestination labels pools name
      → IsDestination labels (pool ∷ pools) name
  found-IsDestination labels pool pools name other
        (inl (earlier, chosen, later, e, others, has, same)) =
      inl (pool ∷ earlier, chosen, later, ap (λ ps. pool ∷ ps) e, (other, others), has, same)
  found-IsDestination labels pool pools name other (inr (others, same)) =
      inr ((other, others), same)

  pub find_matching-IsDestination :
      (labels : Labels) (pools : List Pool)
      → IsDestination labels pools (find_matching_node_pool_from_list cfg labels pools)
  unfolding find_matching_node_pool_from_list
  find_matching-IsDestination labels [] = inr (tt, refl)
  find_matching-IsDestination labels (pool ∷ pools) =
      elim (Bool-cases (matches_pool cfg labels pool)) [
        | inl e ↦ rw (e) (inl ([], pool, pools, refl, tt, matches-HasLabelOf labels pool e, refl))
        | inr e ↦ rw (e) (
            found-IsDestination labels pool pools _ (other-HasLabelOf labels pool e)
              (find_matching-IsDestination labels pools))
      ]

  -- The node pool given, or the one that the labels choose where none is.
  abbrev pub IsTarget : (new : String) → List Pool → Labels → String → Type 0
  IsTarget new available labels target =
      ((new ≢ "") × (target ≡ new)) ⊎ ((new ≡ "") × IsDestination labels available target)

  pub found-IsTarget :
      (new : String) (available : List Pool) (labels : Labels)
      → IsTarget new available labels
          (if new == "" then find_matching_node_pool_from_list cfg labels available else new)
  found-IsTarget new available labels = elim (Bool-cases (new == "")) [
    | inl e ↦ rw (e) (inr (eq_of_true e, find_matching-IsDestination labels available))
    | inr e ↦ rw (e) (inl (ne_of_false e, refl))
  ]
