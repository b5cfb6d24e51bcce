-- ===== src/Admission/Resolved.antt =====
-- The lookup of a node pool's shard (resolveShardForNodePool of
-- operands/kai-scheduler/resources/scheduling_shard.go) in a cluster that the webhooks keep.
use kai_resource_management.Prelude.{
  ◌==◌, if◌then◌else◌, Bool-cases, eq_of_true, filter, In, here, there, Distinct, invalid, ok, err,
  String, ◌≡◌, refl, sym, ◌∙◌, subst, ◌⊎◌, inl, inr, none, some, List, [], ◌∷◌, map,
}
use kai_resource_management.NodePools.{NodePoolsConfig, Pool, SchedulingShard, Cluster}
use kai_resource_management.Admission.{
  partition_of, partition_label_value_for_node_pool, resolve_shard_for_node_pool,
}
use kai_resource_management.NodePools.Shards.{is_unmanaged}
use kai_resource_management.Admission.Consistent.{
  World, readings_of, reachable-IsConsistent, Reachable,
}
use kai_resource_management.Admission.Holders.{holder_among, holder_among-cons}

module _ (cfg : NodePoolsConfig) (cluster : Cluster) where
  -- The shards of a partition, as a list with that label shows them.
  abbrev pub IsAlone : List SchedulingShard → String → SchedulingShard → Type 0
  IsAlone shards p shard =
      In shard shards
      × (partition_of shard ≡ p)
      × (holder_among shards p ≡ some shard.name)
      × (filter (λ other. partition_of other == p) shards ≡ shard ∷ [])

  abbrev IsHeldOnce : List SchedulingShard → String → Type 0
  IsHeldOnce shards p =
      ((holder_among shards p ≡ none) × (filter (λ other. partition_of other == p) shards ≡ []))
      ⊎ ((shard : SchedulingShard) × IsAlone shards p shard)

  none_listed :
      (shards : List SchedulingShard) (p : String)
      → ¬ In p (map partition_of shards)
      → filter (λ other. partition_of other == p) shards ≡ []
  none_listed [] p h = refl
  none_listed (shard ∷ shards) p h = elim (Bool-cases (partition_of shard == p)) [
    | inl e ↦ absurd (h (here (eq_of_true e)))
    | inr e ↦ rw (e) (none_listed shards p (λ m. h (there m)))
  ]

  Distinct-IsHeldOnce :
      (shards : List SchedulingShard) (p : String)
      → Distinct (map partition_of shards)
      → IsHeldOnce shards p
  unfolding holder_among
  Distinct-IsHeldOnce [] p distinct = inl (refl, refl)
  Distinct-IsHeldOnce (shard ∷ shards) p distinct = elim (Bool-cases (partition_of shard == p)) [
    | inl e ↦
        let gone =
          none_listed shards p (λ m.
            distinct.0 (subst (λ q. In q (map partition_of shards)) (sym (eq_of_true e)) m)) in
        inr (
          shard,
          (
            here refl,
            eq_of_true e,
            holder_among-cons shard shards p ∙ rw (e) refl,
            rw (e, gone) refl,
          ),
        )
    | inr e ↦ elim (Distinct-IsHeldOnce shards p distinct.1) [
      | inl (free, unlisted) ↦ inl (holder_among-cons shard shards p ∙ rw (e) free, rw (e) unlisted)
      | inr (other, (within, same, held, listed)) ↦ inr (
        other,
        (there within, same, holder_among-cons shard shards p ∙ rw (e) held, rw (e) listed),
      )
    ]
  ]

  -- In every cluster that can come about with a client that is up to date, the lookup of a node pool's shard
  -- agrees with the register and never finds several shards: where no shard holds the node pool's
  -- partition it finds none, and otherwise it finds the shard that holds it, which it refuses where
  -- the shard is unmanaged.
  pub resolved_holder :
      (world : World) (pool : Pool)
      → Reachable cfg cluster world
      → let p = partition_label_value_for_node_pool cfg cluster pool.name in
        let found = resolve_shard_for_node_pool cfg cluster (readings_of world) pool in
        ((holder_among world.shards p ≡ none) × (found ≡ ok none))
        ⊎ ((shard : SchedulingShard) × In shard world.shards
            × (partition_of shard ≡ p)
            × (holder_among world.shards p ≡ some shard.name)
            × (found ≡ (
                if is_unmanaged cluster shard then err (invalid pool.name) else ok (some shard))))
  unfolding resolve_shard_for_node_pool
  resolved_holder world pool reached =
      let p = partition_label_value_for_node_pool cfg cluster pool.name in
      elim (Distinct-IsHeldOnce world.shards p
        (reachable-IsConsistent cfg cluster world reached).2) [
          | inl (free, unlisted) ↦ inl (free, rw (unlisted) refl)
          | inr (shard, (within, same, held, listed)) ↦
              inr (shard, within, same, held, rw (listed) refl)
        ]
