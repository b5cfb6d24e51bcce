-- ===== src/Admission/Consistent.antt =====
-- What the webhooks keep of a cluster: each node pool has a label pair of its own, and each partition
-- one scheduling shard.
use kai_resource_management.Prelude.{
  ◌==◌, ◌!=◌, if◌then◌else◌, Bool-cases, eq_of_true, ne_of_false, All, any, find?, filter, In, here,
  there, Distinct, filter-All, not_found, Result, ok, err, panic, ◌>>=◌, String, eq_iff, ◌≡◌, refl,
  sym, ◌∙◌, ◌≢◌, ◌⊎◌, inl, inr, Bool, false, Option, none, some, List, [], ◌∷◌, map, arith,
}
use kai_resource_management.Objects.{Answer, reply, fail}
use kai_resource_management.NodePools.{NodePoolsConfig, Pool, SchedulingShard, Cluster}
use kai_resource_management.Admission.{
  Readings, duplicates, partition_of, validate_labels, validate_partition_label_value,
  validate_create, validate_delete, validate_shard_create, validate_shard_update,
}

-- The node pools and the shards that exist.
pub record World : Type 0 where
  pub pools : List Pool
  pub shards : List SchedulingShard

abbrev pub found_or_fail : {A : Type 0} → Option A → Answer A
found_or_fail none = fail not_found
found_or_fail (some a) = reply a

-- A client that is up to date.
abbrev pub readings_of : World → Readings
readings_of world = record {
  list_pools = reply world.pools;
  get_pool = λ name. found_or_fail (find? (λ pool. pool.name == name) world.pools);
  list_shards_with = λ value. reply (filter (λ shard. partition_of shard == value) world.shards);
  get_shard = λ name. found_or_fail (find? (λ shard. shard.name == name) world.shards);
}

-- An object with its name changed for another that has the same name.
unfoldable pub replaced : SchedulingShard → List SchedulingShard → List SchedulingShard
replaced new [] = []
replaced new (shard ∷ shards) =
    let rest = replaced new shards in (if shard.name == new.name then new else shard) ∷ rest

first_ok : (m n : Result (Unit {0})) → (m >>= λ _. n) ≡ ok tt → m ≡ ok tt
first_ok (ok u) n h = refl
first_ok (err e) n h = absurd (cc)
first_ok panic n h = absurd (cc)

module _ (cfg : NodePoolsConfig) (cluster : Cluster) where
  -- What the API server does with a request that the webhooks admit. It takes no second object of a
  -- name.
  pub data Admitted : World → World → Type 0 where
    pool_created :
        (world : World) (pool : Pool)
        → All (λ other. other.name ≢ pool.name) world.pools
        → validate_create cfg cluster (readings_of world) pool ≡ ok tt
        → Admitted world (record world { pools = pool ∷ world.pools })
    pool_deleted :
        (world : World) (pool : Pool)
        → validate_delete cfg cluster pool ≡ ok tt
        → Admitted world
            (record world { pools = filter (λ other. other.name != pool.name) world.pools })
    shard_created :
        (world : World) (shard : SchedulingShard)
        → All (λ other. other.name ≢ shard.name) world.shards
        → validate_shard_create cfg cluster (readings_of world) shard ≡ ok tt
        → Admitted world (record world { shards = shard ∷ world.shards })
    shard_updated :
        (world : World) (new : SchedulingShard)
        → All
            (λ old. old.name ≡ new.name → validate_shard_update cfg cluster old new ≡ ok tt)
            world.shards
        → Admitted world (record world { shards = replaced new world.shards })
    shard_deleted :
        (world : World) (shard : SchedulingShard)
        → Admitted world
            (record world { shards = filter (λ other. other.name != shard.name) world.shards })

  pub data Reachable : World → Type 0 where
    start : Reachable (record { pools = []; shards = [] })
    then_step : {before after : World} → Reachable before → Admitted before after → Reachable after

  -- The default node pool has no label pair, and every other has a whole one.
  abbrev pub HasPair : Pool → Type 0
  HasPair pool =
      ((pool.name ≡ cfg.default_nodepool_name) × (pool.label_key ≡ "") × (pool.label_value ≡ ""))
      ⊎ ((pool.name ≢ cfg.default_nodepool_name) × (pool.label_key ≢ "") × (pool.label_value ≢ ""))

  abbrev pub Differ : Pool → Pool → Type 0
  Differ pool other = (other.label_key ≢ pool.label_key) ⊎ (other.label_value ≢ pool.label_value)

  abbrev pub Separate : List Pool → Type 0
  Separate [] = Unit
  Separate (pool ∷ pools) = All (Differ pool) pools × Separate pools

  abbrev pub IsConsistent : World → Type 0
  IsConsistent world =
      All HasPair world.pools × Separate world.pools × Distinct (map partition_of world.shards)

  created-HasPair :
      (readings : Readings) (pool : Pool)
      → validate_labels cfg cluster readings pool ≡ ok tt
      → HasPair pool
  unfolding validate_labels
  created-HasPair readings pool h = elim (Bool-cases (pool.name == cfg.default_nodepool_name)) [
    | inl e ↦ inl (
      eq_of_true e,
      ground (arith, eq_iff pool.label_key "", eq_iff pool.label_value ""),
      ground (arith, eq_iff pool.label_key "", eq_iff pool.label_value ""),
    )
    | inr e ↦ inr (
      ne_of_false e,
      ground (arith, eq_iff pool.label_key "", eq_iff pool.label_value ""),
      ground (arith, eq_iff pool.label_key "", eq_iff pool.label_value ""),
    )
  ]

  each_differs :
      (pool : Pool) (pools : List Pool)
      → All (λ other. other.name ≢ pool.name) pools
      → any (duplicates pool) pools ≡ false
      → All (Differ pool) pools
  each_differs pool [] fresh h = tt
  each_differs pool (other ∷ others) fresh h = (
    elim (Bool-cases (other.label_key == pool.label_key)) [
      | inl k ↦ inr (
          ground (
            arith,
            eq_iff other.name pool.name,
            eq_iff other.label_value pool.label_value,
            fresh.0,
          ))
      | inr k ↦ inl (ne_of_false k)
    ],
    each_differs pool others fresh.1 (ground arith),
  )

  default_differs :
      (pool : Pool) (pools : List Pool)
      → pool.name ≡ cfg.default_nodepool_name
      → pool.label_key ≡ ""
      → All (λ other. other.name ≢ pool.name) pools
      → All HasPair pools
      → All (Differ pool) pools
  default_differs pool [] d k fresh h = tt
  default_differs pool (other ∷ others) d k fresh h =
      (of_pair h.0, default_differs pool others d k fresh.1 h.1)
    where
      of_pair : HasPair other → Differ pool other
      of_pair (inl (e, _, _)) = absurd (fresh.0 (e ∙ sym d))
      of_pair (inr (_, key, _)) = inl (λ e. key (e ∙ k))

  created_differs :
      (world : World) (pool : Pool)
      → validate_labels cfg cluster (readings_of world) pool ≡ ok tt
      → All (λ other. other.name ≢ pool.name) world.pools
      → All HasPair world.pools
      → All (Differ pool) world.pools
  unfolding validate_labels
  created_differs world pool h fresh pairs = of_pair (created-HasPair (readings_of world) pool h)
    where
      of_pair : HasPair pool → All (Differ pool) world.pools
      of_pair (inl (d, k, _)) = default_differs pool world.pools d k fresh pairs
      of_pair (inr (d, k, v)) = each_differs pool world.pools fresh (
          ground (
            arith,
            eq_iff pool.name cfg.default_nodepool_name,
            eq_iff pool.label_key "",
            eq_iff pool.label_value "",
          ))

  filter-Separate :
      (p : Pool → Bool) (pools : List Pool) → Separate pools → Separate (filter p pools)
  filter-Separate p [] h = tt
  filter-Separate p (pool ∷ pools) h = elim (Bool-cases (p pool)) [
    | inl e ↦ rw (e) (filter-All (Differ pool) p pools h.0, filter-Separate p pools h.1)
    | inr e ↦ rw (e) (filter-Separate p pools h.1)
  ]

  In-filter :
      (p : SchedulingShard → Bool) (value : String) (shards : List SchedulingShard)
      → In value (map partition_of (filter p shards))
      → In value (map partition_of shards)
  In-filter p value [] m = m
  In-filter p value (shard ∷ shards) m = elim (Bool-cases (p shard)) [
    | inl e ↦ kept (In-filter p value shards) (rw e at m)
    | inr e ↦ there (In-filter p value shards (rw e at m))
  ]
    where
      kept :
          (In value (map partition_of (filter p shards)) → In value (map partition_of shards))
          → In value (partition_of shard ∷ map partition_of (filter p shards))
          → In value (partition_of shard ∷ map partition_of shards)
      kept among (here e) = here e
      kept among (there m) = there (among m)

  filter-Distinct :
      (p : SchedulingShard → Bool) (shards : List SchedulingShard)
      → Distinct (map partition_of shards)
      → Distinct (map partition_of (filter p shards))
  filter-Distinct p [] h = tt
  filter-Distinct p (shard ∷ shards) h = elim (Bool-cases (p shard)) [
    | inl e ↦
        rw (e)
          ((λ m. h.0 (In-filter p (partition_of shard) shards m)), filter-Distinct p shards h.1)
    | inr e ↦ rw (e) (filter-Distinct p shards h.1)
  ]

  -- An update keeps the partition of its shard.
  replaced-partitions :
      (new : SchedulingShard) (shards : List SchedulingShard)
      → All (λ old. old.name ≡ new.name → validate_shard_update cfg cluster old new ≡ ok tt) shards
      → map partition_of (replaced new shards) ≡ map partition_of shards
  unfolding replaced validate_shard_update
  replaced-partitions new [] h = refl
  replaced-partitions new (shard ∷ shards) h = elim (Bool-cases (shard.name == new.name)) [
    | inl e ↦
        let admitted = h.0 (eq_of_true e) in
        let same : shard.partition_label_value ≡ new.partition_label_value =
          ground (arith, eq_iff shard.partition_label_value new.partition_label_value) in
        rw (e, replaced-partitions new shards h.1, same) refl
    | inr e ↦ rw (e, replaced-partitions new shards h.1) refl
  ]

  -- A new shard's partition is new, since every shard that has it would have another name.
  pub fresh_partition :
      (shard : SchedulingShard) (shards : List SchedulingShard)
      → All (λ other. other.name ≢ shard.name) shards
      → any
          (λ other. other.name != shard.name)
          (filter (λ other. partition_of other == partition_of shard) shards)
        ≡ false
      → ¬ In (partition_of shard) (map partition_of shards)
  fresh_partition shard [] fresh h m = elim m [ ]
  fresh_partition shard (other ∷ others) fresh h (here e) = absurd (
      ground (
        arith,
        fresh.0,
        eq_iff other.name shard.name,
        eq_iff (partition_of other) (partition_of shard),
      ))
  fresh_partition shard (other ∷ others) fresh h (there m) =
      fresh_partition shard others fresh.1
        (elim (Bool-cases (partition_of other == partition_of shard)) [
          | inl e ↦ ground arith
          | inr e ↦ ground arith
        ])
        m

  step-IsConsistent :
      {before after : World} → Admitted before after → IsConsistent before → IsConsistent after
  unfolding validate_create validate_shard_create
  step-IsConsistent (pool_created world pool fresh h) (pairs, separate, distinct) =
      let labels : validate_labels cfg cluster (readings_of world) pool ≡ ok tt =
        first_ok (validate_labels cfg cluster (readings_of world) pool)
          (validate_partition_label_value cfg cluster (readings_of world) pool) h in
      (
        (created-HasPair (readings_of world) pool labels, pairs),
        (created_differs world pool labels fresh pairs, separate),
        distinct,
      )
  step-IsConsistent (pool_deleted world pool h) (pairs, separate, distinct) = (
    filter-All HasPair (λ other. other.name != pool.name) world.pools pairs,
    filter-Separate (λ other. other.name != pool.name) world.pools separate,
    distinct,
  )
  step-IsConsistent (shard_created world shard fresh h) (pairs, separate, distinct) =
      (pairs, separate, (fresh_partition shard world.shards fresh (ground arith), distinct))
  step-IsConsistent (shard_updated world new h) (pairs, separate, distinct) =
      (pairs, separate, rw (replaced-partitions new world.shards h) distinct)
  step-IsConsistent (shard_deleted world shard) (pairs, separate, distinct) =
      (pairs, separate, filter-Distinct (λ other. other.name != shard.name) world.shards distinct)

-- Whatever is created, changed and deleted through the webhooks, with a client that is up to date, the
-- default node pool has no label pair, every other has a whole one, no two node pools have the same,
-- and no two scheduling shards have the same partition.
pub reachable-IsConsistent :
    (cfg : NodePoolsConfig) (cluster : Cluster) (world : World)
    → Reachable cfg cluster world
    → IsConsistent cfg cluster world
reachable-IsConsistent cfg cluster world start = (tt, tt, tt)
reachable-IsConsistent cfg cluster world (then_step {before} reached step) =
    step-IsConsistent cfg cluster step (reachable-IsConsistent cfg cluster before reached)
