-- ===== src/Admission/Holders.antt =====
-- What the webhook of scheduling shards promises: a register of partitions, each held by one shard.
use kai_resource_management.Prelude.{
  ◌==◌, ◌!=◌, if◌then◌else◌, Bool-cases, eq_of_true, All, find?, filter, In, here, there, Distinct,
  ok, String, eq_iff, ◌≡◌, refl, sym, ap, ◌∙◌, subst, inl, inr, Option, none, some, List, [], ◌∷◌,
  map, arith,
}
use kai_resource_management.NodePools.{NodePoolsConfig, SchedulingShard, Cluster}
use kai_resource_management.Admission.{partition_of, validate_shard_create, validate_shard_update}
use kai_resource_management.Admission.Consistent.{
  World, replaced, fresh_partition, reachable-IsConsistent, Admitted, pool_created, pool_deleted,
  shard_created, shard_updated, shard_deleted, Reachable,
}

-- A register: the name of the shard that holds a partition, where one does.
abbrev pub Register : Type 0
Register = String → Option String

abbrev pub without : String → Option String → Option String
without name none = none
without name (some holder) = if holder == name then none else some holder

-- What a request does to the register.
pub data Event : Type 0 where
  shard_made : (partition name : String) → Event
  shard_gone : (name : String) → Event
  other_request : Event

-- A shard that is made takes a free partition, one that goes releases all that it holds, and nothing
-- else changes the register.
pub data Step (before after : Register) : Event → Type 0 where
  takes :
      (partition name : String)
      → before partition ≡ none
      → ((p : String) → after p ≡ (if partition == p then some name else before p))
      → Step before after (shard_made partition name)
  releases :
      (name : String)
      → ((p : String) → after p ≡ without name (before p))
      → Step before after (shard_gone name)
  keeps : ((p : String) → after p ≡ before p) → Step before after other_request

abbrev pub name_of_found : Option SchedulingShard → Option String
name_of_found none = none
name_of_found (some shard) = some shard.name

-- The register that a cluster's shards stand for.
unfoldable pub holder_among : List SchedulingShard → Register
holder_among shards p = name_of_found (find? (λ shard. partition_of shard == p) shards)

pub holder_among-cons :
    (shard : SchedulingShard) (shards : List SchedulingShard) (p : String)
    → holder_among (shard ∷ shards) p
      ≡ (if partition_of shard == p then some shard.name else holder_among shards p)
unfolding holder_among
holder_among-cons shard shards p = elim (Bool-cases (partition_of shard == p)) [
  | inl e ↦ rw (e) refl
  | inr e ↦ rw (e) refl
]

free_among :
    (shards : List SchedulingShard) (p : String)
    → ¬ In p (map partition_of shards)
    → holder_among shards p ≡ none
unfolding holder_among
free_among [] p h = refl
free_among (shard ∷ shards) p h = elim (Bool-cases (partition_of shard == p)) [
  | inl e ↦ absurd (h (here (eq_of_true e)))
  | inr e ↦ holder_among-cons shard shards p ∙ rw (e) (free_among shards p (λ m. h (there m)))
]

deleted_releases :
    (name : String) (shards : List SchedulingShard) (p : String)
    → Distinct (map partition_of shards)
    → holder_among (filter (λ other. other.name != name) shards) p
      ≡ without name (holder_among shards p)
unfolding holder_among
deleted_releases name [] p distinct = refl
deleted_releases name (shard ∷ shards) p distinct =
    let rest = deleted_releases name shards p distinct.1 in
    elim (Bool-cases (shard.name == name)) [
      | inl e ↦ elim (Bool-cases (partition_of shard == p)) [
        | inl f ↦
            rw (holder_among-cons shard shards p, f, e)
              (rest
                ∙ ap (without name) (
                    free_among shards p (λ m.
                      distinct.0
                        (subst (λ q. In q (map partition_of shards)) (sym (eq_of_true f)) m))))
        | inr f ↦ rw (holder_among-cons shard shards p, f, e) rest
      ]
      | inr e ↦ elim (Bool-cases (partition_of shard == p)) [
        | inl f ↦
            rw
              (
                holder_among-cons shard shards p,
                e,
                holder_among-cons shard (filter (λ other. other.name != name) shards) p,
                f,
                e,
              )
              refl
        | inr f ↦
            rw
              (
                holder_among-cons shard shards p,
                e,
                holder_among-cons shard (filter (λ other. other.name != name) shards) p,
                f,
              )
              rest
      ]
    ]

module _ (cfg : NodePoolsConfig) (cluster : Cluster) where
  updated_keeps :
      (new : SchedulingShard) (shards : List SchedulingShard) (p : String)
      → All (λ old. old.name ≡ new.name → validate_shard_update cfg cluster old new ≡ ok tt) shards
      → holder_among (replaced new shards) p ≡ holder_among shards p
  unfolding replaced validate_shard_update holder_among
  updated_keeps new [] p h = refl
  updated_keeps new (shard ∷ shards) p h = elim (Bool-cases (shard.name == new.name)) [
    | inl e ↦
        let admitted = h.0 (eq_of_true e) in
        let same : shard.partition_label_value ≡ new.partition_label_value =
          ground (arith, eq_iff shard.partition_label_value new.partition_label_value) in
        rw
          (
            e,
            holder_among-cons new (replaced new shards) p,
            holder_among-cons shard shards p,
            same,
            updated_keeps new shards p h.1,
            eq_of_true e,
          )
          refl
    | inr e ↦
        rw
          (
            e,
            holder_among-cons shard (replaced new shards) p,
            holder_among-cons shard shards p,
            updated_keeps new shards p h.1,
          )
          refl
  ]

  -- The event of an admitted request.
  abbrev pub event_of : {before after : World} → Admitted cfg cluster before after → Event
  event_of (pool_created world pool fresh h) = other_request
  event_of (pool_deleted world pool h) = other_request
  event_of (shard_created world shard fresh h) = shard_made (partition_of shard) shard.name
  event_of (shard_updated world new h) = other_request
  event_of (shard_deleted world shard) = shard_gone shard.name

  -- Each request that the webhooks admit makes the register's step of its event, in every cluster that
  -- can come about with a client that is up to date: a shard that is created takes its partition,
  -- which no shard holds, a shard that is deleted releases it, and the requests for node pools and the
  -- updates of shards leave the register as it is.
  pub admitted_refines :
      (before after : World)
      → Reachable cfg cluster before
      → (request : Admitted cfg cluster before after)
      → Step (holder_among before.shards) (holder_among after.shards) (event_of request)
  unfolding validate_shard_create
  admitted_refines before after reached (pool_created world pool fresh h) = keeps (λ p. refl)
  admitted_refines before after reached (pool_deleted world pool h) = keeps (λ p. refl)
  admitted_refines before after reached (shard_created world shard fresh h) =
      takes (partition_of shard) shard.name
        (free_among world.shards (partition_of shard)
          (fresh_partition cfg cluster shard world.shards fresh (ground arith)))
        (holder_among-cons shard world.shards)
  admitted_refines before after reached (shard_updated world new h) =
      keeps (λ p. updated_keeps new world.shards p h)
  admitted_refines before after reached (shard_deleted world shard) = releases shard.name (λ p.
      deleted_releases shard.name world.shards p
        (reachable-IsConsistent cfg cluster world reached).2)
