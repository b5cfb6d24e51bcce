-- ===== src/Admission/Tests.antt =====
-- Two admitted requests, and the theorem on them.
use kai_resource_management.Prelude.{
  if◌then◌else◌, In, lookup, invalid, ok, err, ◌≡◌, refl, ◌⊎◌, none, some, [], ◌∷◌,
}
use kai_resource_management.NodePools.{SchedulingShard}
use kai_resource_management.NodePools.Shards.{is_unmanaged}
use kai_resource_management.NodePools.Sample.{cfg, team_pool, cluster_of}
use kai_resource_management.Admission.{
  partition_of, validate_labels, resolve_shard_for_node_pool, validate_partition_label_value,
  validate_create, validate_shard_create,
}
use kai_resource_management.Admission.Consistent.{
  World, readings_of, IsConsistent, reachable-IsConsistent, Admitted, pool_created, shard_created,
  Reachable, start, then_step,
}
use kai_resource_management.Admission.Resolved.{resolved_holder}
use kai_resource_management.Admission.Holders.{Step, holder_among, event_of, admitted_refines}

abbrev shard : SchedulingShard
shard = record { name = "new"; labels = []; owner_references = []; partition_label_value = "new" }

abbrev one_pool : World
one_pool = record { pools = team_pool ∷ []; shards = [] }

abbrev one_each : World
one_each = record { pools = team_pool ∷ []; shards = shard ∷ [] }

created_pool : Reachable cfg (cluster_of []) one_pool
unfolding validate_create validate_labels validate_partition_label_value resolve_shard_for_node_pool
    lookup
created_pool = then_step start (pool_created (record { pools = []; shards = [] }) team_pool tt refl)

shard-Admitted : Admitted cfg (cluster_of []) one_pool one_each
unfolding validate_shard_create is_unmanaged lookup
shard-Admitted = shard_created one_pool shard tt refl

reachable-IsConsistent_example : IsConsistent cfg (cluster_of []) one_each
reachable-IsConsistent_example =
    reachable-IsConsistent cfg (cluster_of []) one_each (then_step created_pool shard-Admitted)

admitted_refines_example :
    Step (holder_among []) (holder_among (shard ∷ [])) (event_of cfg (cluster_of []) shard-Admitted)
admitted_refines_example =
    admitted_refines cfg (cluster_of []) one_pool one_each created_pool shard-Admitted

resolved_holder_example :
    let found = resolve_shard_for_node_pool cfg (cluster_of []) (readings_of one_each) team_pool in
    ((holder_among (shard ∷ []) "new" ≡ none) × (found ≡ ok none))
    ⊎ ((held : SchedulingShard) × In held (shard ∷ [])
        × (partition_of held ≡ "new")
        × (holder_among (shard ∷ []) "new" ≡ some held.name)
        × (found ≡ (
            if is_unmanaged (cluster_of []) held
            then err (invalid team_pool.name)
            else ok (some held))))
resolved_holder_example =
    resolved_holder cfg (cluster_of []) one_each team_pool (then_step created_pool shard-Admitted)
