-- ===== src/Admission.antt =====
-- The webhooks of node pools and scheduling shards: pkg/nodepool-controller/webhook, with the lookup of
-- a node pool's shard in operands/kai-scheduler/resources/scheduling_shard.go. What they read is a
-- parameter.
pub mod Consistent
pub mod Holders
pub mod Resolved
mod Tests
use kai_resource_management.Prelude.{
  ◌==◌, ◌!=◌, if◌then◌else◌, any, find?, lookup, invalid, Result, ok, err, ◌>>=◌, is_not_found,
  String, Bool, true, false, not, ◌&&◌, ◌||◌, Option, none, some, List, [], ◌∷◌,
}
use kai_resource_management.Objects.{OwnerReference, Answer, reply, fail}
use kai_resource_management.NodePools.{NodePoolsConfig, Pool, SchedulingShard, Cluster}
use kai_resource_management.NodePools.Shards.{
  ignore_shard_label_key, is_controller, owning_node_pool_name, is_unmanaged,
}

-- What the client of a webhook reads.
pub record Readings : Type 0 where
  pub list_pools : Answer (List Pool)
  pub get_pool : String → Answer Pool
  pub list_shards_with : (partition_label_value : String) → Answer (List SchedulingShard)
  pub get_shard : String → Answer SchedulingShard

abbrev pub duplicates : Pool → Pool → Bool
duplicates pool other =
    other.name != pool.name
    && other.label_key == pool.label_key
    && other.label_value == pool.label_value

abbrev pub no_duplicate : Pool → Answer (List Pool) → Result (Unit {0})
no_duplicate pool (fail e) = err (invalid pool.name)
no_duplicate pool (reply pools) =
    if any (duplicates pool) pools then err (invalid pool.name) else ok tt

abbrev pub partition_of : SchedulingShard → String
partition_of shard = shard.partition_label_value

module _ (cfg : NodePoolsConfig) (cluster : Cluster) where
  unfoldable pub validate_labels : Readings → Pool → Result (Unit {0})
  validate_labels readings pool =
      if pool.name == cfg.default_nodepool_name
      then (if pool.label_key != "" || pool.label_value != ""
          then err (invalid pool.name)
          else ok tt)
      else if pool.label_key == "" || pool.label_value == ""
      then err (invalid pool.name)
      else no_duplicate pool readings.list_pools

  abbrev pub partition_label_value_for_node_pool : String → String
  partition_label_value_for_node_pool name = if name == cfg.default_nodepool_name then "" else name

  abbrev pub node_pool_name_for_partition_label_value : String → String
  node_pool_name_for_partition_label_value value =
      if value == "" then cfg.default_nodepool_name else value

  -- The one shard of the node pool's partition, where there is one.
  abbrev pub one_shard : Pool → Answer (List SchedulingShard) → Result (Option SchedulingShard)
  one_shard pool (fail e) = err e
  one_shard pool (reply []) = ok none
  one_shard pool (reply (shard ∷ [])) =
      if is_unmanaged cluster shard then err (invalid pool.name) else ok (some shard)
  one_shard pool (reply (_ ∷ _ ∷ _)) = err (invalid pool.name)

  unfoldable pub resolve_shard_for_node_pool : Readings → Pool → Result (Option SchedulingShard)
  resolve_shard_for_node_pool readings pool =
      one_shard pool (readings.list_shards_with (partition_label_value_for_node_pool pool.name))

  -- metav1.IsControlledBy.
  abbrev pub is_controlled_by : SchedulingShard → Pool → Bool
  is_controlled_by shard pool = has_uid (find? is_controller shard.owner_references)
    where
      has_uid : Option OwnerReference → Bool
      has_uid none = false
      has_uid (some owner) = owner.uid == pool.uid

  abbrev new_shard : Pool → SchedulingShard
  new_shard pool = record {
    name = pool.name;
    labels = [];
    owner_references = [];
    partition_label_value = "";
  }

  abbrev pub or_init : Pool → Answer SchedulingShard → Result SchedulingShard
  or_init pool (fail e) = if is_not_found e then ok (new_shard pool) else err e
  or_init pool (reply shard) =
      if not (is_controlled_by shard pool) then err (invalid pool.name) else ok shard

  abbrev pub get_or_init_shard_named_after_node_pool : Readings → Pool → Result SchedulingShard
  get_or_init_shard_named_after_node_pool readings pool =
      or_init pool (readings.get_shard pool.name)

  abbrev pub unowned : Readings → Pool → Option SchedulingShard → Result (Unit {0})
  unowned readings pool none = get_or_init_shard_named_after_node_pool readings pool >>= λ _. ok tt
  unowned readings pool (some shard) =
      if owning_node_pool_name cluster shard != "" then err (invalid pool.name) else ok tt

  unfoldable pub validate_partition_label_value : Readings → Pool → Result (Unit {0})
  validate_partition_label_value readings pool =
      resolve_shard_for_node_pool readings pool >>= unowned readings pool

  unfoldable pub validate_create : Readings → Pool → Result (Unit {0})
  validate_create readings pool =
      validate_labels readings pool >>= λ _. validate_partition_label_value readings pool

  unfoldable pub validate_delete : Pool → Result (Unit {0})
  validate_delete pool =
      if pool.name == cfg.default_nodepool_name then err (invalid pool.name) else ok tt

  -- The shard that the controller may use: one that this node pool controls, or none.
  abbrev owned_by : Pool → Option SchedulingShard → Result (Option SchedulingShard)
  owned_by pool none = ok none
  owned_by pool (some shard) =
      if is_controlled_by shard pool then ok (some shard) else err (invalid pool.name)

  unfoldable pub resolve_owned_shard_for_node_pool :
      Readings → Pool → Result (Option SchedulingShard)
  resolve_owned_shard_for_node_pool readings pool =
      resolve_shard_for_node_pool readings pool >>= owned_by pool

  abbrev pub no_other_shard : SchedulingShard → Answer (List SchedulingShard) → Result (Unit {0})
  no_other_shard shard (fail e) = err (invalid shard.name)
  no_other_shard shard (reply others) =
      if any (λ other. other.name != shard.name) others then err (invalid shard.name) else ok tt

  abbrev pub found_pool : SchedulingShard → Answer Pool → Result (Unit {0})
  found_pool shard (reply _) = ok tt
  found_pool shard (fail e) = err (invalid shard.name)

  abbrev pub require_node_pool : Readings → SchedulingShard → Result (Unit {0})
  require_node_pool readings shard =
      found_pool shard
        (readings.get_pool (node_pool_name_for_partition_label_value shard.partition_label_value))

  unfoldable pub validate_shard_create : Readings → SchedulingShard → Result (Unit {0})
  validate_shard_create readings shard =
      no_other_shard shard (readings.list_shards_with shard.partition_label_value) >>= λ _.
      if is_unmanaged cluster shard then ok tt else require_node_pool readings shard

  abbrev pub same_label : Option String → Option String → Bool
  same_label none none = true
  same_label (some a) (some b) = a == b
  same_label _ _ = false

  unfoldable pub validate_shard_update : (old new : SchedulingShard) → Result (Unit {0})
  validate_shard_update old new =
      if old.partition_label_value != new.partition_label_value
      then err (invalid new.name)
      else if new.partition_label_value != ""
          && not (
              same_label (lookup ignore_shard_label_key old.labels)
                (lookup ignore_shard_label_key new.labels))
      then err (invalid new.name)
      else ok tt
