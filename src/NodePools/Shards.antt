-- ===== src/NodePools/Shards.antt =====
-- The scheduling shards that stay with a pre-existing scheduler:
-- pkg/nodepool-controller/unmanaged-shards/unmanaged_shards.go.
use kai_resource_management.Prelude.{
  ◌==◌, ◌!=◌, if◌then◌else◌, find?, filter, get_or_empty, Result, ok, err, String, Bool, false, not,
  ◌&&◌, Option, none, some, List, map,
}
use kai_resource_management.Objects.{OwnerReference, Answer, reply, fail}
use kai_resource_management.NodePools.{SchedulingShard, Patch, Cluster}

abbrev pub ignore_shard_label_key : String
ignore_shard_label_key = "kai/ignore-shard-for-krm"

-- metav1.GetControllerOf: the owner reference that is marked as the controller's.
abbrev pub is_controller : OwnerReference → Bool
is_controller owner = is_set owner.controller
  where
    is_set : Option Bool → Bool
    is_set none = false
    is_set (some controller) = controller

module _ (cluster : Cluster) where
  abbrev pub is_node_pool_reference : OwnerReference → Bool
  is_node_pool_reference owner =
      owner.kind == "NodePool" && is_group (cluster.parse_group owner.api_version)
    where
      is_group : Option String → Bool
      is_group none = false
      is_group (some group) = group == cluster.node_pool_group

  abbrev pub owning_node_pool_name : SchedulingShard → String
  owning_node_pool_name shard = name_of (find? is_controller shard.owner_references)
    where
      name_of : Option OwnerReference → String
      name_of none = ""
      name_of (some owner) = if not (is_node_pool_reference owner) then "" else owner.name

  unfoldable pub is_unmanaged : SchedulingShard → Bool
  is_unmanaged shard =
      get_or_empty ignore_shard_label_key shard.labels == "true"
      && shard.partition_label_value != ""
      && owning_node_pool_name shard == ""

  abbrev pub unmanaged_values : Answer (List SchedulingShard) → Result (List String)
  unmanaged_values (reply shards) =
      ok (map (λ shard. shard.partition_label_value) (filter is_unmanaged shards))
  unmanaged_values (fail e) = err e

  abbrev pub list_partition_label_values : List Patch → Result (List String)
  list_partition_label_values sent = unmanaged_values (cluster.list_shards sent)
