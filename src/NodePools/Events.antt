-- ===== src/NodePools/Events.antt =====
-- Which events of the API server reconcile which node pools: nodepool_event_filter.go, and
-- pkg/nodepool-controller/common/filter_common.go.
use text.Mathlib.Text.{find? as find_text?}
use Prim.Native.String
use kai_resource_management.Prelude.{
  ◌==◌, ◌!=◌, if◌then◌else◌, is_some, any, all, contains, lookup, get_or_empty, Result, ok, String,
  Bool, true, false, not, ◌&&◌, ◌||◌, Option, none, some, List, [], ◌∷◌, map,
}
use kai_resource_management.Objects.{Labels, Project, Answer, reply, fail}
use kai_resource_management.NodePools.{
  NodePoolsConfig, Node, NodePoolStatus, Pool, Patch, Cluster, has_label,
}
use kai_resource_management.NodePools.Pods.{node_pool_name_from_labels}
use kai_resource_management.NodePools.Shards.{list_partition_label_values}

-- An update, with the object before and after it where the filter looks at both.
pub data Update : Type 0 where
  service_monitor_update scheduling_shard_update node_pool_update other_update : Update
  node_update : (old_phase new_phase : String) → (old new : Node) → Update
  project_update : (old new : Project) → Update

-- reflect.DeepEqual on maps of labels. A map that is nil counts as an empty one here.
abbrev pub labels_within : Labels → Labels → Labels → Bool
labels_within labels others [] = true
labels_within labels others ((key, _) ∷ rest) =
    same (lookup key labels) (lookup key others) && labels_within labels others rest
  where
    same : Option String → Option String → Bool
    same none none = true
    same (some a) (some b) = a == b
    same _ _ = false

abbrev pub node_labels_eq : Labels → Labels → Bool
node_labels_eq labels others =
    labels_within labels others labels && labels_within labels others others

abbrev same_flag : Bool → Bool → Bool
same_flag true b = b
same_flag false b = not b

unfoldable pub filter_node_updates : (old_phase new_phase : String) → (old new : Node) → Bool
filter_node_updates old_phase new_phase old new =
    if old_phase != new_phase
    then true
    else if not (same_flag old.unschedulable new.unschedulable)
    then true
    else if not (node_labels_eq old.labels new.labels)
    then true
    else false

-- The set of the node pools' names, as a list.
abbrev pub get_project_node_pool_refs : Project → List String
get_project_node_pool_refs project = map (λ queue. queue.nodepool) project.queues

abbrev pub refs_eq : List String → List String → Bool
refs_eq refs others = all (contains others) refs && all (contains refs) others

unfoldable pub filter_update_events : Update → Bool
filter_update_events service_monitor_update = true
filter_update_events scheduling_shard_update = true
filter_update_events (node_update old_phase new_phase old new) =
    filter_node_updates old_phase new_phase old new
filter_update_events node_pool_update = true
filter_update_events (project_update old new) =
    not (refs_eq (get_project_node_pool_refs old) (get_project_node_pool_refs new))
filter_update_events other_update = false

-- What the controller's client reads when an event comes.
pub record Watched : Type 0 where
  pub list_pools : Answer (List Pool)
  pub list_deleting_pools : Answer (List Pool)
  pub get_pool : String → Answer Pool
  pub get_node : String → Answer Node

abbrev pub names_of : Answer (List Pool) → List String
names_of (reply pools) = map (λ pool. pool.name) pools
names_of (fail e) = []

abbrev pub map_project_to_node_pool_events : Watched → List String
map_project_to_node_pool_events watched = names_of watched.list_deleting_pools

abbrev pub node_name_with_suffixes_to_search_for : String → List String
node_name_with_suffixes_to_search_for node_name =
    map (λ suffix. String.◌++◌ node_name suffix) (" " ∷ "," ∷ "." ∷ [])

unfoldable pub is_node_in_nodepool_status_message : List String → NodePoolStatus → Bool
is_node_in_nodepool_status_message node_name_with_suffixes status =
    any (λ text. is_some (find_text? status.message text)) node_name_with_suffixes

module _ (cfg : NodePoolsConfig) where
  unfoldable pub is_node_unschedulable_by_us : Node → Bool
  is_node_unschedulable_by_us node =
      has_label cfg.unschedulable_label_key node.labels && node.unschedulable

  -- The loop over the node pools.
  unfoldable pub other_dest_node_pools :
      Node → (already_in_requests : String) → List Pool → List String
  other_dest_node_pools node already_in_requests [] = []
  other_dest_node_pools node already_in_requests (pool ∷ pools) =
      let rest = other_dest_node_pools node already_in_requests pools in
      let by_us = is_node_unschedulable_by_us node in
      if pool.name == already_in_requests
      then rest
      else if not by_us
          && is_node_in_nodepool_status_message (node_name_with_suffixes_to_search_for node.name)
              pool.status
      then pool.name ∷ rest
      else if not by_us
      then rest
      else if pool.label_key == "" || pool.label_value == "" || pool.being_deleted
      then rest
      else if get_or_empty pool.label_key node.labels == pool.label_value
      then pool.name ∷ rest
      else rest

  abbrev pub or_default_node_pool : (by_us : Bool) → List String → List String
  or_default_node_pool by_us [] = if by_us then cfg.default_nodepool_name ∷ [] else []
  or_default_node_pool by_us (name ∷ names) = name ∷ names

  abbrev pub map_node_to_other_dest_node_pools :
      Node → (already_in_requests : String) → Answer (List Pool) → List String
  map_node_to_other_dest_node_pools node already_in_requests (fail e) = []
  map_node_to_other_dest_node_pools node already_in_requests (reply pools) =
      or_default_node_pool (is_node_unschedulable_by_us node)
        (other_dest_node_pools node already_in_requests pools)

  -- A list of the unmanaged partitions that fails is only logged.
  abbrev pub is_in_unmanaged_partition : Result (List String) → (node_pool : String) → Bool
  is_in_unmanaged_partition (ok values) node_pool = contains values node_pool
  is_in_unmanaged_partition _ node_pool = false

  abbrev pub found_or_default : String → Answer Pool → String
  found_or_default node_pool (reply _) = node_pool
  found_or_default node_pool (fail e) = cfg.default_nodepool_name

  module _ (cluster : Cluster) (sent : List Patch) (watched : Watched) where
    unfoldable pub map_node_to_node_pool_event : Node → List String
    map_node_to_node_pool_event node =
        let assigned = node_pool_name_from_labels cfg node.labels in
        let node_pool = found_or_default assigned (watched.get_pool assigned) in
        if assigned == cfg.excluded_nodepool_name
        then []
        else if is_in_unmanaged_partition (list_partition_label_values cluster sent) assigned
        then []
        else node_pool ∷ map_node_to_other_dest_node_pools node node_pool watched.list_pools

    abbrev pub map_nrt_to_node_pool_event : (name : String) → List String
    map_nrt_to_node_pool_event name = of_node (watched.get_node name)
      where
        of_node : Answer Node → List String
        of_node (reply node) = map_node_to_node_pool_event node
        of_node (fail e) = []
