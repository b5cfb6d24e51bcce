-- ===== src/NodePools/Nrt.antt =====
-- The NRT health of a node: nrt_health_handler.go. A node of a node pool with the numa plugin has a
-- condition exactly while its NodeResourceTopology is missing or unusable.
use Prim.Native.String
use kai_resource_management.Prelude.{
  ◌==◌, ◌!=◌, if◌then◌else◌, is_some, contains, lookup, or_empty, Result, ok, err, is_not_found, ℕ,
  String, Bool, true, false, not, ◌&&◌, ◌||◌, Option, none, some, List, [], ◌∷◌,
}
use kai_resource_management.Objects.{Answer, reply, fail}
use kai_resource_management.Effects.{◌>>=◌, ◌>>◌, give}
use kai_resource_management.NodePools.{
  NodeCondition, Pool, NodeResourceTopology, upsert_condition, delete_condition, Cluster, OnNode,
  with_node, send_condition_patch,
}

abbrev pub nrt_healthy_condition_type : String
nrt_healthy_condition_type = "MissingNrtHealthyPrerequisite"

abbrev pub nrt_health_reason_missing : String
nrt_health_reason_missing = "Missing"

abbrev pub nrt_health_reason_policy_not_enforcing : String
nrt_health_reason_policy_not_enforcing = "PolicyNotEnforcing"

abbrev pub nrt_health_reason_no_numa_zones : String
nrt_health_reason_no_numa_zones = "NoNumaZones"

abbrev pub nrt_missing_item_no_object : String
nrt_missing_item_no_object = "NodeResourceTopology custom resource missing"

abbrev pub nrt_missing_item_no_numa_zones : String
nrt_missing_item_no_numa_zones = "NodeResourceTopology custom resource invalid"

abbrev pub nrt_missing_item_policy : String
nrt_missing_item_policy = "Kubelet Topology Manager Policy misconfigured"

abbrev pub condition_true : String
condition_true = "True"

abbrev pub nrt_prereq_message : String → String
nrt_prereq_message missing_item =
    String.◌++◌ "The following prerequisites are not met on the node: "
      (String.◌++◌ missing_item ". As a result, NUMA-aware scheduling may be impacted.")

abbrev pub nrt_node_pool_missing_item_for_reason : String → String
nrt_node_pool_missing_item_for_reason reason =
    if reason == nrt_health_reason_missing
    then nrt_missing_item_no_object
    else if reason == nrt_health_reason_no_numa_zones
    then nrt_missing_item_no_numa_zones
    else if reason == nrt_health_reason_policy_not_enforcing
    then nrt_missing_item_policy
    else ""

abbrev pub is_numa_enabled : Pool → Bool
is_numa_enabled pool = of_plugins pool.plugins
  where
    of_enabled : Option (Option Bool) → Bool
    of_enabled (some (some enabled)) = enabled
    of_enabled _ = false

    of_plugins : Option (List (String × Option Bool)) → Bool
    of_plugins none = false
    of_plugins (some plugins) = of_enabled (lookup "numa" plugins)

-- The node's conditions.
unfoldable pub find_node_condition : String → List NodeCondition → Option NodeCondition
find_node_condition kind [] = none
find_node_condition kind (condition ∷ conditions) =
    if condition.condition_type == kind then some condition else find_node_condition kind conditions

unfoldable pub upsert_node_condition : NodeCondition → List NodeCondition → List NodeCondition
upsert_node_condition new [] = new ∷ []
upsert_node_condition new (condition ∷ conditions) =
    let rest = upsert_node_condition new conditions in
    if condition.condition_type == new.condition_type then new ∷ conditions else condition ∷ rest

unfoldable pub delete_node_condition : String → List NodeCondition → List NodeCondition
delete_node_condition kind [] = []
delete_node_condition kind (condition ∷ conditions) =
    let rest = delete_node_condition kind conditions in
    if condition.condition_type == kind then conditions else condition ∷ rest

module _ (cluster : Cluster) where
  abbrev pub has_numa_node_zone : NodeResourceTopology → Bool
  has_numa_node_zone nrt = contains nrt.zone_types "Node"

  abbrev pub topology_manager_policy : NodeResourceTopology → Option String
  topology_manager_policy nrt = lowered (lookup "topologyManagerPolicy" nrt.attributes)
    where
      lowered : Option String → Option String
      lowered none = none
      lowered (some value) = some (cluster.to_lower value)

  abbrev pub is_policy_enforcing : NodeResourceTopology → Bool
  is_policy_enforcing nrt = enforces (topology_manager_policy nrt)
    where
      enforces : Option String → Bool
      enforces none = false
      enforces (some policy) = policy != "none"

  -- healthy, reason and message
  unfoldable pub evaluate_nrt_health : Option NodeResourceTopology → Bool × (String × String)
  evaluate_nrt_health none =
      (false, (nrt_health_reason_missing, nrt_prereq_message nrt_missing_item_no_object))
  evaluate_nrt_health (some nrt) =
      if not (has_numa_node_zone nrt)
      then (
        false,
        (nrt_health_reason_no_numa_zones, nrt_prereq_message nrt_missing_item_no_numa_zones),
      )
      else if not (is_policy_enforcing nrt)
      then (
        false,
        (nrt_health_reason_policy_not_enforcing, nrt_prereq_message nrt_missing_item_policy),
      )
      else (true, ("", ""))

  abbrev pub found_nrt : Answer NodeResourceTopology → Result (Option NodeResourceTopology)
  found_nrt (reply nrt) = ok (some nrt)
  found_nrt (fail e) = if is_not_found e then ok none else err e

  unfoldable pub get_node_resource_topology : OnNode (Option NodeResourceTopology)
  get_node_resource_topology t = (found_nrt (cluster.get_nrt t.sent t.node.name), t)

  abbrev pub is_up_to_date : (reason message : String) → Option NodeCondition → Bool
  is_up_to_date reason message none = false
  is_up_to_date reason message (some existing) =
      existing.status == condition_true && existing.reason == reason && existing.message == message

  -- The transition time of a condition that exists is kept.
  abbrev pub transition_time : Option NodeCondition → ℕ
  transition_time none = cluster.now
  transition_time (some existing) = existing.last_transition_time

  abbrev pub nrt_condition : (reason message : String) → Option NodeCondition → NodeCondition
  nrt_condition reason message existing = record {
    condition_type = nrt_healthy_condition_type;
    status = condition_true;
    reason = reason;
    message = message;
    last_heartbeat_time = cluster.now;
    last_transition_time = transition_time existing;
  }

  abbrev pub change_conditions : (List NodeCondition → List NodeCondition) → OnNode (Unit {0})
  change_conditions change t =
      (ok tt, record t { node = record t.node { conditions = change t.node.conditions } })

  unfoldable pub ensure_nrt_condition : (reason message : String) → OnNode (Unit {0})
  ensure_nrt_condition reason message = with_node λ node.
      let existing = find_node_condition nrt_healthy_condition_type node.conditions in
      let condition = nrt_condition reason message existing in
      if is_up_to_date reason message existing
      then give (ok tt)
      else send_condition_patch cluster (upsert_condition condition)
        >> change_conditions (upsert_node_condition condition)

  unfoldable pub remove_nrt_condition : OnNode (Unit {0})
  remove_nrt_condition = with_node λ node.
      if not (is_some (find_node_condition nrt_healthy_condition_type node.conditions))
      then give (ok tt)
      else send_condition_patch cluster (delete_condition nrt_healthy_condition_type)
        >> change_conditions (delete_node_condition nrt_healthy_condition_type)

  abbrev pub apply_nrt_health : Bool × (String × String) → OnNode (Unit {0})
  apply_nrt_health (healthy, (reason, message)) =
      if not healthy then ensure_nrt_condition reason message else remove_nrt_condition

  -- `nrt_enabled` tells whether the CRD of the NodeResourceTopologies is installed.
  unfoldable pub reconcile_nrt_health_condition : (nrt_enabled : Bool) → Pool → OnNode (Unit {0})
  reconcile_nrt_health_condition nrt_enabled pool =
      if not (is_numa_enabled pool)
      then remove_nrt_condition
      else if not nrt_enabled
      then ensure_nrt_condition nrt_health_reason_missing
          (nrt_prereq_message nrt_missing_item_no_object)
      else get_node_resource_topology >>= λ nrt. apply_nrt_health (evaluate_nrt_health nrt)

  abbrev policy_of : Option NodeResourceTopology → String
  policy_of none = ""
  policy_of (some nrt) = or_empty (topology_manager_policy nrt)

  abbrev pub topology_manager_policy_from_node_nrt : (nrt_enabled : Bool) → Pool → OnNode String
  topology_manager_policy_from_node_nrt nrt_enabled pool =
      if not (is_numa_enabled pool) || not nrt_enabled
      then give (ok "")
      else get_node_resource_topology >>= λ nrt. give (ok (policy_of nrt))
