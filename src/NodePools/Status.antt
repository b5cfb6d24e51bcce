-- ===== src/NodePools/Status.antt =====
-- The status of a node pool: nodepool_status_handler.go, the topology mismatch of node_handler.go, and
-- project_reference_handler.go.
use Prim.Native.String
use kai_resource_management.Prelude.{
  ◌==◌, ◌!=◌, if◌then◌else◌, any, filter, contains, String, Bool, true, false, not, ◌&&◌, ◌||◌,
  Option, none, some, List, [], ◌∷◌,
}
use kai_resource_management.Objects.{
  NodePoolPhase, empty, ready, unschedulable, missing_prerequisites,
}
use kai_resource_management.NodePools.{
  NodeCondition, Node, NodeStatus, node_ready, node_unschedulable, node_missing_nrt, NodeInNodePool,
}
use kai_resource_management.NodePools.Texts.{sort_by, sorted, join}
use kai_resource_management.NodePools.Nrt.{
  nrt_healthy_condition_type, condition_true, nrt_node_pool_missing_item_for_reason,
  find_node_condition,
}

-- `isNodeReady`.
abbrev pub is_node_ready : Node → Bool
is_node_ready node =
    if node.unschedulable
    then false
    else any (λ c. c.status == condition_true && c.condition_type == "Ready") node.conditions

pub record Situation : Type 0 where
  pub unschedulable_nodes : List String
  pub missing_nrt_items : List String
  pub nodes_in_node_pool : List NodeInNodePool
  pub at_least_one_node_ready : Bool
  pub at_least_one_node_unschedulable : Bool

abbrev pub add_new : List String → String → List String
add_new items item = if item == "" || contains items item then items else item ∷ items

-- The item that a node's NRT condition reports as missing, and whether it has that condition.
abbrev pub missing_nrt_of : Node → Bool × String
missing_nrt_of node = of_condition (find_node_condition nrt_healthy_condition_type node.conditions)
  where
    of_condition : Option NodeCondition → Bool × String
    of_condition none = (false, "")
    of_condition (some c) =
        if c.status == condition_true
        then (true, nrt_node_pool_missing_item_for_reason c.reason)
        else (false, "")

abbrev pub in_node_pool : Node → NodeStatus → NodeInNodePool
in_node_pool node status = record { name = node.name; status = status; topology_mismatch = false }

abbrev pub add_node : Node → Situation → Situation
add_node node rest =
    let (missing, item) = missing_nrt_of node in
    let items = if missing then add_new rest.missing_nrt_items item else rest.missing_nrt_items in
    if is_node_ready node
    then record {
      unschedulable_nodes = rest.unschedulable_nodes;
      missing_nrt_items = items;
      nodes_in_node_pool =
          in_node_pool node (if missing then node_missing_nrt else node_ready)
          ∷ rest.nodes_in_node_pool;
      at_least_one_node_ready = true;
      at_least_one_node_unschedulable = rest.at_least_one_node_unschedulable;
    }
    else record {
      unschedulable_nodes = node.name ∷ rest.unschedulable_nodes;
      missing_nrt_items = items;
      nodes_in_node_pool = in_node_pool node node_unschedulable ∷ rest.nodes_in_node_pool;
      at_least_one_node_ready = rest.at_least_one_node_ready;
      at_least_one_node_unschedulable = true;
    }

unfoldable pub gather_nodes : List Node → Situation
gather_nodes [] = record {
  unschedulable_nodes = [];
  missing_nrt_items = [];
  nodes_in_node_pool = [];
  at_least_one_node_ready = false;
  at_least_one_node_unschedulable = false;
}
gather_nodes (node ∷ nodes) = add_node node (gather_nodes nodes)

-- `getNodesSituation`.
abbrev pub nodes_situation : List Node → Situation
nodes_situation nodes =
    let found = gather_nodes nodes in
    record found {
      unschedulable_nodes = sorted found.unschedulable_nodes;
      missing_nrt_items = sorted found.missing_nrt_items;
      nodes_in_node_pool = sort_by (λ node. node.name) found.nodes_in_node_pool;
    }

abbrev pub is_unschedulable_phase : NodePoolPhase → Bool
is_unschedulable_phase unschedulable = true
is_unschedulable_phase _ = false

unfoldable pub node_pool_phase_for_node_situation :
    (one_ready one_unschedulable missing_prerequisite : Bool) → NodePoolPhase
node_pool_phase_for_node_situation one_ready one_unschedulable missing_prerequisite =
    let phase = if one_ready then ready else if one_unschedulable then unschedulable else empty in
    if missing_prerequisite && not (is_unschedulable_phase phase)
    then missing_prerequisites
    else phase

abbrev pub is_nonempty_list : {A : Type 0} → List A → Bool
is_nonempty_list [] = false
is_nonempty_list (_ ∷ _) = true

abbrev pub join_node_pool_status_messages : List String → String
join_node_pool_status_messages messages = join "\n" (filter (λ message. message != "") messages)

abbrev pub nrt_node_pool_prereq_message : List String → String
nrt_node_pool_prereq_message [] = ""
nrt_node_pool_prereq_message (item ∷ items) =
    String.◌++◌ "The following prerequisites are not met on one or more nodes in the node pool: " (
      String.◌++◌ (join ", " (item ∷ items))
        ". As a result, NUMA-aware scheduling may be impacted.")

abbrev pub get_node_pool_status_message : List String → String → String
get_node_pool_status_message [] prefix = ""
get_node_pool_status_message (node ∷ nodes) prefix =
    String.◌++◌ prefix (String.◌++◌ ": " (join ", " (node ∷ nodes)))

abbrev pub get_node_pool_deleting_message : List String → String
get_node_pool_deleting_message nodes = get_node_pool_status_message nodes "Nodes Being Drained"
