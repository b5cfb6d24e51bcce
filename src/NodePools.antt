-- ===== src/NodePools.antt =====
-- The node pool controller: pkg/nodepool-controller/nodepool_controller, with its helpers of
-- pkg/nodepool-controller/utils. The objects, what the API server answers, and the patches that the
-- controller sends. A turn is the handling of one node: Client.Patch writes the server's answer into
-- the node that it is given, so the node is part of the state.
pub mod Pods
pub mod Reading
pub mod Drain
pub mod Merging
pub mod Marked
pub mod Grouped
pub mod Held
pub mod Destination
pub mod Moving
pub mod Nrt
pub mod NrtShown
pub mod NrtHealth
pub mod Annotations
pub mod Shards
pub mod Allowed
pub mod AllowedTurns
pub mod Sent
pub mod Nodes
pub mod Texts
pub mod Status
pub mod Phases
pub mod Keyed
pub mod StatusEqual
pub mod Calculation
pub mod Finalize
pub mod Blocked
pub mod Completed
pub mod Sample
mod Tests
mod EventTests
pub mod Reconcile
pub mod Events
pub mod Requested
use kai_resource_management.Prelude.{
  is_some, lookup, Err, Result, ok, err, ℕ, String, Bool, Option, List, ◌∷◌,
}
use kai_resource_management.Objects.{
  Labels, OwnerReference, NodePoolPhase, Project, Topology, Requirement, Answer, reply, fail, lift,
}
use kai_resource_management.Effects.{Effect}

-- The configuration of the controller, and the constants of the API modules that it uses.
pub record NodePoolsConfig : Type 0 where
  pub default_nodepool_name : String
  pub excluded_nodepool_name : String
  pub node_pool_name_label : String
  pub unschedulable_label_key : String
  pub finalizer_name : String
  pub pod_group_annotation_for_pod : String
  pub default_gpu_label_key : String
  pub gpu_detection_annotation : String
  pub gpu_label_key_annotation : String
  pub gpu_detected_annotation : String
  pub use_gpu_network_acceleration : String
  pub auto_gpu_network_acceleration : String
  pub topology_manager_policy_annotation : String
  pub project_references_exist : String
  pub project_references_exist_reason : String
  pub node_topology_mismatch : String
  pub node_topology_mismatch_reason : String
  pub nodepool_missing_nrt : String
  pub nodepool_missing_nrt_reason : String

pub record NodeCondition : Type 0 where
  pub condition_type : String
  pub status : String
  pub reason : String
  pub message : String
  pub last_heartbeat_time : ℕ
  pub last_transition_time : ℕ

pub record Node : Type 0 where
  pub name : String
  pub labels : Labels
  pub annotations : Labels
  pub unschedulable : Bool
  pub conditions : List NodeCondition

pub data NodeStatus : Type 0 where
  node_ready node_unschedulable node_missing_nrt : NodeStatus

pub record NodeInNodePool : Type 0 where
  pub name : String
  pub status : NodeStatus
  pub topology_mismatch : Bool

pub record NodePoolCondition : Type 0 where
  pub condition_type : String
  pub status : String
  pub reason : String
  pub message : String
  pub last_transition_time : ℕ

pub record NodePoolStatus : Type 0 where
  pub phase : NodePoolPhase
  pub message : String
  pub nodes : List NodeInNodePool
  pub conditions : List NodePoolCondition

-- A node pool with the fields that its own controller uses. `plugins` is the map of the scheduling
-- shard's configuration, where there is one: for each plugin, its `enabled` pointer.
pub record Pool : Type 0 where
  pub name : String
  pub uid : String
  pub label_key : String
  pub label_value : String
  pub preferred_network_topology_name : String
  pub annotations : Labels
  pub finalizers : List String
  pub plugins : Option (List (String × Option Bool))
  pub being_deleted : Bool
  pub status : NodePoolStatus

-- A SchedulingShard, with the fields that tell whether it is managed here.
pub record SchedulingShard : Type 0 where
  pub name : String
  pub labels : Labels
  pub owner_references : List OwnerReference
  pub partition_label_value : String

-- A pod that the field index gives for a node.
pub record RunningPod : Type 0 where
  pub name : String
  pub namespace : String
  pub labels : Labels
  pub annotations : Labels

-- A NodeResourceTopology: its zones' types and its attributes.
pub record NodeResourceTopology : Type 0 where
  pub zone_types : List String
  pub attributes : Labels

-- A JSON merge patch of a node: a value, or null where a key is to go.
abbrev pub MergePatch : Type 0
MergePatch = List (String × Option String)

pub record NodePatch : Type 0 where
  pub labels : MergePatch
  pub annotations : MergePatch
  pub unschedulable : Option Bool

-- A strategic merge patch of a node's conditions, which are keyed by their type.
pub data ConditionPatch : Type 0 where
  upsert_condition : NodeCondition → ConditionPatch
  delete_condition : (condition_type : String) → ConditionPatch

pub data Patch : Type 0 where
  patch_node : Node → NodePatch → Patch
  patch_node_status : Node → ConditionPatch → Patch
  patch_pool_finalizers : (name : String) → List String → Patch
  patch_pool_status : (name : String) → NodePoolStatus → Patch
  patch_pool_annotations : (name : String) → MergePatch → Patch

-- What the API server answers, after the patches sent so far. `check_requirement` is
-- labels.NewRequirement's check, `list_shards` lists those with the label that KRM ignores, and
-- `parse_group` is the group that schema.ParseGroupVersion reads, unless it fails. `uninstall_owner` reads
-- whether the object that shows an uninstall is being deleted, where one is configured. The scheduler
-- operand tells whether it is ready and why not, and `unresolvable_shard` is the text of an error that
-- is an UnresolvableShardError. `set_condition` is SetNodePoolCondition of the API module after
-- SetConditionStatusValue. `to_lower` and `to_decimal` are strings.ToLower and the format of a number.
pub record Cluster : Type 0 where
  pub now : ℕ
  pub check_requirement : Requirement → Answer (Unit {0})
  pub list_pods : List Patch → (node_name : String) → Requirement → Answer (List RunningPod)
  pub get_pod_group_labels : List Patch → (namespace name : String) → Answer Labels
  pub get_nrt : List Patch → String → Answer NodeResourceTopology
  pub get_topology : List Patch → String → Answer Topology
  pub list_nodes : List Patch → List Requirement → Answer (List Node)
  pub list_available_pools : List Patch → Answer (List Pool)
  pub list_shards : List Patch → Answer (List SchedulingShard)
  pub parse_group : String → Option String
  pub node_pool_group : String
  pub list_projects : List Patch → Answer (List Project)
  pub perform : List Patch → Node → NodePatch → Answer Node
  pub perform_status : List Patch → Node → ConditionPatch → Answer Node
  pub perform_pool : List Patch → Patch → Answer (Unit {0})
  pub uninstall_owner : Option (List Patch → Answer Bool)
  pub reconcile_scheduler : List Patch → Pool → Answer (Unit {0})
  pub scheduler_status : List Patch → Pool → Answer (Bool × List String)
  pub unresolvable_shard : Err → Option String
  pub set_condition :
      NodePoolCondition → (holds : Bool) → List NodePoolCondition → List NodePoolCondition
  pub to_lower : String → String
  pub to_decimal : ℕ → String

-- The node in hand, and the patches sent, the latest first.
pub record Turn : Type 0 where
  pub node : Node
  pub sent : List Patch

abbrev pub OnNode : Type 0 → Type 0
OnNode A = Effect Turn A

-- A step that sends patches without a node in hand.
abbrev pub Sending : Type 0 → Type 0
Sending A = Effect (List Patch) A

abbrev pub with_node : {A : Type 0} → (Node → OnNode A) → OnNode A
with_node f t = f t.node t

abbrev pub ask_for : {A : Type 0} → (List Patch → Answer A) → OnNode A
ask_for question t = (lift (question t.sent), t)

-- Where the question fails, the outcome says so and the call goes on.
abbrev pub try_for : {A : Type 0} → (List Patch → Answer A) → OnNode (Answer A)
try_for question t = (ok (question t.sent), t)

abbrev pub replaced_by : Turn → Answer Node → Result (Unit {0}) × Turn
replaced_by t (reply node) = (ok tt, record t { node = node })
replaced_by t (fail e) = (err e, t)

-- `patchObject` on a node.
abbrev pub send_node_patch : Cluster → NodePatch → OnNode (Unit {0})
send_node_patch cluster patch t =
    let answer = cluster.perform t.sent t.node patch in
    replaced_by (record t { sent = patch_node t.node patch ∷ t.sent }) answer

-- `patchNodeStatus`.
abbrev pub send_condition_patch : Cluster → ConditionPatch → OnNode (Unit {0})
send_condition_patch cluster patch t =
    let answer = cluster.perform_status t.sent t.node patch in
    replaced_by (record t { sent = patch_node_status t.node patch ∷ t.sent }) answer

-- A patch of a node pool.
abbrev pub send_pool_patch : Cluster → Patch → Sending (Unit {0})
send_pool_patch cluster patch sent = (lift (cluster.perform_pool sent patch), patch ∷ sent)

abbrev pub has_label : String → Labels → Bool
has_label key labels = is_some (lookup key labels)
