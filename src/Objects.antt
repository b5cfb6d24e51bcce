-- ===== src/Objects.antt =====
-- The Kubernetes and KAI API objects that the controllers read and write, with the fields that
-- they use. The types are declared by the API modules, which this repository imports. A float64
-- amount is only copied and compared here, so a number stands for it.
use kai_resource_management.Prelude.{ℤ, Err, Result, ok, err, ℕ, String, Bool, Option, List}

abbrev pub Labels : Type 0
Labels = List (String × String)

pub record OwnerReference : Type 0 where
  pub api_version : String
  pub kind : String
  pub name : String
  pub uid : String
  pub controller : Option Bool
  pub block_owner_deletion : Option Bool

pub record QueueResource : Type 0 where
  pub quota : ℕ
  pub over_quota_weight : ℕ
  pub limit : ℕ

pub record QueueResources : Type 0 where
  pub gpu : QueueResource
  pub cpu : QueueResource
  pub memory : QueueResource

pub record QueueSpec : Type 0 where
  pub display_name : String
  pub parent_queue : String
  pub resources : Option QueueResources
  pub priority : Option ℤ

pub record Queue : Type 0 where
  pub name : String
  pub labels : Labels
  pub owner_references : List OwnerReference
  pub spec : QueueSpec

-- `unset` is the empty phase of a node pool that no reconcile has seen yet.
pub data NodePoolPhase : Type 0 where
  unset empty ready unschedulable deleting missing_prerequisites : NodePoolPhase

pub record NodePool : Type 0 where
  pub name : String
  pub label_key : String
  pub label_value : String
  pub preferred_network_topology_name : String
  pub phase : NodePoolPhase

pub record ResourceConfig : Type 0 where
  pub deserved : ℕ
  pub over_quota_weight : ℕ
  pub limit : ℕ

pub record ResourcesConfig : Type 0 where
  pub gpu : ResourceConfig
  pub cpu : ResourceConfig
  pub memory : ResourceConfig

-- A queue of a project's or department's spec.
pub record QueueConfig : Type 0 where
  pub name : String
  pub nodepool : String
  pub resources : Option ResourcesConfig
  pub priority : Option ℤ

pub record Project : Type 0 where
  pub name : String
  pub uid : String
  pub parent : String
  pub queues : List QueueConfig
  pub default_node_pools : List String

pub record Department : Type 0 where
  pub name : String
  pub uid : String
  pub parent : String
  pub queues : List QueueConfig
  pub being_deleted : Bool

pub record Namespace : Type 0 where
  pub name : String
  pub labels : Labels

-- The node labels of a network topology's levels, the highest level first.
pub record Topology : Type 0 where
  pub levels : List String

-- One requirement of a label selector.
pub data Requirement : Type 0 where
  equals not_equals : (key value : String) → Requirement
  exists does_not_exist : (key : String) → Requirement
  not_in : (key : String) (values : List String) → Requirement

-- What a call of the API server answers: it replies or it fails.
pub data Answer {ℓ} (A : Type ℓ) : Type ℓ where
  reply : A → Answer A
  fail : Err → Answer A

abbrev pub lift {ℓ} : {A : Type ℓ} → Answer A → Result A
lift (reply a) = ok a
lift (fail e) = err e

pub data Operator : Type 0 where
  op_in op_not_in op_exists op_does_not_exist op_gt op_lt : Operator

pub record MatchExpression : Type 0 where
  pub key : String
  pub operator : Operator
  pub values : List String

abbrev pub NodeSelectorTerm : Type 0
NodeSelectorTerm = List MatchExpression

-- The terms of requiredDuringSchedulingIgnoredDuringExecution, where it is set.
pub record NodeAffinity : Type 0 where
  pub required : Option (List NodeSelectorTerm)

pub record Affinity : Type 0 where
  pub node_affinity : Option NodeAffinity

pub data PodPhase : Type 0 where
  pod_pending pod_running pod_succeeded pod_failed pod_unknown : PodPhase

pub record Pod : Type 0 where
  pub name : String
  pub annotations : Option Labels
  pub affinity : Option Affinity
  pub node_name : String
  pub phase : PodPhase

pub record TopologyConstraint : Type 0 where
  pub topology : String
  pub preferred_topology_level : String
  pub required_topology_level : String

-- A scheduling condition of a pod group; `unschedulable_on_node_pool` tells that type apart.
pub record SchedulingCondition : Type 0 where
  pub node_pool : String
  pub unschedulable_on_node_pool : Bool

pub record PodGroup : Type 0 where
  pub name : String
  pub namespace : String
  pub uid : String
  pub labels : Labels
  pub annotations : Labels
  pub mark_unschedulable : Option Bool
  pub scheduling_backoff : Option ℤ
  pub queue : String
  pub topology_constraint : TopologyConstraint
  pub scheduling_conditions : List SchedulingCondition
