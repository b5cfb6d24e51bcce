-- ===== src/NodePools/Sample.antt =====
-- A small cluster for tests, whose API server applies merge patches.
use kai_resource_management.Prelude.{
  ◌!=◌, if◌then◌else◌, filter, lookup, delete, insert, lookup-delete, lookup-insert, not_found,
  String, ◌≡◌, refl, subst, true, false, none, some, List, [], ◌∷◌, arith,
}
use kai_resource_management.Objects.{Labels, ready, Project, reply, fail}
use kai_resource_management.NodePools.{
  NodePoolsConfig, NodeCondition, Node, node_ready, NodePoolStatus, Pool, RunningPod,
  NodeResourceTopology, MergePatch, NodePatch, ConditionPatch, upsert_condition, delete_condition,
  Cluster, Turn,
}
use kai_resource_management.NodePools.NrtShown.{MergesConditions}
use kai_resource_management.NodePools.Merging.{lookup_patched, or_kept, IsPatched, Merges, Accepts}
use kai_resource_management.NodePools.Nrt.{find_node_condition, upsert_node_condition}

abbrev pub cfg : NodePoolsConfig
cfg = record {
  default_nodepool_name = "default";
  excluded_nodepool_name = "excluded";
  node_pool_name_label = "pool";
  unschedulable_label_key = "closed";
  finalizer_name = "nodepool.kai.scheduler/finalize";
  pod_group_annotation_for_pod = "pod-group-name";
  default_gpu_label_key = "gpu";
  gpu_detection_annotation = "detection";
  gpu_label_key_annotation = "gpu-key";
  gpu_detected_annotation = "detected";
  use_gpu_network_acceleration = "Use";
  auto_gpu_network_acceleration = "Auto";
  topology_manager_policy_annotation = "policy";
  project_references_exist = "ProjectReferencesExist";
  project_references_exist_reason = "Referenced";
  node_topology_mismatch = "Mismatch";
  node_topology_mismatch_reason = "Mismatched";
  nodepool_missing_nrt = "MissingNrt";
  nodepool_missing_nrt_reason = "Missing";
}

abbrev pub condition : NodeCondition
condition = record {
  condition_type = "Ready";
  status = "True";
  reason = "";
  message = "";
  last_heartbeat_time = 1;
  last_transition_time = 1;
}

abbrev pub worker : Node
worker = record {
  name = "worker";
  labels = ("team", "a") ∷ ("pool", "old") ∷ [];
  annotations = [];
  unschedulable = false;
  conditions = condition ∷ [];
}

abbrev pub old_status : NodePoolStatus
old_status = record { phase = ready; message = ""; nodes = []; conditions = [] }

abbrev pub busy_status : NodePoolStatus
busy_status = record {
  phase = ready;
  message = "ready";
  nodes = (record { name = "worker"; status = node_ready; topology_mismatch = false }) ∷ [];
  conditions =
      (record {
        condition_type = "Mismatch";
        status = "False";
        reason = "";
        message = "";
        last_transition_time = 3;
      })
      ∷ [];
}

abbrev pub team_pool : Pool
team_pool = record {
  name = "new";
  uid = "new-uid";
  label_key = "team";
  label_value = "a";
  preferred_network_topology_name = "";
  annotations = [];
  finalizers = "nodepool.kai.scheduler/finalize" ∷ [];
  plugins = some (("numa", some true) ∷ []);
  being_deleted = false;
  status = old_status;
}

abbrev pub training : Project
training = record {
  name = "training";
  uid = "1";
  parent = "";
  queues = (record { name = "q"; nodepool = "new"; resources = none; priority = none }) ∷ [];
  default_node_pools = [];
}

abbrev pub pod : RunningPod
pod = record {
  name = "pod";
  namespace = "ns";
  labels = ("pool", "old") ∷ [];
  annotations = ("pod-group-name", "group") ∷ [];
}

abbrev pub topology_report : NodeResourceTopology
topology_report = record {
  zone_types = "Node" ∷ [];
  attributes = ("topologyManagerPolicy", "restricted") ∷ [];
}

unfoldable pub merge : MergePatch → Labels → Labels
merge [] labels = labels
merge ((key, some value) ∷ changes) labels = insert key value (merge changes labels)
merge ((key, none) ∷ changes) labels = delete key (merge changes labels)

lookup-merge :
    (key : String) (changes : MergePatch) (labels : Labels)
    → lookup key (merge changes labels) ≡ lookup_patched key labels changes
unfolding merge
lookup-merge key [] labels = refl
lookup-merge key ((k, some value) ∷ changes) labels =
    rw (lookup-insert k key value (merge changes labels), lookup-merge key changes labels) refl
lookup-merge key ((k, none) ∷ changes) labels =
    rw (lookup-delete k key (merge changes labels), lookup-merge key changes labels) refl

abbrev pub patched_node : Node → NodePatch → Node
patched_node node patch = record node {
  labels = merge patch.labels node.labels;
  unschedulable = or_kept patch.unschedulable node.unschedulable;
}

abbrev pub patched_conditions : ConditionPatch → List NodeCondition → List NodeCondition
patched_conditions (upsert_condition c) conditions = upsert_node_condition c conditions
patched_conditions (delete_condition kind) conditions =
    filter (λ c. c.condition_type != kind) conditions

-- The pods that run on every node.
abbrev pub cluster_of : List RunningPod → Cluster
cluster_of pods = record {
  now = 5;
  check_requirement = λ _. reply tt;
  list_pods = λ _ _ _. reply pods;
  get_pod_group_labels = λ _ _ _. reply (("pool", "old") ∷ []);
  get_nrt = λ _ _. reply topology_report;
  get_topology = λ _ _. fail not_found;
  list_nodes = λ _ _. reply (worker ∷ []);
  list_available_pools = λ _. reply (team_pool ∷ []);
  list_shards = λ _. reply [];
  parse_group = λ _. none;
  node_pool_group = "kai.resources";
  list_projects = λ _. reply (training ∷ []);
  perform = λ _ node patch. reply (patched_node node patch);
  perform_status =
      λ _ node patch. reply (record node { conditions = patched_conditions patch node.conditions });
  perform_pool = λ _ _. reply tt;
  uninstall_owner = none;
  reconcile_scheduler = λ _ _. reply tt;
  scheduler_status = λ _ _. reply (true, []);
  unresolvable_shard = λ _. none;
  set_condition = λ c holds conditions. if holds then c ∷ conditions else conditions;
  to_lower = λ s. s;
  to_decimal = λ _. "many";
}

pub cluster_of-Merges : (pods : List RunningPod) → Merges (cluster_of pods)
cluster_of-Merges pods sent node patch patched h =
    let same : patched_node node patch ≡ patched = ground arith in
    subst (IsPatched node patch) same
      (refl, (λ key. lookup-merge key patch.labels node.labels), refl)

pub cluster_of-Accepts : (pods : List RunningPod) → Accepts (cluster_of pods)
cluster_of-Accepts pods sent node patch = (patched_node node patch, refl)

abbrev pub turn : Turn
turn = record { node = worker; sent = [] }

find-filtered :
    (kind : String) (conditions : List NodeCondition)
    → find_node_condition kind (filter (λ c. c.condition_type != kind) conditions) ≡ none
unfolding find_node_condition
find-filtered kind [] = refl
find-filtered kind (c ∷ cs) = ground (arith, find-filtered kind cs)

pub cluster_of-MergesConditions : (pods : List RunningPod) → MergesConditions (cluster_of pods)
cluster_of-MergesConditions pods sent node kind patched h =
    let left = filter (λ c. c.condition_type != kind) node.conditions in
    let same : record node { conditions = left } ≡ patched = ground arith in
    subst (λ x. find_node_condition kind x.conditions ≡ none) same
      (find-filtered kind node.conditions)
