-- ===== src/Assignment/Tests.antt =====
-- Runs of the assigner on small inputs.
use kai_resource_management.Prelude.{
  pos, ◌==◌, if◌then◌else◌, length, get_elem?, In, here, there, Distinct, not-In_of_contains,
  lookup, not_found, ok, IsSafe, ◌+◌, ◌%◌, String, ◌≡◌, refl, sym, ap, ◌≢◌, true, false, none, some,
  List, [], ◌∷◌,
}
use kai_resource_management.Objects.{
  Queue, NodePoolPhase, ready, deleting, NodePool, Answer, reply, fail, pod_pending, Pod,
  TopologyConstraint, SchedulingCondition, PodGroup,
}
use kai_resource_management.Assignment.Params.{
  NodePoolAssignmentParams, is_node_pool_available_for_assignment,
  get_initial_node_pool_assignment_params, find_from, find_next_node_pool_available_for_scheduling,
  calculate_node_pool_assignment_params, get_node_pool_assignment_params,
}
use kai_resource_management.Assignment.Params.Chosen.{Accepts, chosen_node_pool}
use kai_resource_management.Assignment.Params.Search.{AllKnown, assignment_found}
use kai_resource_management.Assignment.Params.Rotation.{
  params_IsSafe, rounds, AllReady, rounds_rotate,
}
use kai_resource_management.Assignment.PodGroups.{
  AssignerConfig, FullNodePoolAssignmentParams, mutate_pod_group_obj_for_assignment,
  previous_assignment,
}
use kai_resource_management.Assignment.Queues.{
  Cluster, get_node_pool_preferred_network_topology_name, get_network_topology_lowest_level,
  desired_network_topology,
}
use kai_resource_management.Assignment.Actions.{State}
use kai_resource_management.Effects.Rules.{Ends}
use kai_resource_management.Assignment.Assigner.{assignment, patch_if_changed, run}
use kai_resource_management.Assignment.Assigner.Sound.{Inv}
use kai_resource_management.Assignment.Assigner.Stable.{reread_assignment, patch_if_changed_again}
use kai_resource_management.Assignment.Assigner.Run.{Anything, run_keeps}

abbrev pool : String → NodePoolPhase → NodePool
pool name phase = record {
  name = name;
  label_key = "kai/node-pool";
  label_value = name;
  preferred_network_topology_name = if name == "b" then "rack" else "";
  phase = phase;
}

-- Node pool "a" is being deleted, "b" takes pods, and there is no other.
abbrev get_pool : String → Answer NodePool
get_pool name =
    if name == "a"
    then reply (pool "a" deleting)
    else if name == "b"
    then reply (pool "b" ready)
    else fail not_found

abbrev asked : List String
asked = "a" ∷ "b" ∷ []

abbrev refused_on_a : SchedulingCondition
refused_on_a = record { node_pool = "a"; unschedulable_on_node_pool = true }

abbrev to_b : NodePoolAssignmentParams
to_b = record {
  node_pool_name = "b";
  mark_unschedulable = true;
  scheduling_backoff = pos 1;
  remove_unschedulable_on_node_pool_scheduling_condition = false;
}

chosen_b : get_node_pool_assignment_params get_pool none none "" asked ≡ ok to_b
unfolding get_node_pool_assignment_params calculate_node_pool_assignment_params
    get_initial_node_pool_assignment_params is_node_pool_available_for_assignment
    find_next_node_pool_available_for_scheduling find_from
chosen_b = refl

chosen_node_pool_example : In "b" asked × Accepts get_pool "b"
chosen_node_pool_example = chosen_node_pool get_pool none none "" asked to_b chosen_b

asked_known : AllKnown get_pool asked
asked_known name (here e) = (pool "a" deleting, ap get_pool (sym e))
asked_known name (there (here e)) = (pool "b" ready, ap get_pool (sym e))
asked_known name (there (there m)) = elim m [ ]

assignment_found_example :
    (p : NodePoolAssignmentParams) × (get_node_pool_assignment_params get_pool none
        (some refused_on_a)
        "a"
        asked
      ≡ ok p)
assignment_found_example =
    assignment_found get_pool none (some refused_on_a) "a" asked "b" (pool "b" ready) asked_known
      (there (here refl)) refl refl

params_IsSafe_example : IsSafe (get_node_pool_assignment_params get_pool none none "" asked)
params_IsSafe_example = params_IsSafe get_pool none none "" asked (λ e. cc)

abbrev all_ready : String → Answer NodePool
all_ready name = reply (pool name ready)

all_ready_lem : AllReady all_ready asked
unfolding is_node_pool_available_for_assignment
all_ready_lem name m = refl

abbrev only_b : List String
only_b = "b" ∷ []

asked-Distinct : Distinct asked
asked-Distinct = (not-In_of_contains only_b refl, ((λ m. elim m [ ]), tt))

rounds_rotate_example :
    (a : String) × (rounds all_ready none asked "b" 1 ≡ ok a)
    × (get_elem? asked ((1 + 1) % length asked) ≡ some a)
rounds_rotate_example = rounds_rotate all_ready none asked 1 1 "b" asked-Distinct all_ready_lem refl

abbrev cfg : AssignerConfig
cfg = record {
  node_pool_label_key = "kai/node-pool";
  queue_label_key = "kai/queue";
  namespace_project_label_key = "kai/project";
  project_label_key = "project";
  unexisting_nodepool_sentinel = "unexisting";
  default_nodepool_name = "default";
  annotation_nodepools_key = "node-pools";
  allow_external_queues = false;
}

abbrev pod : String → Pod
pod node_name = record {
  name = "pod";
  annotations = some (("node-pools", "a b") ∷ []);
  affinity = none;
  node_name = node_name;
  phase = pod_pending;
}

abbrev no_topology : TopologyConstraint
no_topology = record { topology = ""; preferred_topology_level = ""; required_topology_level = "" }

abbrev queue : Queue
queue = record {
  name = "p-b";
  labels = [];
  owner_references = [];
  spec = record { display_name = "p-b"; parent_queue = ""; resources = none; priority = none };
}

-- The one pod of every pod group stands on the node `node_name`.
abbrev cluster : String → Cluster
cluster node_name = record {
  get_node_pool = get_pool;
  list_node_pools = reply (pool "a" deleting ∷ pool "b" ready ∷ []);
  get_topology = λ name. reply (record { levels = "zone" ∷ name ∷ [] });
  get_namespace = λ name. reply (record { name = name; labels = ("kai/project", "p") ∷ [] });
  get_project = λ name. fail not_found;
  new_requirement = λ r. reply r;
  list_queues = λ r. reply (queue ∷ []);
  list_pods = λ namespace name. reply (pod node_name ∷ []);
  patch_status = λ pg conditions. reply (record pg { scheduling_conditions = conditions });
  patch = λ pg patched. reply patched;
}

abbrev pod_group : PodGroup
pod_group = record {
  name = "pg";
  namespace = "ns";
  uid = "1";
  labels = [];
  annotations = [];
  mark_unschedulable = none;
  scheduling_backoff = some (pos 1);
  queue = "";
  topology_constraint = no_topology;
  scheduling_conditions = [];
}

abbrev start : State
start = record { node_pool_lists = []; requests = [] }

start-Inv : Inv cfg (cluster "") start
unfolding lookup
start-Inv = record { remembers = λ uid names e. absurd (cc); allowed = tt }

nameless : (np : NodePool) → get_pool "" ≢ reply np
nameless np e = cc

run_keeps_example :
    Ends (Inv cfg (cluster "")) (Anything cfg (cluster "")) (run cfg (cluster "") pod_group start)
run_keeps_example = run_keeps cfg (cluster "") nameless pod_group start start-Inv

abbrev on_b : FullNodePoolAssignmentParams
on_b = assignment to_b "p-b" no_topology false

reread_assignment_example :
    previous_assignment cfg (mutate_pod_group_obj_for_assignment cfg pod_group on_b) false ≡ on_b
reread_assignment_example = reread_assignment cfg pod_group on_b (λ e. cc)

abbrev rack_b : TopologyConstraint
rack_b = record {
  topology = "rack";
  preferred_topology_level = "rack";
  required_topology_level = "";
}

patch_if_changed_again_example :
    let patched =
      mutate_pod_group_obj_for_assignment cfg pod_group (assignment to_b "p-b" rack_b true) in
    patch_if_changed cfg (cluster "") to_b "p-b" patched start ≡ (ok patched, start)
unfolding desired_network_topology get_node_pool_preferred_network_topology_name
    get_network_topology_lowest_level lookup
patch_if_changed_again_example =
    patch_if_changed_again cfg (cluster "") to_b "p-b" pod_group rack_b true start (λ e. cc) refl
