-- ===== src/Assignment/Queues.antt =====
-- The queue and the project of a pod group: nodepool_utils.go, project_utils.go and
-- network_topology_utils.go of pkg/pod-group-assigner/controllers/utils. The API server's answers
-- are a parameter, and so are those of labels.NewRequirement, which checks a requirement.
use kai_resource_management.Prelude.{
  ◌==◌, ◌!=◌, if◌then◌else◌, length, get_elem?, any, filter, lookup, get_or_empty, Err, not_found,
  invalid, Result, ok, err, ◌>>=◌, is_not_found, or_panic, String, Bool, true, false, not, ◌&&◌,
  ◌||◌, none, some, List, [], ◌∷◌,
}
use kai_resource_management.Objects.{
  OwnerReference, Queue, NodePool, Project, Namespace, Topology, Requirement, equals,
  does_not_exist, Answer, reply, fail, lift, Pod, TopologyConstraint, SchedulingCondition, PodGroup,
}
use kai_resource_management.Assignment.PodGroups.{
  AssignerConfig, is_topology_constraint_empty, empty_topology_constraint,
}

pub record Cluster : Type 0 where
  pub get_node_pool : String → Answer NodePool
  pub list_node_pools : Answer (List NodePool)
  pub get_topology : String → Answer Topology
  pub get_namespace : String → Answer Namespace
  pub get_project : String → Answer Project
  pub new_requirement : Requirement → Answer Requirement
  pub list_queues : List Requirement → Answer (List Queue)
  -- The pods of a pod group, by the pod group's namespace and name.
  pub list_pods : String → String → Answer (List Pod)
  -- The object that a patch leaves in memory.
  pub patch_status : PodGroup → List SchedulingCondition → Answer PodGroup
  pub patch : PodGroup → PodGroup → Answer PodGroup

abbrev pub not_found_or {ℓ} : {A : Type ℓ} → Err → A → Result A
not_found_or e a = if is_not_found e then ok a else err e

abbrev pub project_exists : Cluster → String → Result Bool
project_exists c name = elim (c.get_project name) [
  | reply _ ↦ ok false
  | fail e ↦ not_found_or e true
]

unfoldable pub is_external_namespace : AssignerConfig → Cluster → String → Result Bool
is_external_namespace cfg c namespace =
    if not cfg.allow_external_queues then ok false else elim (c.get_namespace namespace) [
      | fail e ↦ not_found_or e true
      | reply object ↦
          let name = get_or_empty cfg.namespace_project_label_key object.labels in
          if name == "" then ok true else project_exists c name
    ]

unfoldable pub get_project_name_of_namespace : AssignerConfig → Cluster → String → Result String
get_project_name_of_namespace cfg c namespace = elim (c.get_namespace namespace) [
  | fail e ↦ err (invalid "failed to get namespace")
  | reply object ↦ elim (lookup cfg.namespace_project_label_key object.labels) [
    | none ↦ err (invalid "can't find project label for namespace")
    | some name ↦ ok name
  ]
]

abbrev pub node_pool_requirement : AssignerConfig → String → Requirement
node_pool_requirement cfg nodepool =
    if nodepool == cfg.default_nodepool_name
    then does_not_exist cfg.node_pool_label_key
    else equals cfg.node_pool_label_key nodepool

unfoldable pub create_requirements_for_queues_list :
    AssignerConfig → Cluster → String → String → Result (List Requirement)
create_requirements_for_queues_list cfg c project nodepool =
    if project == "" || nodepool == ""
    then err (invalid "wrong params")
    else (lift (c.new_requirement (equals cfg.project_label_key project)) >>= λ of_project.
        lift (c.new_requirement (node_pool_requirement cfg nodepool)) >>= λ of_nodepool.
        ok (of_project ∷ of_nodepool ∷ []))

abbrev pub is_krm_owner : OwnerReference → Bool
is_krm_owner owner = owner.kind == "Project" || owner.kind == "Department"

abbrev pub owned_by_project_or_department : List Queue → List Queue
owned_by_project_or_department queues = filter (λ q. any is_krm_owner q.owner_references) queues

abbrev pub first_queue : List Queue → Result Queue
first_queue [] = err not_found
first_queue (q ∷ qs) = ok q

unfoldable pub get_existing_queue_by_labels :
    AssignerConfig → Cluster → String → String → Result Queue
unfolding create_requirements_for_queues_list
get_existing_queue_by_labels cfg c project nodepool =
    create_requirements_for_queues_list cfg c project nodepool >>= λ requirements.
    lift (c.list_queues requirements) >>= λ queues.
    first_queue
      (if cfg.allow_external_queues then owned_by_project_or_department queues else queues)

unfoldable pub get_queue_name_of_node_pool :
    AssignerConfig → Cluster → String → String → Result String
get_queue_name_of_node_pool cfg c project nodepool =
    get_existing_queue_by_labels cfg c project nodepool >>= λ queue. ok queue.name

unfoldable pub get_node_pool_preferred_network_topology_name : Cluster → String → Result String
get_node_pool_preferred_network_topology_name c name =
    lift (c.get_node_pool name) >>= λ np. ok np.preferred_network_topology_name

abbrev pub last_level : List String → Result String
last_level [] = err (invalid "topology has no levels")
last_level (level ∷ levels) = or_panic (get_elem? (level ∷ levels) (length levels))

unfoldable pub get_network_topology_lowest_level : Cluster → String → Result String
get_network_topology_lowest_level c name = lift (c.get_topology name) >>= λ t. last_level t.levels

-- The topology constraint that the pod group should have on the node pool, and whether the assigner
-- is its source.
unfoldable pub desired_network_topology :
    Cluster → TopologyConstraint → Bool → String → Result (TopologyConstraint × Bool)
desired_network_topology c previous sourced name =
    if not (is_topology_constraint_empty previous) && not sourced
    then ok (previous, false)
    else (get_node_pool_preferred_network_topology_name c name >>= λ topology.
        if topology != ""
        then (get_network_topology_lowest_level c topology >>= λ lowest. ok (
          record {
            topology = topology;
            preferred_topology_level = lowest;
            required_topology_level = "";
          },
          true,
        ))
        else ok (if sourced then empty_topology_constraint else previous, false))
