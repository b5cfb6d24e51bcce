-- ===== src/Validation/Tests.antt =====
-- Runs of the validating webhook on small inputs.
use kai_resource_management.Prelude.{
  length, In, Distinct, lookup, delete, insert, get_or_empty, not_found, failure, ℕ, suc, ◌≤◌, ◌<◌,
  String, ◌≡◌, refl, ◌↔◌, true, false, none, some, List, [], ◌∷◌, map,
}
use kai_resource_management.Objects.{
  ready, NodePool, QueueConfig, Project, Department, Answer, reply, fail,
}
use kai_resource_management.Validation.{
  Problem, Validator, Tree, add_departments, ancestors_from, ancestors, node_pool_names,
  validate_queue_node_pools_exist, get_parent_department, tree_with, validate_department_parent,
  of_project, retryable, handle,
}
use kai_resource_management.Validation.Fits.{FitsLevels}
use kai_resource_management.Validation.Parents.{IsLooping, accepted_parent_iff}
use kai_resource_management.Validation.NodePools.{
  pool_of, AllListed, accepted_queues_iff, outage_retried,
}
use kai_resource_management.Validation.Ancestors.{Leads, IsChain, ancestors_lem}

abbrev pool : NodePool
pool = record {
  name = "gpu";
  label_key = "kai/node-pool";
  label_value = "gpu";
  preferred_network_topology_name = "";
  phase = ready;
}

abbrev validator : Answer (List NodePool) → Validator
validator pools = record {
  get_department = λ name. fail not_found;
  get_department_live = λ name. fail not_found;
  list_departments = reply [];
  list_node_pools = pools;
  get_queue = λ name. fail not_found;
  group_of = λ version. some version;
  krm_group = "kai";
}

abbrev queues : List QueueConfig
queues = record { name = ""; nodepool = "gpu"; resources = none; priority = none } ∷ []

abbrev project : Project
project = record { name = "p"; uid = "1"; parent = "d"; queues = queues; default_node_pools = [] }

abbrev loop_tree : Tree
loop_tree = ("a", "b") ∷ ("b", "c") ∷ ("c", "a") ∷ []

found_loop : ancestors loop_tree "a" 7 ≡ ("b" ∷ "c" ∷ [], true)
unfolding ancestors ancestors_from lookup
found_loop = refl

ancestors_lem_example :
    let (above, in_loop) = ancestors loop_tree "a" 7 in
    (length above ≤ 7)
    × Distinct above
    × (¬ In "a" above)
    × IsChain loop_tree (get_or_empty "a" loop_tree) above
    × ((in_loop ≡ true) ↔ ((k : ℕ) × (k < 7) × Leads loop_tree (suc k) "a" "a"))
unfolding lookup
ancestors_lem_example = ancestors_lem loop_tree "a" 7 refl (λ e. cc)

accepted_queues_iff_example :
    (validate_queue_node_pools_exist (validator (reply (pool ∷ []))) queues ≡ []) ↔ (
      (pools : List NodePool) × (reply (pool ∷ []) ≡ reply pools)
      × AllListed (node_pool_names pools) queues
      × Distinct (map pool_of queues))
accepted_queues_iff_example = accepted_queues_iff (validator (reply (pool ∷ []))) queues (λ e. cc)

outage_retried_example :
    (problems : List Problem) × (handle (validator (fail (failure 500))) (of_project (some project))
      ≡ retryable problems)
outage_retried_example =
    outage_retried (validator (fail (failure 500))) project (failure 500) (λ e. cc) refl

abbrev department : String → String → Department
department name parent = record {
  name = name;
  uid = name;
  parent = parent;
  queues = [];
  being_deleted = false;
}

abbrev with_parent : Validator
with_parent = record (validator (reply [])) {
  get_department = λ name. reply (department "d" "");
  list_departments = reply (department "d" "" ∷ []);
}

accepted_parent_iff_example :
    let tree = tree_with (department "e" "d") (department "d" "") (department "d" "" ∷ []) in
    (validate_department_parent with_parent (department "e" "d") ≡ [])
    ↔ ((false ≡ false) × (¬ IsLooping tree "e") × FitsLevels tree "e")
unfolding get_parent_department add_departments insert delete lookup
accepted_parent_iff_example =
    accepted_parent_iff with_parent (department "e" "d") (department "d" "")
      (department "d" "" ∷ []) (λ e. cc) refl refl refl (λ e. cc) refl
