-- ===== src/ProjectDeletion/Tests.antt =====
-- The theorems about a project's deletion on a small server.
use kai_resource_management.Prelude.{
  length, All, In, not_found, ok, ◌+◌, String, ◌≡◌, refl, ◌↔◌, true, false, none, [], ◌∷◌,
}
use kai_resource_management.Objects.{OwnerReference, reply, fail}
use kai_resource_management.Queues.{QueuesConfig}
use kai_resource_management.ProjectDeletion.{
  DeletedProject, BlockerGroup, DeletionServer, is_owner, is_project_owner, delete_owner_ref,
  kai_project_to_namespace, blocker_on_delete,
}
use kai_resource_management.ProjectDeletion.Conditions.{StatusCondition, update_conditions}
use kai_resource_management.ProjectDeletion.Settling.{update_conditions_again}
use kai_resource_management.ProjectDeletion.Owners.{removed_owner}
use kai_resource_management.ProjectDeletion.Blocking.{IsGone, unblocked_iff}

abbrev cfg : QueuesConfig
cfg = record {
  default_nodepool_name = "default";
  node_pool_label_key = "kai/node-pool";
  project_label_key = "project";
  project_id_label_key = "project-id";
  queue_department_name_label_key = "department";
  resource_manual_override_label_key = "override";
  group_version = "kai/v1alpha1";
  allow_external_queues = true;
}

abbrev training : DeletedProject
training = record {
  name = "training";
  uid = "1";
  spec_namespace = "";
  status_namespace = "kai-training";
}

abbrev owner : String → String → OwnerReference
owner name uid = record {
  api_version = "kai/v1alpha1";
  kind = "Project";
  name = name;
  uid = uid;
  controller = none;
  block_owner_deletion = none;
}

abbrev workloads : BlockerGroup
workloads = record {
  display_name = "Workloads";
  blockers =
      (record {
        display_name = "Workloads";
        group = "batch";
        version = "v1";
        kind = "Job";
        label_selector = none;
      })
      ∷ [];
}

abbrev server : DeletionServer
server = record {
  list_namespaces = λ _ _. reply [];
  list_queues = λ _ _. reply [];
  get_object = λ _ _ _ _. fail not_found;
  check_selector = λ _. reply tt;
  list_objects = λ _ _ _. reply ("job" ∷ []);
  is_no_match = λ _. false;
  perform = λ _ _. reply tt;
}

abbrev ready_condition : String → StatusCondition
ready_condition status = record {
  condition_type = "Ready";
  status = status;
  reason = "";
  message = "";
  last_probe_time = 0;
  last_transition_time = 3;
}

update_conditions_again_example :
    update_conditions 9
      (ready_condition "True" ∷ [])
      (update_conditions 7 (ready_condition "True" ∷ []) (ready_condition "False" ∷ [])).0
    ≡ ((update_conditions 7 (ready_condition "True" ∷ []) (ready_condition "False" ∷ [])).0, false)
update_conditions_again_example =
    update_conditions_again 7 9 (ready_condition "True" ∷ []) (ready_condition "False" ∷ [])
      ((λ m. elim m [ ]), tt)

removed_owner_example :
    (length (delete_owner_ref (owner "training" "1" ∷ owner "other" "2" ∷ []) 0) + 1 ≡ 2)
    × ((a : OwnerReference)
        → In a (owner "training" "1" ∷ owner "other" "2" ∷ [])
        → is_owner training a ≡ false
        → In a (delete_owner_ref (owner "training" "1" ∷ owner "other" "2" ∷ []) 0))
unfolding is_project_owner
removed_owner_example =
    removed_owner training (owner "training" "1" ∷ owner "other" "2" ∷ []) 0 refl

unblocked_iff_example : (blocker_on_delete cfg server [] workloads training ≡ ok tt) ↔ (
    (namespace : String) × (kai_project_to_namespace cfg server [] training ≡ ok namespace)
    × All (IsGone cfg server [] namespace) workloads.blockers)
unblocked_iff_example = unblocked_iff cfg server [] workloads training
