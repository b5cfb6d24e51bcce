-- ===== src/LimitRanges/Tests.antt =====
-- The theorem about limit ranges on a namespace without one.
use kai_resource_management.Prelude.{◌==◌, if◌then◌else◌, not_found, invalid, true, false, [], ◌∷◌}
use kai_resource_management.Objects.{reply, fail}
use kai_resource_management.Queues.{QueuesConfig}
use kai_resource_management.ProjectDeletion.{DeletedProject}
use kai_resource_management.LimitRanges.{LimitServer, handle_resource_inner}
use kai_resource_management.LimitRanges.Amounts.{IsHandled, written_amounts}

abbrev cfg : QueuesConfig
cfg = record {
  default_nodepool_name = "default";
  node_pool_label_key = "node-pool";
  project_label_key = "project";
  project_id_label_key = "project-id";
  queue_department_name_label_key = "department";
  resource_manual_override_label_key = "override";
  group_version = "kai/v1alpha1";
  allow_external_queues = true;
}

abbrev research : DeletedProject
research = record {
  name = "research";
  uid = "7";
  spec_namespace = "";
  status_namespace = "kai-research";
}

abbrev server : LimitServer
server = record {
  get_config_map = λ _. reply (("cpuDefaultRequest", "2") ∷ ("memoryMaxLimit", "lots") ∷ []);
  namespaces = record {
    list_namespaces = λ _ _. reply [];
    list_queues = λ _ _. reply [];
    get_object = λ _ _ _ _. fail not_found;
    check_selector = λ _. reply tt;
    list_objects = λ _ _ _. reply [];
    is_no_match = λ _. false;
    perform = λ _ _. reply tt;
  };
  get_limit_range = λ _ _ _. fail not_found;
  perform = λ _ _. reply tt;
  parse_quantity = λ text. if text == "2" then reply 2 else fail (invalid text);
  error_text = λ _. "";
}

written_amounts_example :
    IsHandled cfg "limits" server [] (handle_resource_inner cfg "limits" server research [])
written_amounts_example = written_amounts cfg "limits" server research []
