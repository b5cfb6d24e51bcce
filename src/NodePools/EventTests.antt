-- ===== src/NodePools/EventTests.antt =====
-- The theorems about events on concrete objects.
use kai_resource_management.Prelude.{String, ◌≡◌, ◌↔◌, true, false, none, List, [], ◌∷◌}
use kai_resource_management.Objects.{QueueConfig, Project, reply}
use kai_resource_management.NodePools.{Node}
use kai_resource_management.NodePools.Calculation.{references}
use kai_resource_management.NodePools.Events.{project_update, filter_update_events, Watched}
use kai_resource_management.NodePools.Requested.{dropped_project_iff}
use kai_resource_management.NodePools.Sample.{cfg, worker, team_pool, cluster_of}

abbrev queue_in : String → QueueConfig
queue_in node_pool = record {
  name = node_pool;
  nodepool = node_pool;
  resources = none;
  priority = none;
}

abbrev project_with : List QueueConfig → Project
project_with queues = record {
  name = "project";
  uid = "1";
  parent = "";
  queues = queues;
  default_node_pools = [];
}

dropped_project_iff_example :
    (filter_update_events (
        project_update
          (project_with (queue_in "a" ∷ queue_in "b" ∷ []))
          (project_with (queue_in "b" ∷ queue_in "a" ∷ [])))
      ≡ false)
    ↔ ((node_pool : String)
        → references cfg
            (cluster_of [])
            []
            node_pool
            (project_with (queue_in "a" ∷ queue_in "b" ∷ []))
          ≡ references cfg
              (cluster_of [])
              []
              node_pool
              (project_with (queue_in "b" ∷ queue_in "a" ∷ [])))
dropped_project_iff_example =
    dropped_project_iff cfg (cluster_of []) [] (project_with (queue_in "a" ∷ queue_in "b" ∷ []))
      (project_with (queue_in "b" ∷ queue_in "a" ∷ []))

abbrev cordoned : Node
cordoned = record worker {
  labels = (cfg.unschedulable_label_key, "true") ∷ worker.labels;
  unschedulable = true;
}

abbrev watched : Watched
watched = record {
  list_pools = reply (team_pool ∷ []);
  list_deleting_pools = reply [];
  get_pool = λ _. reply team_pool;
  get_node = λ _. reply cordoned;
}
