-- ===== src/NodePools/Annotations.antt =====
-- The annotations that the controller computes: on nodes (node_handler.go) and on the node pool
-- (nodepool_status_handler.go).
use kai_resource_management.Prelude.{
  ◌==◌, ◌!=◌, if◌then◌else◌, any, lookup, get_or_empty, ok, String, Bool, true, false, ◌&&◌, Option,
  none, some, List, [], ◌∷◌,
}
use kai_resource_management.Objects.{Labels}
use kai_resource_management.Effects.{◌>>=◌, give}
use kai_resource_management.NodePools.{
  NodePoolsConfig, Node, Pool, MergePatch, NodePatch, Cluster, OnNode, with_node, send_node_patch,
  has_label,
}
use kai_resource_management.NodePools.Nrt.{topology_manager_policy_from_node_nrt}

abbrev pub gpu_network_acceleration_label_key : String
gpu_network_acceleration_label_key = "gpuNetworkAccelerationLabelKey"

abbrev pub nil_if_empty : String → Option String
nil_if_empty s = if s == "" then none else some s

abbrev is_as_wanted : Option String → Option String → Bool
is_as_wanted none none = true
is_as_wanted (some current) (some wanted) = current == wanted
is_as_wanted _ _ = false

unfoldable pub annotations_up_to_date : Labels → MergePatch → Bool
annotations_up_to_date annotations [] = true
annotations_up_to_date annotations ((key, wanted) ∷ desired) =
    is_as_wanted (lookup key annotations) wanted && annotations_up_to_date annotations desired

abbrev pub annotations_patch : MergePatch → NodePatch
annotations_patch desired = record { labels = []; annotations = desired; unschedulable = none }

module _ (cfg : NodePoolsConfig) where
  abbrev pub get_gpu_network_acceleration_detection : Pool → String
  get_gpu_network_acceleration_detection pool =
      get_or_empty cfg.gpu_detection_annotation pool.annotations

  abbrev pub mnnvl_label_or_default : String → String
  mnnvl_label_or_default label_key =
      if label_key != "" then label_key else cfg.default_gpu_label_key

  abbrev pub get_gpu_network_acceleration_label_key : Pool → String
  get_gpu_network_acceleration_label_key pool =
      mnnvl_label_or_default (get_or_empty cfg.gpu_label_key_annotation pool.annotations)

  abbrev pub nvlink_annotation_value : Pool → String
  nvlink_annotation_value pool =
      if get_gpu_network_acceleration_detection pool == cfg.auto_gpu_network_acceleration
      then get_gpu_network_acceleration_label_key pool
      else ""

  unfoldable pub calculate_gpu_network_acceleration_detected : Pool → List Node → Bool
  calculate_gpu_network_acceleration_detected pool nodes =
      let detection = get_gpu_network_acceleration_detection pool in
      if detection == cfg.use_gpu_network_acceleration
      then true
      else if detection == cfg.auto_gpu_network_acceleration
      then any (λ node. has_label (get_gpu_network_acceleration_label_key pool) node.labels) nodes
      else false

  abbrev pub desired_annotations : Pool → (policy : String) → MergePatch
  desired_annotations pool policy =
      (gpu_network_acceleration_label_key, nil_if_empty (nvlink_annotation_value pool))
      ∷ (cfg.topology_manager_policy_annotation, nil_if_empty policy)
      ∷ []

  module _ (cluster : Cluster) where
    abbrev pub annotate : MergePatch → OnNode (Unit {0})
    annotate desired = with_node λ node.
        if annotations_up_to_date node.annotations desired
        then give (ok tt)
        else send_node_patch cluster (annotations_patch desired)

    unfoldable pub reconcile_node_annotations : (nrt_enabled : Bool) → Pool → OnNode (Unit {0})
    reconcile_node_annotations nrt_enabled pool =
        topology_manager_policy_from_node_nrt cluster nrt_enabled pool >>= λ policy.
        annotate (desired_annotations pool policy)
