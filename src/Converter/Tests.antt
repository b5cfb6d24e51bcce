-- ===== src/Converter/Tests.antt =====
-- Runs of pkg/common/node-pool-utils on small inputs.
use kai_resource_management.Prelude.{
  All, contains, In, Distinct, lookup, insert, ok, String, ◌≡◌, refl, ◌≢◌, false, Option, none,
  some, List, [], ◌∷◌,
}
use kai_resource_management.Objects.{
  Labels, NodePoolPhase, ready, deleting, NodePool, reply, op_in, Affinity,
}
use kai_resource_management.Converter.{
  NodePoolIdentifiers, NodePoolsSources, get_all_node_pools, index_node_pool, index_node_pools,
  get_node_pools_map, match_value, match_values, get_node_pools_for_match_expression,
  match_expressions, match_terms, required_terms, convert_node_affinity_to_node_pool_names,
  from_affinity, get_requested_node_pools,
}
use kai_resource_management.Converter.Text.{
  split_spaces, join_spaces, join_spaces-split_spaces, HasNoSpace,
}
use kai_resource_management.Converter.Duplicates.{
  dedup_from, remove_duplicates, remove_duplicates_lem,
}
use kai_resource_management.Converter.Matching.{IsWanted, converted_IsWanted}
use kai_resource_management.Converter.Precedence.{annotation_decides, requested_ne_nil}

abbrev ids : NodePoolIdentifiers
ids = record {
  node_pool_assignment_label_key = "kai/node-pool";
  default_nodepool_name = "default";
  unexisting_nodepool_sentinel = "unexisting";
  annotation_nodepools_key = "node-pools";
}

abbrev pool : String → NodePoolPhase → NodePool
pool name phase = record {
  name = name;
  label_key = "kai/node-pool";
  label_value = name;
  preferred_network_topology_name = "";
  phase = phase;
}

abbrev pools : List NodePool
pools = pool "a" ready ∷ pool "b" deleting ∷ pool "c" ready ∷ []

abbrev wish : Option Affinity
wish = some (record {
  node_affinity = some (record {
    required = some (
        (record { key = "kai/node-pool"; operator = op_in; values = "c" ∷ "b" ∷ "a" ∷ "c" ∷ [] }
          ∷ [])
        ∷ []);
  });
})

abbrev sources : Option Labels → NodePoolsSources
sources annotations = record {
  pod_annotations = annotations;
  affinity_source = record {
    affinity = wish;
    reader_client = some (reply pools);
    ignore_conversion_errors = false;
  };
  project = none;
}

abbrev annotated_pod : Labels
annotated_pod = ("node-pools", "x y") ∷ []

abbrev wished : List String
wished = "c" ∷ "a" ∷ []

wish_converted : convert_node_affinity_to_node_pool_names wish ids (reply pools) ≡ ok wished
unfolding convert_node_affinity_to_node_pool_names get_all_node_pools get_node_pools_map
    index_node_pools index_node_pool match_terms match_expressions
    get_node_pools_for_match_expression match_values match_value remove_duplicates dedup_from lookup
    insert
wish_converted = refl

converted_IsWanted_example :
    Distinct wished
    × ((name : String) → In name wished → IsWanted ids pools (required_terms wish) name)
converted_IsWanted_example = converted_IsWanted ids pools wish wished wish_converted

annotation_decides_example :
    (names : List String) × (get_requested_node_pools [] ids (sources (some annotated_pod))
      ≡ ok names)
    × (join_spaces names ≡ "x y")
    × All HasNoSpace names
unfolding lookup
annotation_decides_example =
    annotation_decides [] ids (sources (some annotated_pod)) annotated_pod "x y" refl refl (λ e. cc)

wish_requested : get_requested_node_pools [] ids (sources none) ≡ ok wished
unfolding get_requested_node_pools from_affinity convert_node_affinity_to_node_pool_names
    get_all_node_pools remove_duplicates match_terms match_expressions
    get_node_pools_for_match_expression lookup get_node_pools_map insert match_values match_value
wish_requested = refl

requested_ne_nil_example : wished ≢ []
requested_ne_nil_example = requested_ne_nil [] ids (sources none) wished wish_requested

abbrev repeated : List String
repeated = "a" ∷ "b" ∷ "a" ∷ []

remove_duplicates_lem_example :
    Distinct (remove_duplicates repeated)
    × ((a : String) → contains (remove_duplicates repeated) a ≡ contains repeated a)
remove_duplicates_lem_example = remove_duplicates_lem repeated

join_spaces-split_spaces_example : join_spaces (split_spaces " a  b") ≡ " a  b"
join_spaces-split_spaces_example = join_spaces-split_spaces " a  b"
