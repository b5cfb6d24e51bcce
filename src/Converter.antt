-- ===== src/Converter.antt =====
-- The list of node pools that a pod group asks for: pkg/common/node-pool-utils (converter/ and
-- utils/utils.go). Listing the node pools is the API server's answer, a parameter.
pub mod Text
pub mod Duplicates
pub mod Index
pub mod Matching
pub mod Precedence
mod Tests
use kai_resource_management.Prelude.{
  ◌==◌, ◌!=◌, if◌then◌else◌, is_some, any, lookup, insert, Err, invalid, conversion_failed, Result,
  ok, err, panic, ◌>>=◌, ◌+◌, String, Bool, true, false, not, ◌&&◌, Option, none, some, List, [],
  ◌∷◌, ◌++◌,
}
use kai_resource_management.Objects.{
  Labels, NodePoolPhase, deleting, NodePool, Project, Answer, reply, fail, Operator, op_in,
  op_does_not_exist, MatchExpression, NodeSelectorTerm, Affinity,
}
use kai_resource_management.Converter.Text.{split_spaces}
use kai_resource_management.Converter.Duplicates.{remove_duplicates}

pub record NodePoolIdentifiers : Type 0 where
  pub node_pool_assignment_label_key : String
  pub default_nodepool_name : String
  pub unexisting_nodepool_sentinel : String
  pub annotation_nodepools_key : String

-- What listing the node pools answers.
abbrev pub Reader : Type 0
Reader = Answer (List NodePool)

pub record AffinitySource : Type 0 where
  pub affinity : Option Affinity
  pub reader_client : Option Reader
  pub ignore_conversion_errors : Bool

pub record NodePoolsSources : Type 0 where
  pub pod_annotations : Option Labels
  pub affinity_source : AffinitySource
  pub project : Option Project

unfoldable pub get_all_node_pools : Reader → Result (List NodePool)
get_all_node_pools (fail e) = err e
get_all_node_pools (reply []) = err (invalid "didn't find any node pools in the cluster")
get_all_node_pools (reply (x ∷ xs)) = ok (x ∷ xs)

-- Label key to label value to the node pool's name, and the node pools being deleted.
abbrev pub NodePoolsByLabel : Type 0
NodePoolsByLabel = List (String × List (String × String))

abbrev pub DeletingNodePools : Type 0
DeletingNodePools = List (String × NodePoolPhase)

abbrev pub is_deleting : NodePoolPhase → Bool
is_deleting deleting = true
is_deleting _ = false

abbrev pub or_nil {ℓ} : {A : Type ℓ} → Option (List A) → List A
or_nil none = []
or_nil (some xs) = xs

unfoldable pub index_node_pool :
    NodePool → NodePoolsByLabel × DeletingNodePools → NodePoolsByLabel × DeletingNodePools
index_node_pool np (by_label, being_deleted) = (
  insert np.label_key (insert np.label_value np.name (or_nil (lookup np.label_key by_label)))
      by_label,
  if is_deleting np.phase then insert np.name np.phase being_deleted else being_deleted,
)

unfoldable pub index_node_pools :
    List NodePool → NodePoolsByLabel × DeletingNodePools → NodePoolsByLabel × DeletingNodePools
index_node_pools [] maps = maps
index_node_pools (np ∷ nps) maps = index_node_pools nps (index_node_pool np maps)

unfoldable pub get_node_pools_map : List NodePool → NodePoolsByLabel × DeletingNodePools
unfolding index_node_pools index_node_pool
get_node_pools_map nps = index_node_pools nps ([], [])

abbrev pub is_op_in : Operator → Bool
is_op_in op_in = true
is_op_in _ = false

abbrev pub is_op_does_not_exist : Operator → Bool
is_op_does_not_exist op_does_not_exist = true
is_op_does_not_exist _ = false

-- One value of an `In` expression: the node pool that carries the label, unless it is being
-- deleted.
unfoldable pub match_value :
    List (String × String) → DeletingNodePools → String → List String × Bool → List String × Bool
match_value by_value being_deleted value (result, found) = elim (lookup value by_value) [
  | none ↦ (result, found)
  | some name ↦
      if is_some (lookup name being_deleted) then (result, found) else (result ++ name ∷ [], true)
]

unfoldable pub match_values :
    List (String × String)
    → DeletingNodePools
    → List String
    → List String × Bool
    → List String × Bool
match_values by_value being_deleted [] acc = acc
match_values by_value being_deleted (value ∷ values) acc =
    match_values by_value being_deleted values (match_value by_value being_deleted value acc)

unfoldable pub get_node_pools_for_match_expression :
    NodePoolIdentifiers
    → MatchExpression
    → NodePoolsByLabel
    → DeletingNodePools
    → List String
    → List String × Bool
get_node_pools_for_match_expression ids e by_label being_deleted result =
    if not (is_op_in e.operator)
    then (if is_op_does_not_exist e.operator && e.key == ids.node_pool_assignment_label_key
        then (result ++ ids.default_nodepool_name ∷ [], true)
        else (result, false))
    else elim (lookup e.key by_label) [
      | none ↦ (result, false)
      | some by_value ↦ match_values by_value being_deleted e.values (result, false)
    ]

-- The match expressions of one term, up to the first that names node pools.
unfoldable pub match_expressions :
    NodePoolIdentifiers
    → NodePoolsByLabel
    → DeletingNodePools
    → List MatchExpression
    → List String × Bool
    → List String
match_expressions ids by_label being_deleted [] (result, found) = result
match_expressions ids by_label being_deleted (e ∷ es) (result, found) =
    let rest =
      match_expressions ids by_label being_deleted es
        (get_node_pools_for_match_expression ids e by_label being_deleted result) in
    if found then result else rest

unfoldable pub match_terms :
    NodePoolIdentifiers
    → NodePoolsByLabel
    → DeletingNodePools
    → List NodeSelectorTerm
    → List String
    → List String
match_terms ids by_label being_deleted [] result = result
match_terms ids by_label being_deleted (term ∷ terms) result =
    match_terms ids by_label being_deleted terms
      (match_expressions ids by_label being_deleted term (result, false))

-- The required terms of an affinity; none where a part is absent.
abbrev pub required_terms : Option Affinity → List NodeSelectorTerm
required_terms none = []
required_terms (some affinity) = elim affinity.node_affinity [
  | none ↦ []
  | some node_affinity ↦ or_nil node_affinity.required
]

abbrev pub convert_terms :
    NodePoolIdentifiers → Reader → List NodeSelectorTerm → Result (List String)
convert_terms ids reader [] = ok []
convert_terms ids reader (term ∷ terms) = get_all_node_pools reader >>= λ nps.
    let (by_label, being_deleted) = get_node_pools_map nps in
    ok (remove_duplicates (match_terms ids by_label being_deleted (term ∷ terms) []))

unfoldable pub convert_node_affinity_to_node_pool_names :
    Option Affinity → NodePoolIdentifiers → Reader → Result (List String)
convert_node_affinity_to_node_pool_names affinity ids reader =
    convert_terms ids reader (required_terms affinity)

-- What the steps 1 and 2 find: nothing, or the list.
abbrev pub annotated : NodePoolIdentifiers → Option Labels → Option String
annotated ids none = none
annotated ids (some annotations) = elim (lookup ids.annotation_nodepools_key annotations) [
  | none ↦ none
  | some v ↦ if v == "" then none else some v
]

abbrev pub affinity_failure : Bool → Err → Result (List String)
affinity_failure true e = ok []
affinity_failure false e = err (conversion_failed e)

abbrev pub with_reader : NodePoolIdentifiers → AffinitySource → Option Reader → Result (List String)
with_reader ids source none = ok []
with_reader ids source (some reader) =
    elim (convert_node_affinity_to_node_pool_names source.affinity ids reader) [
      | ok names ↦ ok names
      | err e ↦ affinity_failure source.ignore_conversion_errors e
      | panic ↦ panic
    ]

-- `AffinitySource.HasValue`: an affinity and a reader.
unfoldable pub from_affinity : NodePoolIdentifiers → AffinitySource → Result (List String)
from_affinity ids source = elim source.affinity [
  | none ↦ ok []
  | some _ ↦ with_reader ids source source.reader_client
]

abbrev pub project_default_node_pools : Option Project → List String
project_default_node_pools none = []
project_default_node_pools (some p) = p.default_node_pools

abbrev pub non_empty_or : List String → List String → List String
non_empty_or [] other = other
non_empty_or (x ∷ xs) other = x ∷ xs

-- Steps 3 and 4, and the default.
abbrev pub from_label_or_project : NodePoolIdentifiers → Labels → Option Project → List String
from_label_or_project ids object_labels project =
    let others =
      non_empty_or (project_default_node_pools project) (ids.default_nodepool_name ∷ []) in
    elim (lookup ids.node_pool_assignment_label_key object_labels) [
      | none ↦ others
      | some name ↦ if name != ids.unexisting_nodepool_sentinel then name ∷ [] else others
    ]

unfoldable pub get_requested_node_pools :
    Labels → NodePoolIdentifiers → NodePoolsSources → Result (List String)
get_requested_node_pools object_labels ids sources = elim (annotated ids sources.pod_annotations) [
  | some v ↦ ok (split_spaces v)
  | none ↦ from_affinity ids sources.affinity_source >>= λ names.
      ok (non_empty_or names (from_label_or_project ids object_labels sources.project))
]
