-- ===== src/Converter/Precedence.antt =====
-- The order in which the sources of node pools are asked, and what every list satisfies.
use kai_resource_management.Prelude.{
  Option-cases, All, lookup, ok, IsSafe, String, eq_iff, ◌≡◌, ◌≢◌, inl, inr, Option, none, some,
  List, [], ◌∷◌, arith,
}
use kai_resource_management.Objects.{Labels, Project, reply, fail, NodeSelectorTerm, Affinity}
use kai_resource_management.Converter.{
  NodePoolIdentifiers, Reader, AffinitySource, NodePoolsSources, get_all_node_pools, required_terms,
  convert_terms, convert_node_affinity_to_node_pool_names, annotated, with_reader, from_affinity,
  project_default_node_pools, non_empty_or, from_label_or_project, get_requested_node_pools,
}
use kai_resource_management.Converter.Text.{
  split_spaces, join_spaces, join_spaces-split_spaces, HasNoSpace, split_spaces-HasNoSpace,
  split_spaces-ne-nil,
}

-- A pod's annotation that is not empty decides alone, whatever its affinity, the object's labels
-- and the project say, and also where the API server fails: the list is the annotation cut at its
-- spaces, so the names hold none and give the annotation back when they are joined by spaces.
pub annotation_decides :
    (object_labels : Labels) (ids : NodePoolIdentifiers) (sources : NodePoolsSources)
    (annotations : Labels) (v : String)
    → sources.pod_annotations ≡ some annotations
    → lookup ids.annotation_nodepools_key annotations ≡ some v
    → v ≢ ""
    → (names : List String) × (get_requested_node_pools object_labels ids sources ≡ ok names)
      × (join_spaces names ≡ v)
      × All HasNoSpace names
unfolding get_requested_node_pools
annotation_decides object_labels ids sources annotations v here' found some_text = (
  split_spaces v,
  ground (arith, eq_iff v ""),
  join_spaces-split_spaces v,
  split_spaces-HasNoSpace v,
)

non_empty_or-ne-nil : (xs ys : List String) → ys ≢ [] → non_empty_or xs ys ≢ []
non_empty_or-ne-nil [] ys h = h
non_empty_or-ne-nil (x ∷ xs) ys h = λ e. cc

from_label_or_project-ne-nil :
    (ids : NodePoolIdentifiers) (object_labels : Labels) (project : Option Project)
    → from_label_or_project ids object_labels project ≢ []
from_label_or_project-ne-nil ids object_labels project = ground (
  arith,
  non_empty_or-ne-nil (project_default_node_pools project) (ids.default_nodepool_name ∷ [])
      (λ e. cc),
)

-- Whichever source decides, the list names a node pool.
pub requested_ne_nil :
    (object_labels : Labels) (ids : NodePoolIdentifiers) (sources : NodePoolsSources)
    (names : List String)
    → get_requested_node_pools object_labels ids sources ≡ ok names
    → names ≢ []
unfolding get_requested_node_pools
requested_ne_nil object_labels ids sources names h =
    elim (Option-cases (annotated ids sources.pod_annotations)) [
      | inl absent ↦ grind (arith, non_empty_or-ne-nil, from_label_or_project-ne-nil)
      | inr (v, e) ↦ ground (arith, split_spaces-ne-nil v)
    ]

convert-IsSafe :
    (affinity : Option Affinity) (ids : NodePoolIdentifiers) (reader : Reader)
    → IsSafe (convert_node_affinity_to_node_pool_names affinity ids reader)
unfolding convert_node_affinity_to_node_pool_names get_all_node_pools
convert-IsSafe affinity ids reader = go (required_terms affinity) reader
  where
    go : (terms : List NodeSelectorTerm) (reader : Reader) → IsSafe (convert_terms ids reader terms)
    go [] reader = tt
    go (t ∷ ts) (fail e) = tt
    go (t ∷ ts) (reply []) = tt
    go (t ∷ ts) (reply (np ∷ nps)) = tt

with_reader-IsSafe :
    (ids : NodePoolIdentifiers) (source : AffinitySource) (reader : Option Reader)
    → IsSafe (with_reader ids source reader)
with_reader-IsSafe ids source none = tt
with_reader-IsSafe ids source (some reader) =
    ground (arith, convert-IsSafe source.affinity ids reader)

from_affinity-IsSafe :
    (ids : NodePoolIdentifiers) (source : AffinitySource) → IsSafe (from_affinity ids source)
unfolding from_affinity
from_affinity-IsSafe ids source = ground (arith, with_reader-IsSafe ids source source.reader_client)

pub requested-IsSafe :
    (object_labels : Labels) (ids : NodePoolIdentifiers) (sources : NodePoolsSources)
    → IsSafe (get_requested_node_pools object_labels ids sources)
unfolding get_requested_node_pools
requested-IsSafe object_labels ids sources =
    ground (arith, from_affinity-IsSafe ids sources.affinity_source)
