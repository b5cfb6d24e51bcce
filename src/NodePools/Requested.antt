-- ===== src/NodePools/Requested.antt =====
-- Which events reconcile the node pools that they change: nodepool_event_filter.go.
use kai_resource_management.Prelude.{
  ◌==◌, Bool-cases, any, all, filter, contains, In, here, there, In-of_contains, contains_of_In,
  String, ◌≡◌, refl, sym, ap, ◌∙◌, subst, ◌↔◌, ◌⊎◌, inl, inr, Bool, true, false, not, ◌||◌, List,
  [], ◌∷◌, map, arith,
}
use kai_resource_management.Objects.{Labels, QueueConfig, Project}
use kai_resource_management.NodePools.{NodePoolsConfig, Pool, Patch, Cluster}
use kai_resource_management.NodePools.Drain.{find_matching_node_pool_from_list}
use kai_resource_management.NodePools.Calculation.{references}
use kai_resource_management.NodePools.Events.{
  project_update, get_project_node_pool_refs, refs_eq, filter_update_events,
}

all_of_In :
    {A : Type 0} (p : A → Bool) {a : A} (xs : List A) → all p xs ≡ true → In a xs → p a ≡ true
all_of_In p [] h m = elim m [ ]
all_of_In p (x ∷ xs) h (here e) = subst (λ y. p y ≡ true) e (ground arith)
all_of_In p (x ∷ xs) h (there m) = all_of_In p xs (ground arith) m

all_from_In :
    {A : Type 0} (p : A → Bool) (xs : List A) → ((a : A) → In a xs → p a ≡ true) → all p xs ≡ true
all_from_In p [] h = refl
all_from_In p (x ∷ xs) h = rw (h x (here refl)) (all_from_In p xs (λ a m. h a (there m)))

contains-refs :
    (node_pool : String) (queues : List QueueConfig)
    → contains (map (λ queue. queue.nodepool) queues) node_pool
      ≡ any (λ queue. queue.nodepool == node_pool) queues
contains-refs node_pool [] = refl
contains-refs node_pool (queue ∷ queues) = ground (arith, contains-refs node_pool queues)

contains_within :
    (xs ys : List String) (a : String)
    → all (contains ys) xs ≡ true
    → contains xs a ≡ true
    → contains ys a ≡ true
contains_within xs ys a h c = all_of_In (contains ys) xs h (In-of_contains xs a c)

refs_eq-contains :
    (xs ys : List String) (a : String) → refs_eq xs ys ≡ true → contains xs a ≡ contains ys a
refs_eq-contains xs ys a h = elim (Bool-cases (contains xs a)) [
  | inl e ↦ rw (e) (sym (contains_within xs ys a (ground arith) e))
  | inr e ↦ elim (Bool-cases (contains ys a)) [
    | inl f ↦ cc (contains_within ys xs a (ground arith) f)
    | inr f ↦ e ∙ sym f
  ]
]

refs_eq_of_contains :
    (xs ys : List String) → ((a : String) → contains xs a ≡ contains ys a) → refs_eq xs ys ≡ true
refs_eq_of_contains xs ys same =
    rw
      (
        all_from_In (contains ys) xs (λ a m. sym (same a) ∙ contains_of_In m),
        all_from_In (contains xs) ys (λ a m. same a ∙ contains_of_In m),
      )
      refl

-- An update of a project is dropped exactly where each node pool is referenced by the project before it
-- as after it.
pub dropped_project_iff :
    (cfg : NodePoolsConfig) (cluster : Cluster) (sent : List Patch) (old new : Project)
    → (filter_update_events (project_update old new) ≡ false) ↔ (
        (node_pool : String)
        → references cfg cluster sent node_pool old ≡ references cfg cluster sent node_pool new)
unfolding filter_update_events
dropped_project_iff cfg cluster sent old new = (
  (λ dropped node_pool.
      sym (contains-refs node_pool old.queues)
      ∙ refs_eq-contains (get_project_node_pool_refs old) (get_project_node_pool_refs new) node_pool
          (ground arith)
      ∙ contains-refs node_pool new.queues),
  (λ same. ap not (
      refs_eq_of_contains (get_project_node_pool_refs old) (get_project_node_pool_refs new)
        (λ node_pool.
          contains-refs node_pool old.queues
          ∙ same node_pool
          ∙ sym (contains-refs node_pool new.queues)))),
)

module _ (cfg : NodePoolsConfig) where
  -- A node pool that a node can be moved to for its labels.
  abbrev pub is_usable : Pool → Bool
  is_usable pool = not (pool.label_key == "" || pool.label_value == "" || pool.being_deleted)

  abbrev pub destination : Labels → List Pool → String
  destination labels pools = find_matching_node_pool_from_list cfg labels (filter is_usable pools)

  -- The destination is requested already, or it is among the others, or it is the default and there are
  -- no others.
  abbrev IsAdded : String → String → List String → Type 0
  IsAdded already found others =
      (found ≡ already) ⊎ (In found others ⊎ ((found ≡ cfg.default_nodepool_name) × (others ≡ [])))
