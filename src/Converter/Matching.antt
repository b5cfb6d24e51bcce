-- ===== src/Converter/Matching.antt =====
-- What the node pools that a node affinity yields have to do with it.
use kai_resource_management.Prelude.{
  ◌==◌, Bool-cases, Option-cases, is_some, All, All-append, In, here, there, In-of_contains,
  Distinct, contains_of_In, All-apply, lookup, lookup-nil, ok, String, ◌≡◌, refl, sym, ◌∙◌, ◌≢◌,
  ◌⊎◌, inl, inr, Bool, true, false, ◌&&◌, Option, some, List, [], ◌∷◌, ◌++◌, arith,
}
use kai_resource_management.Objects.{
  deleting, NodePool, reply, op_in, MatchExpression, NodeSelectorTerm, Affinity,
}
use kai_resource_management.Converter.{
  NodePoolIdentifiers, get_all_node_pools, NodePoolsByLabel, DeletingNodePools, get_node_pools_map,
  is_op_in, is_op_does_not_exist, match_value, match_values, get_node_pools_for_match_expression,
  match_expressions, match_terms, required_terms, convert_terms,
  convert_node_affinity_to_node_pool_names,
}
use kai_resource_management.Converter.Index.{IsSound, index_node_pools-IsSound, deleting_marked}
use kai_resource_management.Converter.Duplicates.{remove_duplicates, remove_duplicates_lem}

-- An `In` expression of one of the terms has the node pool's label.
abbrev pub Selects : List NodeSelectorTerm → NodePool → Type 0
Selects terms np =
    (term : NodeSelectorTerm) × (e : MatchExpression) × In term terms
    × In e term
    × (e.operator ≡ op_in)
    × (np.label_key ≡ e.key)
    × In np.label_value e.values

-- Why a name is in the list: it is the default node pool's, or that of a listed node pool which the
-- terms select, when no node pool of that name is being deleted.
abbrev pub IsWanted : NodePoolIdentifiers → List NodePool → List NodeSelectorTerm → String → Type 0
IsWanted ids nps terms name =
    (name ≡ ids.default_nodepool_name)
    ⊎ ((np : NodePool) × In np nps
        × (np.name ≡ name)
        × Selects terms np
        × ((other : NodePool) → In other nps → other.name ≡ name → other.phase ≢ deleting))

match_value_cases :
    (by_value : List (String × String)) (being_deleted : DeletingNodePools) (value : String)
    (acc : List String × Bool)
    → (match_value by_value being_deleted value acc ≡ acc)
      ⊎ ((name : String) × (lookup value by_value ≡ some name)
          × (is_some (lookup name being_deleted) ≡ false)
          × ((match_value by_value being_deleted value acc).0 ≡ acc.0 ++ name ∷ []))
unfolding match_value
match_value_cases by_value being_deleted value acc = elim (Option-cases (lookup value by_value)) [
  | inl e ↦ inl (ground arith)
  | inr (name, e) ↦ elim (Bool-cases (is_some (lookup name being_deleted))) [
    | inl marked ↦ inl (ground arith)
    | inr unmarked ↦ inr (name, e, unmarked, ground arith)
  ]
]

expression_cases :
    (ids : NodePoolIdentifiers) (e : MatchExpression) (by_label : NodePoolsByLabel)
    (being_deleted : DeletingNodePools) (result : List String)
    → let found = get_node_pools_for_match_expression ids e by_label being_deleted result in
      (found.0 ≡ result)
      ⊎ (found.0 ≡ result ++ ids.default_nodepool_name ∷ [])
      ⊎ ((by_value : List (String × String)) × (e.operator ≡ op_in)
          × (lookup e.key by_label ≡ some by_value)
          × (found ≡ match_values by_value being_deleted e.values (result, false)))
unfolding get_node_pools_for_match_expression
expression_cases ids e by_label being_deleted result = elim (Bool-cases (is_op_in e.operator)) [
  | inl inside ↦ elim (Option-cases (lookup e.key by_label)) [
    | inl absent ↦ inl (ground arith)
    | inr (by_value, at) ↦ inr (inr (by_value, ground arith, at, ground arith))
  ]
  | inr other ↦
      elim (Bool-cases
        (is_op_does_not_exist e.operator && e.key == ids.node_pool_assignment_label_key)) [
          | inl default ↦ inr (inl (ground arith))
          | inr none' ↦ inl (ground arith)
        ]
]

-- The walk over the terms, with the index of all node pools.
module _ (ids : NodePoolIdentifiers) (nps : List NodePool) (terms : List NodeSelectorTerm) where
  abbrev by_label : NodePoolsByLabel
  by_label = (get_node_pools_map nps).0

  abbrev being_deleted : DeletingNodePools
  being_deleted = (get_node_pools_map nps).1

  sound : IsSound nps by_label
  unfolding get_node_pools_map
  sound =
      index_node_pools-IsSound nps nps ([], []) (λ np m. m)
        (λ key value name by_value p q.
          absurd (ground (arith, lookup-nil {V = List (String × String)} key)))

  not_deleting :
      (name : String)
      → is_some (lookup name being_deleted) ≡ false
      → (other : NodePool) → In other nps
      → other.name ≡ name
      → other.phase ≢ deleting
  unfolding get_node_pools_map
  not_deleting name unmarked other m e d = ground (arith, deleting_marked other nps ([], []) m d)

  match_values-IsWanted :
      (term : NodeSelectorTerm) (e : MatchExpression) (by_value : List (String × String))
      (values : List String) (acc : List String × Bool)
      → In term terms
      → In e term
      → e.operator ≡ op_in
      → lookup e.key by_label ≡ some by_value
      → ((v : String) → In v values → In v e.values)
      → All (IsWanted ids nps terms) acc.0
      → All (IsWanted ids nps terms) (match_values by_value being_deleted values acc).0
  unfolding match_values
  match_values-IsWanted term e by_value [] acc mt me op found sub h = h
  match_values-IsWanted term e by_value (value ∷ values) acc mt me op found sub h =
      match_values-IsWanted term e by_value values (match_value by_value being_deleted value acc) mt
        me op found (λ v m. sub v (there m)) matched
    where
      matched : All (IsWanted ids nps terms) (match_value by_value being_deleted value acc).0
      matched = elim (match_value_cases by_value being_deleted value acc) [
        | inl same ↦ rw same h
        | inr (name, at, unmarked, appended) ↦
            let (np, member, named, keyed, valued) = sound e.key value name by_value found at in
            let selects : Selects terms np =
              (term, e, mt, me, op, keyed, rw valued (sub value (here refl))) in
            rw appended (
              All-append (IsWanted ids nps terms) acc.0 (name ∷ []) h
                (inr (np, member, named, selects, not_deleting name unmarked), tt))
      ]

  expression-IsWanted :
      (term : NodeSelectorTerm) (e : MatchExpression) (result : List String)
      → In term terms
      → In e term
      → All (IsWanted ids nps terms) result
      → All
          (IsWanted ids nps terms)
          (get_node_pools_for_match_expression ids e by_label being_deleted result).0
  expression-IsWanted term e result mt me h =
      elim (expression_cases ids e by_label being_deleted result) [
        | inl same ↦ rw same h
        | inr (inl default) ↦ rw default (
            All-append (IsWanted ids nps terms) result (ids.default_nodepool_name ∷ []) h
              (inl refl, tt))
        | inr (inr (by_value, op, at, same)) ↦ rw same (
            match_values-IsWanted term e by_value e.values (result, false) mt me op at (λ v m. m) h)
      ]

  expressions-IsWanted :
      (term es : NodeSelectorTerm) (acc : List String × Bool)
      → In term terms
      → ((e : MatchExpression) → In e es → In e term)
      → All (IsWanted ids nps terms) acc.0
      → All (IsWanted ids nps terms) (match_expressions ids by_label being_deleted es acc)
  unfolding match_expressions
  expressions-IsWanted term [] acc mt sub h = h
  expressions-IsWanted term (e ∷ es) (result, true) mt sub h = h
  expressions-IsWanted term (e ∷ es) (result, false) mt sub h =
      expressions-IsWanted term es
        (get_node_pools_for_match_expression ids e by_label being_deleted result) mt
        (λ x m. sub x (there m)) (expression-IsWanted term e result mt (sub e (here refl)) h)

  terms-IsWanted :
      (ts : List NodeSelectorTerm) (result : List String)
      → ((t : NodeSelectorTerm) → In t ts → In t terms)
      → All (IsWanted ids nps terms) result
      → All (IsWanted ids nps terms) (match_terms ids by_label being_deleted ts result)
  unfolding match_terms
  terms-IsWanted [] result sub h = h
  terms-IsWanted (t ∷ ts) result sub h =
      terms-IsWanted ts _ (λ x m. sub x (there m))
        (expressions-IsWanted t t (result, false) (sub t (here refl)) (λ e m. m) h)

convert_terms-IsWanted :
    (ids : NodePoolIdentifiers) (nps : List NodePool) (terms : List NodeSelectorTerm)
    (names : List String)
    → convert_terms ids (reply nps) terms ≡ ok names
    → Distinct names × ((name : String) → In name names → IsWanted ids nps terms name)
unfolding get_all_node_pools
convert_terms-IsWanted ids nps [] names h =
    let e : [] ≡ names = cc in rw (← e) (tt, λ name m. elim m [ ])
convert_terms-IsWanted ids [] (term ∷ terms) names h = ground arith
convert_terms-IsWanted ids (np ∷ nps) (term ∷ terms) names h =
    let all = np ∷ nps in
    let wanted_terms = term ∷ terms in
    let found =
      match_terms ids (by_label ids all wanted_terms) (being_deleted ids all wanted_terms)
        wanted_terms [] in
    let (distinct, same) = remove_duplicates_lem found in
    let e : remove_duplicates found ≡ names = cc in
    let wanted = terms-IsWanted ids all wanted_terms wanted_terms [] (λ t m. m) tt in
    rw (← e) (
      distinct,
      λ name m.
          All-apply (IsWanted ids all wanted_terms) found wanted
            (In-of_contains found name (sym (same name) ∙ contains_of_In m)),
    )

-- When a node affinity is converted, the listed names are distinct, and each of them is wanted: it
-- is the default node pool's name, or that of a listed node pool whose label an `In` expression of
-- the required terms has, while no listed node pool of that name is being deleted.
pub converted_IsWanted :
    (ids : NodePoolIdentifiers) (nps : List NodePool) (affinity : Option Affinity)
    (names : List String)
    → convert_node_affinity_to_node_pool_names affinity ids (reply nps) ≡ ok names
    → Distinct names
      × ((name : String) → In name names → IsWanted ids nps (required_terms affinity) name)
unfolding convert_node_affinity_to_node_pool_names
converted_IsWanted ids nps affinity names h =
    convert_terms-IsWanted ids nps (required_terms affinity) names h
