-- ===== src/Assignment/Params/Chosen.antt =====
-- What holds of the node pool that the assignment parameters name.
use kai_resource_management.Prelude.{
  ℤ, is_nonneg, ltb, ◌==◌, Bool-cases, eq_of_true, length, In, here, there, In-of_get_elem?, ok,
  OnOk, OnOk_apply, OnOk->>=, OnOk-if, ℕ, zero, suc, String, ◌≡◌, refl, ◌≢◌, inl, inr, Bool, true,
  ◌&&◌, Option, none, some, List, [], ◌∷◌, arith,
}
use kai_resource_management.Objects.{
  unset, unschedulable, deleting, NodePool, Answer, reply, fail, SchedulingCondition,
}
use kai_resource_management.Assignment.Common.{NodePools, index_from}
use kai_resource_management.Assignment.Params.{
  stays, NodePoolAssignmentParams, is_node_pool_available_for_assignment,
  get_initial_node_pool_assignment_params, find_from, find_next_node_pool_available_for_scheduling,
  calculate_node_pool_assignment_params, get_node_pool_assignment_params,
}

-- The API server knows the node pool, and its phase takes pods.
abbrev pub Accepts : NodePools → String → Type 0
Accepts get name =
    (node_pool : NodePool) × (get name ≡ reply node_pool)
    × (node_pool.phase ≢ unset)
    × (node_pool.phase ≢ deleting)
    × (node_pool.phase ≢ unschedulable)

pub Accepts-of_available :
    (get : NodePools) (name : String)
    → is_node_pool_available_for_assignment get name ≡ ok true
    → Accepts get name
unfolding is_node_pool_available_for_assignment
Accepts-of_available get name h = split (get name) refl
  where
    split : (a : Answer NodePool) → get name ≡ a → Accepts get name
    split (reply node_pool) e = (node_pool, e, ground arith, ground arith, ground arith)
    split (fail x) e = ground arith

In-of_index_from :
    (i : ℕ) (xs : List String) (a : String) → is_nonneg (index_from i xs a) ≡ true → In a xs
In-of_index_from i [] a h = absurd (cc)
In-of_index_from i (x ∷ xs) a h = elim (Bool-cases (x == a)) [
  | inl e ↦ here (eq_of_true e)
  | inr e ↦ there (In-of_index_from (suc i) xs a (rw e at h))
]

-- A requested node pool that takes pods, as the code tests it.
abbrev IsChosen : NodePools → List String → NodePoolAssignmentParams → Type 0
IsChosen get requested p =
    In p.node_pool_name requested
    × (is_node_pool_available_for_assignment get p.node_pool_name ≡ ok true)

pub initial-In :
    (mark : Option Bool) (last : Option SchedulingCondition) (assigned : String)
    (requested : List String)
    → OnOk
        (λ p. In p.node_pool_name requested)
        (get_initial_node_pool_assignment_params mark last assigned requested)
unfolding get_initial_node_pool_assignment_params
initial-In mark none assigned requested = grind (arith, In-of_get_elem?, In-of_index_from)
initial-In mark (some last) assigned requested = grind (arith, In-of_get_elem?)

find_from-IsChosen :
    (get : NodePools) (requested : List String) (previous : ℤ) (params : NodePoolAssignmentParams)
    (left index : ℕ)
    → OnOk (IsChosen get requested) (find_from get requested previous params left index)
unfolding find_from
find_from-IsChosen get requested previous params zero index = tt
find_from-IsChosen get requested previous params (suc left) index =
    grind
      (arith, In-of_get_elem?, find_from-IsChosen get requested previous params left (suc index))

calculate-IsChosen :
    (get : NodePools) (mark : Option Bool) (last : Option SchedulingCondition) (assigned : String)
    (requested : List String)
    → OnOk
        (IsChosen get requested)
        (calculate_node_pool_assignment_params get mark last assigned requested)
unfolding calculate_node_pool_assignment_params find_next_node_pool_available_for_scheduling
calculate-IsChosen get mark last assigned requested =
    OnOk->>= _ (get_initial_node_pool_assignment_params mark last assigned requested) _ (λ p e.
      OnOk->>= _ (is_node_pool_available_for_assignment get p.node_pool_name) _ (λ available e'.
        OnOk-if _ available _ _
          (λ t. (OnOk_apply _ _ (initial-In mark last assigned requested) e, cc))
          (λ f. find_from-IsChosen get requested _ p _ _)))

-- Whenever parameters come back, the node pool that they name is one of the requested ones, and
-- the API server has it in a phase other than unset, Deleting and Unschedulable.
pub chosen_node_pool :
    (get : NodePools) (mark : Option Bool) (last : Option SchedulingCondition) (assigned : String)
    (requested : List String) (p : NodePoolAssignmentParams)
    → get_node_pool_assignment_params get mark last assigned requested ≡ ok p
    → In p.node_pool_name requested × Accepts get p.node_pool_name
unfolding get_node_pool_assignment_params
chosen_node_pool get mark last assigned requested p h =
    let (member, available) = OnOk_apply _ _ found h in
    (member, Accepts-of_available get _ available)
  where
    found :
        OnOk
          (IsChosen get requested)
          (get_node_pool_assignment_params get mark last assigned requested)
    found =
        OnOk->>= (IsChosen get requested)
          (calculate_node_pool_assignment_params get mark last assigned requested) _
          (λ q e.
            let chosen = OnOk_apply _ _ (calculate-IsChosen get mark last assigned requested) e in
            OnOk-if (IsChosen get requested)
              (ltb 1 (length requested) && stays last q.node_pool_name) _ _ (λ _. chosen)
              (λ _. chosen))
