-- ===== src/Assignment/Params/Rotation.antt =====
-- Round-robin over the requested node pools, and the absence of panics.
use kai_resource_management.Prelude.{
  ℤ, offset, length, get_elem?, get_elem?-lt, In, here, In-of_get_elem?, Distinct, Result, ok,
  ◌>>=◌, IsSafe, value_of, ℕ, zero, suc, ◌+◌, ◌-◌, ◌%◌, String, ◌≡◌, refl, ap, ◌∙◌, ◌≢◌, Bool, true,
  Option, some, List, [], ◌∷◌, arith,
}
use kai_resource_management.Objects.{SchedulingCondition}
use kai_resource_management.Assignment.Common.{NodePools, index_of_item_in_list}
use kai_resource_management.Assignment.Params.{
  NodePoolAssignmentParams, is_node_pool_available_for_assignment,
  get_initial_node_pool_assignment_params, find_from, find_next_node_pool_available_for_scheduling,
  calculate_node_pool_assignment_params, get_node_pool_assignment_params,
}
use kai_resource_management.Assignment.Params.Search.{index_of_In, at_modulo_total, initial-IsOk}
use native.Mathlib.Nat.{add-zero, mod-eq_of_lt, mod-add-mod}

available-IsSafe :
    (get : NodePools) (name : String) → IsSafe (is_node_pool_available_for_assignment get name)
unfolding is_node_pool_available_for_assignment
available-IsSafe get name = ground arith

find_from-IsSafe :
    (get : NodePools) (requested : List String) (previous : ℤ) (params : NodePoolAssignmentParams)
    {name : String} (member : In name requested) (left index : ℕ)
    → IsSafe (find_from get requested previous params left index)
unfolding find_from
find_from-IsSafe get requested previous params member zero index = tt
find_from-IsSafe get requested previous params member (suc left) index =
    let (next, at) = at_modulo_total (offset previous index) member in
    ground (
      arith,
      available-IsSafe get next,
      find_from-IsSafe get requested previous params member left (suc index),
    )

calculate-IsSafe :
    (get : NodePools) (mark : Option Bool) (last : Option SchedulingCondition) (assigned : String)
    (requested : List String) {name : String} (member : In name requested)
    → IsSafe (calculate_node_pool_assignment_params get mark last assigned requested)
unfolding calculate_node_pool_assignment_params find_next_node_pool_available_for_scheduling
calculate-IsSafe get mark last assigned requested member =
    let (p, start) = value_of _ (initial-IsOk mark last assigned member) in
    ground (
      arith,
      available-IsSafe get p.node_pool_name,
      find_from-IsSafe get requested (index_of_item_in_list requested p.node_pool_name) p member
          (length requested - 1) 1,
    )

-- With at least one requested node pool no index is out of range, whatever the API server answers
-- and whatever the pod group holds.
pub params_IsSafe :
    (get : NodePools) (mark : Option Bool) (last : Option SchedulingCondition) (assigned : String)
    (requested : List String)
    → requested ≢ []
    → IsSafe (get_node_pool_assignment_params get mark last assigned requested)
unfolding get_node_pool_assignment_params
params_IsSafe get mark last assigned [] h = absurd (h refl)
params_IsSafe get mark last assigned (x ∷ xs) h =
    ground (arith, calculate-IsSafe get mark last assigned (x ∷ xs) (here refl))

get_elem?_injective :
    {a : String} (xs : List String) (i j : ℕ)
    → Distinct xs
    → get_elem? xs i ≡ some a
    → get_elem? xs j ≡ some a
    → i ≡ j
get_elem?_injective [] i j d p q = absurd (cc)
get_elem?_injective (x ∷ xs) zero zero d p q = refl
get_elem?_injective (x ∷ xs) zero (suc j) d p q = absurd (d.0 (In-of_get_elem? xs j (cc)))
get_elem?_injective (x ∷ xs) (suc i) zero d p q = absurd (d.0 (In-of_get_elem? xs i (cc)))
get_elem?_injective (x ∷ xs) (suc i) (suc j) d p q = ap suc (get_elem?_injective xs i j d.1 p q)

-- One node pool after the other: each round finds the choice of the round before refused.
unfoldable pub rounds : NodePools → Option Bool → List String → String → ℕ → Result String
rounds get mark requested name zero = ok name
rounds get mark requested name (suc k) = rounds get mark requested name k >>= λ refused.
    get_node_pool_assignment_params get mark
      (some (record { node_pool = refused; unschedulable_on_node_pool = true })) refused requested
    >>= λ p. ok p.node_pool_name

abbrev pub AllReady : NodePools → List String → Type 0
AllReady get requested =
    (name : String) → In name requested → is_node_pool_available_for_assignment get name ≡ ok true

next_choice :
    (get : NodePools) (mark : Option Bool) (requested : List String) (i : ℕ) (name next : String)
    → Distinct requested
    → AllReady get requested
    → get_elem? requested i ≡ some name
    → get_elem? requested ((i + 1) % length requested) ≡ some next
    → (get_node_pool_assignment_params get mark
          (some (record { node_pool = name; unschedulable_on_node_pool = true }))
          name
          requested
        >>= λ p. ok p.node_pool_name)
      ≡ ok next
unfolding get_node_pool_assignment_params calculate_node_pool_assignment_params
    get_initial_node_pool_assignment_params
next_choice get mark requested i name next distinct takes at at_next =
    let (j, found, at_j) = index_of_In (In-of_get_elem? requested i at) in
    let same = get_elem?_injective requested i j distinct at at_j in
    let tested = takes next (In-of_get_elem? requested _ at_next) in ground arith

-- While every requested node pool takes pods, `k` refused rounds move a pod group that was at
-- index `i` of the distinct requested node pools to index `i + k`, going round the list: so every
-- one of them is tried within as many rounds as there are node pools.
pub rounds_rotate :
    (get : NodePools) (mark : Option Bool) (requested : List String) (i k : ℕ) (name : String)
    → Distinct requested
    → AllReady get requested
    → get_elem? requested i ≡ some name
    → (a : String) × (rounds get mark requested name k ≡ ok a)
      × (get_elem? requested ((i + k) % length requested) ≡ some a)
unfolding rounds
rounds_rotate get mark requested i zero name distinct takes at =
    let same : (i + 0) % length requested ≡ i =
      ap (λ t. t % length requested) (add-zero i) ∙ mod-eq_of_lt (get_elem?-lt requested i at) in
    (name, refl, rw same at)
rounds_rotate get mark requested i (suc k) name distinct takes at =
    let (a, e, at_a) = rounds_rotate get mark requested i k name distinct takes at in
    let (b, at_b) = at_modulo_total (i + suc k) (In-of_get_elem? requested i at) in
    let turn : ((i + k) % length requested + 1) % length requested
        ≡ (i + suc k) % length requested =
      mod-add-mod (i + k) (length requested) 1 ∙ ap (λ t. t % length requested) (omega arith) in
    let chosen = next_choice get mark requested _ a b distinct takes at_a (rw turn at_b) in
    (b, rw e chosen, at_b)
