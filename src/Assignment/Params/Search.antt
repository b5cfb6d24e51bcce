-- ===== src/Assignment/Params/Search.antt =====
-- The search for the next node pool ends with one, where there is one, and never panics.
use kai_resource_management.Prelude.{
  pos, offset, ◌==◌, Bool-cases, eq_of_true, length, get_elem?, get_elem?-total, get_elem?-lt, In,
  here, there, In-of_get_elem?, get_elem?_of_In, ok, OnOk_apply, IsOk, value_of, ℕ, zero, suc, ◌+◌,
  ◌-◌, ◌%◌, ◌≤◌, ◌<◌, String, eq_iff, ◌≡◌, ap, ◌∙◌, ◌≢◌, inl, inr, Bool, true, false, Option, none,
  some, List, arith, dec_lt,
}
use kai_resource_management.Objects.{NodePool, reply, SchedulingCondition}
use kai_resource_management.Assignment.Common.{
  NodePools, is_available, index_from, index_of_item_in_list, get_node_pool_phase,
}
use kai_resource_management.Assignment.Params.{
  NodePoolAssignmentParams, is_node_pool_available_for_assignment,
  get_initial_node_pool_assignment_params, find_from, find_next_node_pool_available_for_scheduling,
  calculate_node_pool_assignment_params, get_node_pool_assignment_params,
}
use kai_resource_management.Assignment.Params.Chosen.{initial-In}
use native.Mathlib.Nat.{mod-eq_of_lt, mod-lt}

-- A node pool that the list holds is found, at an index that holds it.
pub index_from-In :
    {a : String} (i : ℕ) {xs : List String}
    → In a xs
    → (j : ℕ) × (index_from i xs a ≡ pos (i + j)) × (get_elem? xs j ≡ some a)
index_from-In {a} i (here {x = x} e) = (0, ground (arith, eq_iff x a), ap some e)
index_from-In {a} i (there {x = x} m) = elim (Bool-cases (x == a)) [
  | inl e ↦ (0, rw e (ap pos (omega arith)), ap some (eq_of_true e))
  | inr e ↦ let (j, p, q) = index_from-In (suc i) m in (suc j, rw e (p ∙ ap pos (omega arith)), q)
]

pub index_of_In :
    {a : String} {xs : List String}
    → In a xs
    → (j : ℕ) × (index_of_item_in_list xs a ≡ pos j) × (get_elem? xs j ≡ some a)
index_of_In m = let (j, p, q) = index_from-In 0 m in (j, p ∙ ap pos (omega arith), q)

-- The API server knows every requested node pool.
abbrev pub AllKnown : NodePools → List String → Type 0
AllKnown get requested =
    (name : String) → In name requested → (node_pool : NodePool) × (get name ≡ reply node_pool)

available_of_reply :
    (get : NodePools) (name : String) (node_pool : NodePool)
    → get name ≡ reply node_pool
    → is_node_pool_available_for_assignment get name ≡ ok (is_available node_pool.phase)
unfolding is_node_pool_available_for_assignment
available_of_reply get name node_pool e = rw (e, get_node_pool_phase)

-- A round that the target lies ahead of ends with a node pool.
find_from-IsOk :
    (get : NodePools) (requested : List String) (j : ℕ) (params : NodePoolAssignmentParams)
    (target : ℕ) (name : String)
    → AllKnown get requested
    → get_elem? requested ((j + target) % length requested) ≡ some name
    → is_node_pool_available_for_assignment get name ≡ ok true
    → (left index : ℕ) → index ≤ target
    → target < index + left
    → IsOk (find_from get requested (pos j) params left index)
unfolding find_from
find_from-IsOk get requested j params target name known at takes zero index h k =
    absurd (omega arith)
find_from-IsOk get requested j params target name known at takes (suc left) index h k =
    let (other, here_other) =
      get_elem?-total requested ((j + index) % length requested)
        (mod-lt (j + index) (grind (arith, get_elem?-lt requested _ at))) in
    let (node_pool, replied) = known other (In-of_get_elem? requested _ here_other) in
    let tested = available_of_reply get other node_pool replied in
    ground
      (arith, find_from-IsOk get requested j params target name known at takes left (suc index))

-- How far ahead of `j` the index `i` lies, going round a list of `n`.
ahead : (i j n : ℕ) → i < n → j < n → i ≢ j → (d : ℕ) × (1 ≤ d) × (d < n) × ((j + d) % n ≡ i)
ahead i j n hi hj ne = elim (dec_lt j i) [
  | yes lt ↦ (i - j, omega arith, omega arith, grind (arith, mod-eq_of_lt))
  | no ge ↦ (i + n - j, omega arith, omega arith, grind arith)
]

-- The search from any requested node pool that is not takes finds the one that is.
find_next-IsOk :
    (get : NodePools) (requested : List String) (params : NodePoolAssignmentParams) (name : String)
    → AllKnown get requested
    → In params.node_pool_name requested
    → is_node_pool_available_for_assignment get params.node_pool_name ≡ ok false
    → In name requested
    → is_node_pool_available_for_assignment get name ≡ ok true
    → IsOk (find_next_node_pool_available_for_scheduling get requested params)
unfolding find_next_node_pool_available_for_scheduling
find_next-IsOk get requested params name known member busy other takes =
    let (j, found, at_j) = index_of_In member in
    let (i, lt_i, at_i) = get_elem?_of_In other in
    let lt_j = get_elem?-lt requested j at_j in
    let (d, low, high, there_i) = ahead i j (length requested) lt_i lt_j (λ same. ground arith) in
    rw found (
      find_from-IsOk get requested j params d name known (rw there_i at_i) takes
        (length requested - 1) 1 low (omega arith))

-- Some node pool is requested, so every index modulo the length names one.
pub at_modulo_total :
    {name : String} {requested : List String} (k : ℕ)
    → In name requested
    → (a : String) × (get_elem? requested (k % length requested) ≡ some a)
at_modulo_total {requested = requested} k member =
    let (i, lt, at) = get_elem?_of_In member in get_elem?-total requested _ (mod-lt k (omega arith))

pub initial-IsOk :
    (mark : Option Bool) (last : Option SchedulingCondition) (assigned : String) {name : String}
    {requested : List String}
    → In name requested
    → IsOk (get_initial_node_pool_assignment_params mark last assigned requested)
unfolding get_initial_node_pool_assignment_params
initial-IsOk mark none assigned (here e) = tt
initial-IsOk mark none assigned (there m) = tt
initial-IsOk mark (some last) assigned {requested = requested} m =
    let (next, at) =
      at_modulo_total (offset (index_of_item_in_list requested last.node_pool) 1) m in
    ground arith

calculate-IsOk :
    (get : NodePools) (mark : Option Bool) (last : Option SchedulingCondition) (assigned : String)
    (requested : List String) (name : String)
    → AllKnown get requested
    → In name requested
    → is_node_pool_available_for_assignment get name ≡ ok true
    → IsOk (calculate_node_pool_assignment_params get mark last assigned requested)
unfolding calculate_node_pool_assignment_params
calculate-IsOk get mark last assigned requested name known member takes =
    let (p, start) = value_of _ (initial-IsOk mark last assigned member) in
    let chosen = OnOk_apply _ _ (initial-In mark last assigned requested) start in
    let (node_pool, replied) = known p.node_pool_name chosen in
    let tested = available_of_reply get p.node_pool_name node_pool replied in
    ground (arith, find_next-IsOk get requested p name known chosen)

-- Where the API server knows every requested node pool, and one of them is in a phase that takes
-- pods, the assigner comes to parameters: it neither fails nor panics.
pub assignment_found :
    (get : NodePools) (mark : Option Bool) (last : Option SchedulingCondition) (assigned : String)
    (requested : List String) (name : String) (node_pool : NodePool)
    → AllKnown get requested
    → In name requested
    → get name ≡ reply node_pool
    → is_available node_pool.phase ≡ true
    → (p : NodePoolAssignmentParams) × (get_node_pool_assignment_params get mark last assigned
          requested
        ≡ ok p)
unfolding get_node_pool_assignment_params
assignment_found get mark last assigned requested name node_pool known member found takes =
    value_of _ (
      ground (
        arith,
        calculate-IsOk get mark last assigned requested name known member,
        available_of_reply get name node_pool found,
      ))
