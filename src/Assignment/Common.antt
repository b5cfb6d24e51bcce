-- ===== src/Assignment/Common.antt =====
-- Shared helpers of the assigner: pkg/pod-group-assigner/controllers/common/common.go, and
-- utils.go and nodepool_utils.go of controllers/utils.
use kai_resource_management.Prelude.{
  ℕ, suc, String, Bool, true, false, Option, none, some, List, [], ◌∷◌, ℤ, pos, negsuc, Result, ok,
  ◌>>=◌, ◌==◌, if◌then◌else◌,
}
use kai_resource_management.Objects.{
  NodePool, NodePoolPhase, unset, deleting, unschedulable, Answer, lift,
}

abbrev pub no_scheduling_backoff : ℤ
no_scheduling_backoff = negsuc 0

abbrev pub single_scheduling_backoff : ℤ
single_scheduling_backoff = pos 1

abbrev pub get_mark_unschedulable_value : Option Bool → Bool
get_mark_unschedulable_value none = true
get_mark_unschedulable_value (some b) = b

abbrev pub get_scheduling_backoff_value : Option ℤ → ℤ
get_scheduling_backoff_value none = no_scheduling_backoff
get_scheduling_backoff_value (some n) = n

-- The index that the loop returns, counted from `i`.
abbrev pub index_from : ℕ → List String → String → ℤ
index_from i [] item = negsuc 0
index_from i (x ∷ xs) item =
    let rest = index_from (suc i) xs item in if x == item then pos i else rest

abbrev pub index_of_item_in_list : List String → String → ℤ
index_of_item_in_list list item = index_from 0 list item

-- What the API server answers for a node pool's name.
abbrev pub NodePools : Type 0
NodePools = String → Answer NodePool

abbrev pub is_available : NodePoolPhase → Bool
is_available unset = false
is_available deleting = false
is_available unschedulable = false
is_available _ = true

unfoldable pub get_node_pool_phase : NodePools → String → Result NodePoolPhase
get_node_pool_phase get name = lift (get name) >>= λ node_pool. ok node_pool.phase

unfoldable pub is_node_pool_available_for_scheduling :
    NodePools → String → Result (Bool × NodePoolPhase)
unfolding get_node_pool_phase
is_node_pool_available_for_scheduling get name =
    get_node_pool_phase get name >>= λ phase. ok (is_available phase, phase)
