-- ===== src/Assignment/Params.antt =====
-- The choice of a node pool and of the flags that go with it:
-- pkg/pod-group-assigner/controllers/podgroup/assignment_params/nodepool_assignment_params.go.
-- The list of requested node pools is indexed as in the source, so an empty list panics.
pub mod Chosen
pub mod Search
pub mod Rotation
use kai_resource_management.Prelude.{
  ℤ, is_nonneg, offset, below, ltb, nat_eq, ◌==◌, if◌then◌else◌, length, get_elem?, invalid, Result,
  ok, err, ◌>>=◌, or_panic, ℕ, zero, suc, ◌-◌, ◌%◌, String, Bool, true, false, ◌&&◌, ◌||◌, Option,
  none, some, List,
}
use kai_resource_management.Objects.{SchedulingCondition}
use kai_resource_management.Assignment.Common.{
  no_scheduling_backoff, single_scheduling_backoff, get_mark_unschedulable_value,
  index_of_item_in_list, NodePools, is_node_pool_available_for_scheduling,
}

pub record NodePoolAssignmentParams : Type 0 where
  pub node_pool_name : String
  pub mark_unschedulable : Bool
  pub scheduling_backoff : ℤ
  pub remove_unschedulable_on_node_pool_scheduling_condition : Bool

abbrev pub get_scheduling_backoff : List String → ℤ
get_scheduling_backoff requested =
    if nat_eq (length requested) 1 then no_scheduling_backoff else single_scheduling_backoff

unfoldable pub is_node_pool_available_for_assignment : NodePools → String → Result Bool
unfolding is_node_pool_available_for_scheduling
is_node_pool_available_for_assignment get name =
    is_node_pool_available_for_scheduling get name >>= λ (available, phase). ok available

-- `requestedNodePools[k % len(requestedNodePools)]`: the remainder by 0 panics too.
abbrev pub at_modulo : List String → ℕ → Result String
at_modulo requested k = or_panic (get_elem? requested (k % length requested))

abbrev pub is_true : Option Bool → Bool
is_true none = false
is_true (some b) = b

-- No scheduling condition: the first requested node pool, or the one already assigned.
abbrev pub initial_without_condition :
    Option Bool → String → List String → Result NodePoolAssignmentParams
initial_without_condition mark assigned requested = or_panic (get_elem? requested 0) >>= λ first.
    ok (record {
      node_pool_name =
          if is_nonneg (index_of_item_in_list requested assigned) then assigned else first;
      mark_unschedulable = nat_eq (length requested) 1 || is_true mark;
      scheduling_backoff = get_scheduling_backoff requested;
      remove_unschedulable_on_node_pool_scheduling_condition = false;
    })

-- A scheduling condition: the node pool behind the condition's one, round-robin.
abbrev pub initial_after_condition :
    Option Bool → SchedulingCondition → List String → Result NodePoolAssignmentParams
initial_after_condition mark last requested =
    let next_index = offset (index_of_item_in_list requested last.node_pool) 1 % length requested in
    or_panic (get_elem? requested next_index) >>= λ next. ok (record {
      node_pool_name = next;
      mark_unschedulable =
          get_mark_unschedulable_value mark || nat_eq next_index (length requested - 1);
      scheduling_backoff = get_scheduling_backoff requested;
      remove_unschedulable_on_node_pool_scheduling_condition = false;
    })

unfoldable pub get_initial_node_pool_assignment_params :
    Option Bool
    → Option SchedulingCondition
    → String
    → List String
    → Result NodePoolAssignmentParams
get_initial_node_pool_assignment_params mark none assigned requested =
    initial_without_condition mark assigned requested
get_initial_node_pool_assignment_params mark (some last) assigned requested =
    initial_after_condition mark last requested

-- The parameters for the node pool `name` at `next_index`, when the search has left `previous`.
abbrev pub moved_to :
    List String → ℤ → NodePoolAssignmentParams → ℕ → String → NodePoolAssignmentParams
moved_to requested previous params next_index name = record params {
  node_pool_name = name;
  mark_unschedulable =
      params.mark_unschedulable
      || (nat_eq next_index (length requested - 1) || below next_index previous);
}

-- The loop of findNextNodePoolAvailableForScheduling: `left` rounds are left, and the round's
-- `index` counts up from 1. The rounds left bound the loop, as `index < len` does.
unfoldable pub find_from :
    NodePools
    → List String
    → ℤ
    → NodePoolAssignmentParams
    → (left index : ℕ) → Result NodePoolAssignmentParams
find_from get requested previous params zero index =
    err (invalid "all node pools from options are non available")
find_from get requested previous params (suc left) index =
    let rest = find_from get requested previous params left (suc index) in
    let next_index = offset previous index % length requested in
    or_panic (get_elem? requested next_index) >>= λ name.
    is_node_pool_available_for_assignment get name >>= λ available.
    if available then ok (moved_to requested previous params next_index name) else rest

unfoldable pub find_next_node_pool_available_for_scheduling :
    NodePools → List String → NodePoolAssignmentParams → Result NodePoolAssignmentParams
find_next_node_pool_available_for_scheduling get requested params =
    find_from get requested (index_of_item_in_list requested params.node_pool_name) params
      (length requested - 1) 1

unfoldable pub calculate_node_pool_assignment_params :
    NodePools
    → Option Bool
    → Option SchedulingCondition
    → String
    → List String
    → Result NodePoolAssignmentParams
calculate_node_pool_assignment_params get mark last assigned requested =
    get_initial_node_pool_assignment_params mark last assigned requested >>= λ params.
    is_node_pool_available_for_assignment get params.node_pool_name >>= λ available.
    if available
    then ok params
    else find_next_node_pool_available_for_scheduling get requested params

-- Whether the choice falls on the node pool of the last condition.
abbrev pub stays : Option SchedulingCondition → String → Bool
stays none name = false
stays (some last) name = name == last.node_pool

unfoldable pub get_node_pool_assignment_params :
    NodePools
    → Option Bool
    → Option SchedulingCondition
    → String
    → List String
    → Result NodePoolAssignmentParams
get_node_pool_assignment_params get mark last assigned requested =
    calculate_node_pool_assignment_params get mark last assigned requested >>= λ params.
    if ltb 1 (length requested) && stays last params.node_pool_name
    then ok (record params { remove_unschedulable_on_node_pool_scheduling_condition = true })
    else ok params
