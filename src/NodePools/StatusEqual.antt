-- ===== src/NodePools/StatusEqual.antt =====
-- The comparison of two statuses of a node pool (isStatusEqual of nodepool_status_handler.go), and
-- what it tells when it says that they are equal.
use kai_resource_management.Prelude.{
  nat_eq, ◌==◌, ◌!=◌, if◌then◌else◌, length, All, In, ℕ, String, eq_iff, ◌≡◌, refl, sym, ap, ◌∙◌,
  subst, Bool, true, false, not, ◌&&◌, ◌||◌, List, [], ◌∷◌, arith,
}
use kai_resource_management.Objects.{
  NodePoolPhase, unset, empty, ready, unschedulable, deleting, missing_prerequisites,
}
use kai_resource_management.NodePools.Keyed.{
  by_key, all_matched, Counterpart, all_matched-Counterpart,
}
use kai_resource_management.NodePools.{
  NodeStatus, node_ready, node_unschedulable, node_missing_nrt, NodeInNodePool, NodePoolCondition,
  NodePoolStatus,
}

abbrev phase_code : NodePoolPhase → ℕ
phase_code unset = 0
phase_code empty = 1
phase_code ready = 2
phase_code unschedulable = 3
phase_code deleting = 4
phase_code missing_prerequisites = 5

abbrev pub phase_eq : NodePoolPhase → NodePoolPhase → Bool
phase_eq a b = nat_eq (phase_code a) (phase_code b)

abbrev pub node_status_eq : NodeStatus → NodeStatus → Bool
node_status_eq node_ready node_ready = true
node_status_eq node_unschedulable node_unschedulable = true
node_status_eq node_missing_nrt node_missing_nrt = true
node_status_eq _ _ = false

abbrev pub truth_eq : Bool → Bool → Bool
truth_eq true b = b
truth_eq false b = not b

abbrev pub node_in_pool_eq : NodeInNodePool → NodeInNodePool → Bool
node_in_pool_eq left right =
    node_status_eq left.status right.status
    && truth_eq left.topology_mismatch right.topology_mismatch

abbrev pub pool_condition_eq : NodePoolCondition → NodePoolCondition → Bool
pool_condition_eq left right =
    left.status == right.status && left.reason == right.reason && left.message == right.message

abbrev pub name_of_node : NodeInNodePool → String
name_of_node node = node.name

abbrev pub type_of_condition : NodePoolCondition → String
type_of_condition condition = condition.condition_type

unfoldable pub is_node_in_nodepool_equal : List NodeInNodePool → List NodeInNodePool → Bool
is_node_in_nodepool_equal left right =
    if not (nat_eq (length left) (length right))
    then false
    else all_matched name_of_node node_in_pool_eq (by_key name_of_node [] left) right

unfoldable pub is_node_pool_conditions_equal :
    List NodePoolCondition → List NodePoolCondition → Bool
is_node_pool_conditions_equal left right =
    if not (nat_eq (length left) (length right))
    then false
    else all_matched type_of_condition pool_condition_eq (by_key type_of_condition [] left) right

unfoldable pub is_status_equal : NodePoolStatus → NodePoolStatus → Bool
is_status_equal left right =
    if not (phase_eq left.phase right.phase)
      || left.message != right.message
      || not (nat_eq (length left.nodes) (length right.nodes))
      || not (nat_eq (length left.conditions) (length right.conditions))
    then false
    else if not (is_node_pool_conditions_equal left.conditions right.conditions)
    then false
    else is_node_in_nodepool_equal left.nodes right.nodes

All-map :
    {A : Type 0} {P Q : A → Type 0} (xs : List A) → ((a : A) → P a → Q a) → All P xs → All Q xs
All-map [] f h = tt
All-map (x ∷ xs) f h = (f x h.0, All-map xs f h.1)

status_of_eq : (a b : NodeStatus) → node_status_eq a b ≡ true → a ≡ b
status_of_eq node_ready node_ready h = refl
status_of_eq node_unschedulable node_unschedulable h = refl
status_of_eq node_missing_nrt node_missing_nrt h = refl
status_of_eq node_ready node_unschedulable h = absurd (cc)
status_of_eq node_ready node_missing_nrt h = absurd (cc)
status_of_eq node_unschedulable node_ready h = absurd (cc)
status_of_eq node_unschedulable node_missing_nrt h = absurd (cc)
status_of_eq node_missing_nrt node_ready h = absurd (cc)
status_of_eq node_missing_nrt node_unschedulable h = absurd (cc)

phase_of_code : ℕ → NodePoolPhase
phase_of_code n =
    if nat_eq n 0
    then unset
    else if nat_eq n 1
    then empty
    else if nat_eq n 2
    then ready
    else if nat_eq n 3
    then unschedulable
    else if nat_eq n 4
    then deleting
    else missing_prerequisites

phase_of_code-phase_code : (phase : NodePoolPhase) → phase_of_code (phase_code phase) ≡ phase
unfolding phase_of_code
phase_of_code-phase_code unset = refl
phase_of_code-phase_code empty = refl
phase_of_code-phase_code ready = refl
phase_of_code-phase_code unschedulable = refl
phase_of_code-phase_code deleting = refl
phase_of_code-phase_code missing_prerequisites = refl

phase_of_eq : (a b : NodePoolPhase) → phase_eq a b ≡ true → a ≡ b
phase_of_eq a b h =
    let same : phase_code a ≡ phase_code b = ground arith in
    sym (phase_of_code-phase_code a) ∙ ap phase_of_code same ∙ phase_of_code-phase_code b

node-alike : (a b : NodeInNodePool) → a.name ≡ b.name → node_in_pool_eq a b ≡ true → a ≡ b
node-alike a b name same = ground (arith, status_of_eq a.status b.status)

-- The two conditions differ in the time of their last transition at most.
abbrev pub SaysTheSame : NodePoolCondition → NodePoolCondition → Type 0
SaysTheSame a b =
    (a.condition_type ≡ b.condition_type)
    × (a.status ≡ b.status)
    × (a.reason ≡ b.reason)
    × (a.message ≡ b.message)

condition-alike :
    (left : List NodePoolCondition) (b : NodePoolCondition)
    → Counterpart type_of_condition pool_condition_eq left b
    → (a : NodePoolCondition) × In a left × SaysTheSame a b
condition-alike left b (a, m, kind, same) = (
  a,
  m,
  (
    kind,
    ground (arith, eq_iff a.status b.status),
    ground (arith, eq_iff a.reason b.reason),
    ground (arith, eq_iff a.message b.message),
  ),
)

node-alike_In :
    (left : List NodeInNodePool) (b : NodeInNodePool)
    → Counterpart name_of_node node_in_pool_eq left b
    → In b left
node-alike_In left b (a, m, name, same) = subst (λ x. In x left) (node-alike a b name same) m

-- Two statuses are only said to be equal where phase, message and the numbers of nodes and conditions
-- are the same, each node of the second is one of the first, and for each condition of the second
-- the first has one of the same type, status, reason and message; their times of the last
-- transition may differ.
pub is_status_equal_sound :
    (left right : NodePoolStatus)
    → is_status_equal left right ≡ true
    → (left.phase ≡ right.phase)
      × (left.message ≡ right.message)
      × (length left.nodes ≡ length right.nodes)
      × (length left.conditions ≡ length right.conditions)
      × All (λ node. In node left.nodes) right.nodes
      × All (λ b. (a : NodePoolCondition) × In a left.conditions × SaysTheSame a b) right.conditions
unfolding is_status_equal is_node_in_nodepool_equal is_node_pool_conditions_equal
is_status_equal_sound left right h = (
  phase_of_eq left.phase right.phase (ground arith),
  ground (arith, eq_iff left.message right.message),
  ground arith,
  ground arith,
  All-map right.nodes (node-alike_In left.nodes)
      (all_matched-Counterpart name_of_node node_in_pool_eq left.nodes right.nodes (ground arith)),
  All-map right.conditions (condition-alike left.conditions) (
      all_matched-Counterpart type_of_condition pool_condition_eq left.conditions right.conditions
        (ground arith)),
)
