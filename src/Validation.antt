-- ===== src/Validation.antt =====
-- The validating webhook of projects, departments and queues: pkg/project-controller/hierarchy
-- (tree.go) and pkg/project-controller/webhooks/validation. The problems that the code gathers in a
-- multierror are a list, empty where the object is accepted; their texts are constructors.
pub mod NodePools
pub mod Ancestors
pub mod Heights
pub mod Levels
pub mod Chains
pub mod Fits
pub mod Parents
mod Tests
use kai_resource_management.Prelude.{
  ltb, ◌==◌, ◌!=◌, if◌then◌else◌, length, any, filter, contains, lookup, insert, get_or_empty, Err,
  is_not_found, ℕ, zero, suc, ◌+◌, String, ◌⊎◌, inl, inr, Bool, true, false, ◌&&◌, ◌||◌, Option,
  none, some, List, [], ◌∷◌, ◌++◌, map,
}
use kai_resource_management.Objects.{
  OwnerReference, Queue, NodePool, QueueConfig, Project, Department, Answer, reply, fail,
}

-- `internal` is a failure of the API server, the others are violations of a rule.
pub data Problem : Type 0 where
  internal : Err → Problem
  empty_node_pool : (queue : String) → Problem
  repeated_node_pool unknown_node_pool : (queue nodepool : String) → Problem
  default_without_queue : (nodepool : String) → Problem
  unknown_parent deleted_parent : (parent : String) → Problem
  parent_loop : (loop : List String) → Problem
  too_deep : (department parent : String) → Problem
  managed_parent : (queue parent : String) → Problem

-- `get_department_live` reads past the cache; `group_of` is the group that
-- schema.ParseGroupVersion reads off an API version, where it can; `krm_group` is the group of
-- projects and departments.
pub record Validator : Type 0 where
  pub get_department : String → Answer Department
  pub get_department_live : String → Answer Department
  pub list_departments : Answer (List Department)
  pub list_node_pools : Answer (List NodePool)
  pub get_queue : String → Answer Queue
  pub group_of : String → Option String
  pub krm_group : String

-- The names of the departments, each with its parent's.
abbrev pub Tree : Type 0
Tree = List (String × String)

abbrev pub max_depth : ℕ
max_depth = 7

unfoldable pub add_departments : List Department → Tree → Tree
add_departments [] tree = tree
add_departments (d ∷ ds) tree = add_departments ds (insert d.name d.parent tree)

abbrev pub new_tree : List Department → Tree
new_tree departments = add_departments departments []

-- The loop of Ancestors at `parent`, with `left` more ancestors allowed; the nearest ancestor first.
unfoldable pub ancestors_from : Tree → String → List String → ℕ → String → List String × Bool
ancestors_from tree name seen zero parent = ([], false)
ancestors_from tree name seen (suc left) parent =
    let rest = ancestors_from tree name (parent ∷ seen) left (get_or_empty parent tree) in
    if parent == ""
    then ([], false)
    else if parent == name
    then ([], true)
    else elim (lookup parent tree) [
      | none ↦ ([], false)
      | some above ↦ (if contains seen parent then ([], false) else (parent ∷ rest.0, rest.1))
    ]

unfoldable pub ancestors : Tree → String → ℕ → List String × Bool
unfolding ancestors_from
ancestors tree name limit = ancestors_from tree name [] limit (get_or_empty name tree)

abbrev pub children : Tree → String → List String
children tree department = map (λ e. e.0) (filter (λ e. e.1 == department) tree)

-- The children that were not seen, and what is seen with them.
unfoldable pub new_children : List String → List String → List String × List String
new_children [] seen = ([], seen)
new_children (child ∷ cs) seen =
    let later = new_children cs (child ∷ seen) in
    let same = new_children cs seen in
    if contains seen child then same else (child ∷ later.0, later.1)

unfoldable pub next_level : Tree → List String → List String → List String × List String
next_level tree [] seen = ([], seen)
next_level tree (department ∷ level) seen =
    let (here_below, seen') = new_children (children tree department) seen in
    let (others, seen'') = next_level tree level seen' in (here_below ++ others, seen'')

unfoldable pub height_from : Tree → List String → ℕ → List String → ℕ
height_from tree seen zero level = 0
height_from tree seen (suc left) [] = 0
height_from tree seen (suc left) (d ∷ level) =
    let (next, seen') = next_level tree (d ∷ level) seen in suc (height_from tree seen' left next)

unfoldable pub height : Tree → String → ℕ → ℕ
height tree name limit = height_from tree (name ∷ []) limit (name ∷ [])

abbrev pub node_pool_names : List NodePool → List String
node_pool_names pools = map (λ np. np.name) pools

-- The loop over the queues, with the node pools seen before.
unfoldable pub check_queues : List String → List String → List QueueConfig → List Problem
check_queues existing seen [] = []
check_queues existing seen (q ∷ queues) =
    let unseen = check_queues existing seen queues in
    let rest = check_queues existing (q.nodepool ∷ seen) queues in
    if q.nodepool == ""
    then empty_node_pool q.name ∷ unseen
    else if contains seen q.nodepool
    then repeated_node_pool q.name q.nodepool ∷ unseen
    else if contains existing q.nodepool
    then rest
    else unknown_node_pool q.name q.nodepool ∷ rest

abbrev pub check_listed : List QueueConfig → Answer (List NodePool) → List Problem
check_listed queues (fail e) = internal e ∷ []
check_listed queues (reply pools) = check_queues (node_pool_names pools) [] queues

unfoldable pub validate_queue_node_pools_exist : Validator → List QueueConfig → List Problem
validate_queue_node_pools_exist v [] = []
validate_queue_node_pools_exist v (q ∷ queues) = check_listed (q ∷ queues) v.list_node_pools

-- Either the problem or the value.
abbrev pub read_parent : String → Answer Department → Problem ⊎ Department
read_parent name (reply d) = inr d
read_parent name (fail e) = inl (if is_not_found e then unknown_parent name else internal e)

abbrev pub or_live : Validator → String → Answer Department → Answer Department
or_live v name (reply d) = reply d
or_live v name (fail e) = if is_not_found e then v.get_department_live name else fail e

unfoldable pub get_parent_department : Validator → String → Problem ⊎ Department
get_parent_department v name = read_parent name (or_live v name (v.get_department name))

abbrev pub problem_of : Problem ⊎ Department → List Problem
problem_of (inl p) = p ∷ []
problem_of (inr d) = []

unfoldable pub validate_parent : Validator → String → List Problem
validate_parent v parent = if parent == "" then [] else problem_of (get_parent_department v parent)

abbrev pub tree_with : Department → Department → List Department → Tree
tree_with department parent departments =
    insert department.name department.parent
      (insert parent.name parent.parent (new_tree departments))

unfoldable pub check_tree : Department → Tree → List Problem
check_tree department tree =
    let above = ancestors tree department.name max_depth in
    if above.1
    then parent_loop (department.name ∷ (above.0 ++ department.name ∷ [])) ∷ []
    else if ltb max_depth (length above.0 + height tree department.name max_depth)
    then too_deep department.name department.parent ∷ []
    else []

abbrev pub check_under : Department → Department → Answer (List Department) → List Problem
check_under department parent (fail e) = internal e ∷ []
check_under department parent (reply departments) =
    check_tree department (tree_with department parent departments)

abbrev pub check_parent : Validator → Department → Problem ⊎ Department → List Problem
check_parent v department (inl p) = p ∷ []
check_parent v department (inr parent) =
    if parent.being_deleted
    then deleted_parent department.parent ∷ []
    else check_under department parent v.list_departments

unfoldable pub validate_department_parent : Validator → Department → List Problem
validate_department_parent v department =
    if department.parent == ""
    then []
    else check_parent v department (get_parent_department v department.parent)

abbrev pub has_new_parent : Department → Option Department → Bool
has_new_parent department none = true
has_new_parent department (some old) = old.parent != department.parent

unfoldable pub validate_department : Validator → Department → Option Department → List Problem
validate_department v department old =
    validate_queue_node_pools_exist v department.queues
    ++ (if has_new_parent department old then validate_department_parent v department else [])

unfoldable pub validate_default_node_pools_have_queues :
    List String → List QueueConfig → List Problem
validate_default_node_pools_have_queues [] queues = []
validate_default_node_pools_have_queues (nodepool ∷ defaults) queues =
    let rest = validate_default_node_pools_have_queues defaults queues in
    if contains (map (λ q. q.nodepool) queues) nodepool
    then rest
    else default_without_queue nodepool ∷ rest

unfoldable pub validate_project : Validator → Project → List Problem
validate_project v project =
    validate_parent v project.parent
    ++ (validate_queue_node_pools_exist v project.queues
        ++ validate_default_node_pools_have_queues project.default_node_pools project.queues)

abbrev pub in_krm_group : Validator → OwnerReference → Bool
in_krm_group v owner = elim (v.group_of owner.api_version) [
  | none ↦ false
  | some group ↦ group == v.krm_group
]

abbrev pub is_project_or_department_owned : Validator → Queue → Bool
is_project_or_department_owned v queue =
    any (λ o. (o.kind == "Project" || o.kind == "Department") && in_krm_group v o)
      queue.owner_references

abbrev pub keeps_parent : Queue → Option Queue → Bool
keeps_parent queue none = false
keeps_parent queue (some old) = old.spec.parent_queue == queue.spec.parent_queue

abbrev pub check_parent_queue : Validator → Queue → Answer Queue → List Problem
check_parent_queue v queue (fail e) = if is_not_found e then [] else internal e ∷ []
check_parent_queue v queue (reply parent) =
    if is_project_or_department_owned v parent
    then managed_parent queue.name queue.spec.parent_queue ∷ []
    else []

unfoldable pub validate_queue : Validator → Queue → Option Queue → List Problem
validate_queue v queue old =
    if keeps_parent queue old
    then []
    else if queue.spec.parent_queue == ""
    then []
    else if is_project_or_department_owned v queue
    then []
    else check_parent_queue v queue (v.get_queue queue.spec.parent_queue)

-- A request by its kind: the decoded object and, on an update, the old one; none where decoding fails.
pub data AdmissionRequest : Type 0 where
  of_project : Option Project → AdmissionRequest
  of_department : Option Department → Option (Option Department) → AdmissionRequest
  of_queue : Option Queue → Option (Option Queue) → AdmissionRequest
  of_other : AdmissionRequest

pub data AdmissionResponse : Type 0 where
  allowed bad_request : AdmissionResponse
  retryable denied : List Problem → AdmissionResponse

abbrev pub is_internal : Problem → Bool
is_internal (internal e) = true
is_internal _ = false

unfoldable pub to_admission_response : List Problem → AdmissionResponse
to_admission_response [] = allowed
to_admission_response (p ∷ ps) =
    if any is_internal (p ∷ ps) then retryable (p ∷ ps) else denied (p ∷ ps)

-- `old` is absent on a creation; a present one that cannot be decoded is an error.
unfoldable pub handle : Validator → AdmissionRequest → AdmissionResponse
handle v (of_project (some project)) = to_admission_response (validate_project v project)
handle v (of_department (some department) none) =
    to_admission_response (validate_department v department none)
handle v (of_department (some department) (some (some old))) =
    to_admission_response (validate_department v department (some old))
handle v (of_queue (some queue) none) = to_admission_response (validate_queue v queue none)
handle v (of_queue (some queue) (some (some old))) =
    to_admission_response (validate_queue v queue (some old))
handle v _ = bad_request
