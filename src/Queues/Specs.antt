-- ===== src/Queues/Specs.antt =====
-- The queue that a spec asks for, and the tests on a queue that exists: the functions of
-- queue_utils.go, queue_resource_handler.go and departments_handler.go that call nothing.
use Prim.Native.Char.{code}
use Prim.Native.String
use kai_resource_management.Prelude.{
  ℤ, pos, int_eq, leb, nat_eq, ◌==◌, ◌!=◌, if◌then◌else◌, any, all, lookup, insert, get_or_empty, ℕ,
  ◌+◌, String, Bool, true, false, not, ◌&&◌, Option, none, some, List, [], ◌∷◌,
}
use kai_resource_management.Objects.{
  Labels, OwnerReference, QueueResource, QueueResources, QueueSpec, Queue, ResourceConfig,
  ResourcesConfig, QueueConfig, Project, Department,
}
use kai_resource_management.Queues.{QueuesConfig}

abbrev pub hyphened : String → String → String
hyphened a b = String.◌++◌ a (String.◌++◌ "-" b)

unfoldable pub get_queue_name : QueuesConfig → QueueConfig → String → String
get_queue_name cfg queue owner =
    if queue.name != ""
    then queue.name
    else if queue.nodepool == cfg.default_nodepool_name
    then owner
    else hyphened owner queue.nodepool

abbrev pub default_queue_priority : ℤ
default_queue_priority = pos 100

abbrev pub priority_or_default : Option ℤ → ℤ
priority_or_default none = default_queue_priority
priority_or_default (some priority) = priority

abbrev pub zero_resource : ResourceConfig
zero_resource = record { deserved = 0; over_quota_weight = 0; limit = 0 }

abbrev pub resources_or_zero : Option ResourcesConfig → ResourcesConfig
resources_or_zero none = record { gpu = zero_resource; cpu = zero_resource; memory = zero_resource }
resources_or_zero (some resources) = resources

abbrev pub queue_resource : ResourceConfig → QueueResource
queue_resource r = record {
  quota = r.deserved;
  over_quota_weight = r.over_quota_weight;
  limit = r.limit;
}

unfoldable pub populate_queue_spec : Option ResourcesConfig → String → String → Option ℤ → QueueSpec
populate_queue_spec resources display_name parent_queue priority =
    let amounts = resources_or_zero resources in
    record {
      display_name = display_name;
      parent_queue = parent_queue;
      resources = some (record {
        gpu = queue_resource amounts.gpu;
        cpu = queue_resource amounts.cpu;
        memory = queue_resource amounts.memory;
      });
      priority = some (priority_or_default priority);
    }

unfoldable pub add_node_pool_label_if_needed : QueuesConfig → Labels → String → Labels
add_node_pool_label_if_needed cfg labels nodepool =
    if nodepool != cfg.default_nodepool_name
    then insert cfg.node_pool_label_key nodepool labels
    else labels

abbrev pub is_owned_by_uid : List OwnerReference → String → Bool
is_owned_by_uid refs uid = any (λ ref. ref.uid == uid) refs

abbrev pub is_owned_by_kind : List OwnerReference → String → Bool
is_owned_by_kind refs kind = any (λ ref. ref.kind == kind) refs

abbrev pub is_external_queue : QueuesConfig → Queue → String → Bool
is_external_queue cfg queue uid =
    cfg.allow_external_queues && not (is_owned_by_uid queue.owner_references uid)

-- Equality of the parts of a queue, as reflect.DeepEqual decides it.
abbrev pub option_eq {ℓ} : {A : Type ℓ} → (A → A → Bool) → Option A → Option A → Bool
option_eq eq none none = true
option_eq eq (some a) (some b) = eq a b
option_eq eq _ _ = false

abbrev pub list_eq {ℓ} : {A : Type ℓ} → (A → A → Bool) → List A → List A → Bool
list_eq eq [] [] = true
list_eq eq (x ∷ xs) (y ∷ ys) = eq x y && list_eq eq xs ys
list_eq eq _ _ = false

abbrev pub flag_eq : Bool → Bool → Bool
flag_eq true b = b
flag_eq false b = not b

abbrev pub owner_eq : OwnerReference → OwnerReference → Bool
owner_eq a b =
    a.api_version == b.api_version
    && a.kind == b.kind
    && a.name == b.name
    && a.uid == b.uid
    && option_eq flag_eq a.controller b.controller
    && option_eq flag_eq a.block_owner_deletion b.block_owner_deletion

abbrev pub resource_eq : QueueResource → QueueResource → Bool
resource_eq a b =
    nat_eq a.quota b.quota
    && nat_eq a.over_quota_weight b.over_quota_weight
    && nat_eq a.limit b.limit

abbrev pub resources_eq : QueueResources → QueueResources → Bool
resources_eq a b =
    resource_eq a.gpu b.gpu && resource_eq a.cpu b.cpu && resource_eq a.memory b.memory

-- Maps are equal when each finds the other's entries.
abbrev pub has_entries : Labels → Labels → Bool
has_entries labels entries =
    all (λ entry. option_eq (λ a b. a == b) (lookup entry.0 labels) (lookup entry.0 entries))
      entries

abbrev pub labels_eq : Labels → Labels → Bool
labels_eq a b = has_entries a b && has_entries b a

abbrev pub spec_eq : QueueSpec → QueueSpec → Bool
spec_eq a b =
    a.display_name == b.display_name
    && a.parent_queue == b.parent_queue
    && option_eq resources_eq a.resources b.resources
    && option_eq int_eq a.priority b.priority

unfoldable pub are_queues_equal : Queue → Queue → Bool
are_queues_equal left right =
    left.name == right.name
    && labels_eq left.labels right.labels
    && list_eq owner_eq left.owner_references right.owner_references
    && spec_eq left.spec right.spec

abbrev pub update_existing_queue_with_expected_values : Queue → Queue → Queue
update_existing_queue_with_expected_values expected existing = record existing {
  labels = expected.labels;
  owner_references = expected.owner_references;
  spec = expected.spec;
}

-- The ASCII letters of strings.ToLower; no other letter's lower case is one of "true".
abbrev pub lower : ℕ → ℕ
lower n = if leb 65 n && leb n 90 then n + 32 else n

abbrev pub lower_codes : String → List ℕ
lower_codes String.[] = []
lower_codes (String.◌∷◌ c s) = lower (code c) ∷ lower_codes s

abbrev pub is_manually_overridden : QueuesConfig → Queue → Bool
is_manually_overridden cfg queue =
    list_eq nat_eq (lower_codes (get_or_empty cfg.resource_manual_override_label_key queue.labels))
      (116 ∷ 114 ∷ 117 ∷ 101 ∷ [])

abbrev pub owner_of : QueuesConfig → (kind name uid : String) → OwnerReference
owner_of cfg kind name uid = record {
  api_version = cfg.group_version;
  kind = kind;
  name = name;
  uid = uid;
  controller = some true;
  block_owner_deletion = some true;
}

-- The queue of a project, under the department's queue `parent_queue`.
unfoldable pub build_project_queue : QueuesConfig → QueueConfig → Project → String → Queue
unfolding get_queue_name populate_queue_spec add_node_pool_label_if_needed
build_project_queue cfg queue project parent_queue =
    let suggested = get_queue_name cfg queue project.name in
    let labels = insert cfg.queue_department_name_label_key project.parent (
      insert cfg.project_id_label_key project.uid (insert cfg.project_label_key project.name [])) in
    record {
      name = suggested;
      labels = add_node_pool_label_if_needed cfg labels queue.nodepool;
      owner_references = owner_of cfg "Project" project.name project.uid ∷ [];
      spec = populate_queue_spec queue.resources suggested parent_queue queue.priority;
    }

unfoldable pub build_department_queue : QueuesConfig → QueueConfig → Department → String → Queue
unfolding get_queue_name populate_queue_spec add_node_pool_label_if_needed
build_department_queue cfg queue department parent_queue =
    let labels = insert cfg.queue_department_name_label_key department.name [] in
    record {
      name = get_queue_name cfg queue department.name;
      labels = add_node_pool_label_if_needed cfg labels queue.nodepool;
      owner_references = owner_of cfg "Department" department.name department.uid ∷ [];
      spec = populate_queue_spec queue.resources department.name parent_queue queue.priority;
    }
