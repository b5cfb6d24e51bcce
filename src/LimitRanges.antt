-- ===== src/LimitRanges.antt =====
-- The limit range of a project's namespace: pkg/project-controller/handlers/limit_range_resource_handler.go.
-- A quantity is a number; what ParseQuantity and an error's text are is a parameter.
pub mod Amounts
mod Tests
use kai_resource_management.Prelude.{
  if◌then◌else◌, lookup, insert, Err, Result, ok, err, panic, is_not_found, ℕ, String, Bool, true,
  false, Option, none, some, List, [], ◌∷◌,
}
use kai_resource_management.Objects.{Labels, OwnerReference, Answer, reply, fail, lift}
use kai_resource_management.Effects.{Effect, ◌>>=◌, ◌>>◌, give, attempt}
use kai_resource_management.Queues.{QueuesConfig}
use kai_resource_management.ProjectDeletion.{
  DeletedProject, DeletionServer, kai_project_to_namespace,
}
use kai_resource_management.ProjectDeletion.Handlers.{is_overridden}
use kai_resource_management.ProjectDeletion.Conditions.{StatusCondition}

abbrev pub Quantities : Type 0
Quantities = List (String × ℕ)

pub record LimitRangeItem : Type 0 where
  pub item_type : String
  pub max : Quantities
  pub default_limit : Quantities
  pub default_request : Quantities

pub record LimitRange : Type 0 where
  pub name : String
  pub namespace : String
  pub labels : Labels
  pub owner_references : List OwnerReference
  pub limits : List LimitRangeItem

pub data Write : Type 0 where
  create_limit_range update_limit_range : LimitRange → Write

abbrev pub Writing : Type 0 → Type 0
Writing A = Effect (List Write) A

-- What the handler reads, after the writes so far.
pub record LimitServer : Type 0 where
  pub get_config_map : List Write → Answer Labels
  pub namespaces : DeletionServer
  pub get_limit_range : List Write → (namespace name : String) → Answer LimitRange
  pub perform : List Write → Write → Answer (Unit {0})
  pub parse_quantity : String → Answer ℕ
  pub error_text : Err → String

abbrev pub container_limits : LimitRangeItem
container_limits = record {
  item_type = "Container";
  max = [];
  default_limit = [];
  default_request = [];
}

abbrev pub reset_limits : LimitRange → LimitRange
reset_limits limit_range = record limit_range { limits = container_limits ∷ [] }

module _ (cfg : QueuesConfig) (limit_range_name : String) (server : LimitServer) where
  abbrev pub build_empty_limit_range : DeletedProject → (namespace : String) → LimitRange
  build_empty_limit_range project namespace = record {
    name = limit_range_name;
    namespace = namespace;
    labels = [];
    owner_references =
        (record {
          api_version = cfg.group_version;
          kind = "Project";
          name = project.name;
          uid = project.uid;
          controller = some true;
          block_owner_deletion = some true;
        })
        ∷ [];
    limits = container_limits ∷ [];
  }

  abbrev pub parsed : Answer ℕ → Option ℕ
  parsed (reply quantity) = some quantity
  parsed (fail e) = none

  -- A field that is missing or cannot be parsed gives no quantity.
  abbrev pub quantity_of : Labels → (field : String) → Option ℕ
  quantity_of limits field = of_text (lookup field limits)
    where
      of_text : Option String → Option ℕ
      of_text none = none
      of_text (some text) = parsed (server.parse_quantity text)

  abbrev pub assigned : Option ℕ → (resource : String) → Quantities → Quantities
  assigned none resource quantities = quantities
  assigned (some quantity) resource quantities = insert resource quantity quantities

  abbrev pub assign_limit_value_to_resource_list :
      Labels → Quantities → (field resource : String) → Quantities
  assign_limit_value_to_resource_list limits quantities field resource =
      assigned (quantity_of limits field) resource quantities

  abbrev pub with_limits : Labels → LimitRangeItem → LimitRangeItem
  with_limits limits item =
      let assign = assign_limit_value_to_resource_list limits in
      record item {
        default_request =
            assign (assign item.default_request "cpuDefaultRequest" "cpu") "memoryDefaultRequest"
              "memory";
        default_limit =
            assign (assign item.default_limit "cpuDefaultLimit" "cpu") "memoryDefaultLimit"
              "memory";
        max = assign (assign item.max "cpuMaxLimit" "cpu") "memoryMaxLimit" "memory";
      }

  -- The first item is changed; a list without one is an index out of range.
  abbrev pub with_first : Labels → List LimitRangeItem → Result (List LimitRangeItem)
  with_first limits [] = panic
  with_first limits (item ∷ items) = ok (with_limits limits item ∷ items)

  abbrev pub with_items : LimitRange → Result (List LimitRangeItem) → Result LimitRange
  with_items limit_range (ok items) = ok (record limit_range { limits = items })
  with_items limit_range (err e) = err e
  with_items limit_range panic = panic

  unfoldable pub populate_limit_range : Labels → LimitRange → Result LimitRange
  populate_limit_range limits limit_range =
      with_items (reset_limits limit_range) (with_first limits (reset_limits limit_range).limits)

  abbrev pub found_limit_range :
      DeletedProject → (namespace : String) → Answer LimitRange → Result (LimitRange × Bool)
  found_limit_range project namespace (reply limit_range) = ok (limit_range, false)
  found_limit_range project namespace (fail e) =
      if is_not_found e then ok (build_empty_limit_range project namespace, true) else err e

  abbrev pub limit_range_of :
      List Write → DeletedProject → Result String → Result (LimitRange × Bool)
  limit_range_of sent project (ok namespace) =
      found_limit_range project namespace (server.get_limit_range sent namespace limit_range_name)
  limit_range_of sent project (err e) = err e
  limit_range_of sent project panic = panic

  -- The limit range, and whether it is to be created.
  abbrev pub get_namespaced_limit_range : DeletedProject → Writing (LimitRange × Bool)
  get_namespaced_limit_range project sent = (
    limit_range_of sent project (kai_project_to_namespace cfg server.namespaces [] project),
    sent,
  )

  abbrev pub write : Write → Writing (Unit {0})
  write request sent = (lift (server.perform sent request), request ∷ sent)

  abbrev pub create_or_update_limit_range : (should_create : Bool) → LimitRange → Writing (Unit {0})
  create_or_update_limit_range should_create limit_range =
      if should_create
      then write (create_limit_range limit_range)
      else write (update_limit_range limit_range)

  abbrev pub handle_limit_range : DeletedProject → Labels → Writing (Unit {0})
  handle_limit_range project limits = get_namespaced_limit_range project >>= λ found.
      if is_overridden cfg found.0.labels
      then give (ok tt)
      else give (populate_limit_range limits found.0) >>= create_or_update_limit_range found.1

  abbrev pub with_config_map : DeletedProject → Answer Labels → Writing (Unit {0})
  with_config_map project (reply limits) = handle_limit_range project limits
  with_config_map project (fail e) = give (if is_not_found e then ok tt else err e)

  unfoldable pub handle_resource_inner : DeletedProject → Writing (Unit {0})
  handle_resource_inner project sent = with_config_map project (server.get_config_map sent) sent

  -- The condition that the project gets, without its times.
  abbrev pub limit_range_condition : Result (Unit {0}) → StatusCondition
  limit_range_condition (err e) = record {
    condition_type = "LimitRangeReady";
    status = "False";
    reason = "LimitRangeHandlerFailed";
    message = server.error_text e;
    last_probe_time = 0;
    last_transition_time = 0;
  }
  limit_range_condition _ = record {
    condition_type = "LimitRangeReady";
    status = "True";
    reason = "";
    message = "";
    last_probe_time = 0;
    last_transition_time = 0;
  }

  unfoldable pub handle_resource :
      DeletedProject → Writing (List StatusCondition × Result (Unit {0}))
  handle_resource project = attempt (handle_resource_inner project) >>= λ done.
      give (ok (limit_range_condition done ∷ [], done))
