-- ===== src/Queues/Tests.antt =====
-- Runs of the handlers of queues on small inputs.
use kai_resource_management.Prelude.{
  ◌==◌, if◌then◌else◌, Bool-cases, eq_of_true, here, there, lookup, not_found, ok, IsSafe, ℕ, zero,
  suc, ◌≤◌, String, ◌≡◌, refl, sym, inl, inr, Bool, true, false, none, some, [], ◌∷◌, arith,
}
use kai_resource_management.Objects.{Queue, QueueConfig, Project, Department, Answer, reply, fail}
use kai_resource_management.Effects.Rules.{Ends}
use kai_resource_management.Queues.{QueuesConfig, History, Server}
use kai_resource_management.Queues.Specs.{update_existing_queue_with_expected_values, owner_of}
use kai_resource_management.Queues.Steps.{
  is_queue_taken_by_other_resource, generate_queue_name_for_resource, close_from,
  would_close_queue_loop,
}
use kai_resource_management.Queues.Handlers.{
  handle_existing_of_project, handle_project, handle_existing_of_department, hold_as_root_on_loop,
  handle_department,
}
use kai_resource_management.Queues.Allowed.{AllOurs}
use kai_resource_management.Queues.Loops.{Tells, ListsAll, would_close_queue_loop_lem}
use kai_resource_management.Queues.Departments.{held_IsPlaced, IsPlaced, handle_department_keeps}
use kai_resource_management.Queues.Projects.{handle_project_keeps}
use kai_resource_management.Queues.Collision.{project_collides}
use kai_resource_management.Queues.Settled.{updated_settles}
use kai_resource_management.Queues.Names.{generated-Fits}
use Prim.Native.String
use text.Mathlib.TextPositions.{len-append}

abbrev cfg : QueuesConfig
cfg = record {
  default_nodepool_name = "default";
  node_pool_label_key = "kai/node-pool";
  project_label_key = "project";
  project_id_label_key = "project-id";
  queue_department_name_label_key = "department";
  resource_manual_override_label_key = "override";
  group_version = "kai/v1alpha1";
  allow_external_queues = true;
}

-- Queue "b" lies under queue "a".
abbrev queue : String → String → Queue
queue name parent = record {
  name = name;
  labels = [];
  owner_references = owner_of cfg "Department" name name ∷ [];
  spec = record { display_name = name; parent_queue = parent; resources = none; priority = none };
}

abbrev get : String → Answer Queue
get name =
    if name == "a"
    then reply (queue "a" "")
    else if name == "b"
    then reply (queue "b" "a")
    else fail not_found

unfoldable text_of : ℕ → String
text_of zero = ""
text_of (suc n) = String.◌++◌ "x" (text_of n)

text_of_lem : (n : ℕ) → String.len (text_of n) ≡ n
unfolding text_of
text_of_lem zero = refl
text_of_lem (suc n) =
    let whole = len-append "x" (text_of n) in let rest = text_of_lem n in omega arith

abbrev server : Server
server = record {
  get_queue = λ s name. get name;
  get_queue_live = λ s name. get name;
  queue_names = λ s. "a" ∷ "b" ∷ [];
  get_department = λ s name. fail not_found;
  list_queues = λ s r. reply (queue "a" "" ∷ []);
  new_requirement = λ r. reply r;
  perform = λ s change. reply tt;
  random = λ draw length. text_of length;
}

get-ListsAll : ListsAll server
get-ListsAll s n q e = elim (Bool-cases (n == "a")) [
  | inl p ↦ here (sym (eq_of_true p))
  | inr p ↦ elim (Bool-cases (n == "b")) [
    | inl p' ↦ there (here (sym (eq_of_true p')))
    | inr p' ↦ absurd (ground arith)
  ]
]

abbrev start : History
start = record { changes = []; draws = 0 }

abbrev config : QueueConfig
config = record { name = ""; nodepool = "gpu"; resources = none; priority = none }

abbrev project : Project
project = record {
  name = "p";
  uid = "1";
  parent = "d";
  queues = config ∷ [];
  default_node_pools = [];
}

abbrev department : Department
department = record {
  name = "d";
  uid = "2";
  parent = "";
  queues = config ∷ [];
  being_deleted = false;
}

handle_project_keeps_example :
    Ends (AllOurs cfg "1" "Project") (λ _. Unit) (handle_project cfg server project start)
handle_project_keeps_example = handle_project_keeps cfg server project start tt

handle_department_keeps_example :
    Ends (AllOurs cfg "2" "Department") (λ _. Unit) (handle_department cfg server department start)
handle_department_keeps_example =
    handle_department_keeps cfg server get-ListsAll department start tt

would_close_queue_loop_lem_example :
    IsSafe (would_close_queue_loop cfg server "a" "b" start).0
    × ((b : Bool)
        → (would_close_queue_loop cfg server "a" "b" start).0 ≡ ok b
        → Tells cfg server get "a" "b" b)
would_close_queue_loop_lem_example =
    would_close_queue_loop_lem cfg server "a" "b" start get-ListsAll (λ e. cc)

held_IsPlaced_example : IsPlaced cfg server start "" (queue "a" "")
unfolding hold_as_root_on_loop would_close_queue_loop close_from
held_IsPlaced_example =
    held_IsPlaced cfg server (queue "a" "b") "" start (queue "a" "") true get-ListsAll (λ e. cc)
      refl

generated-Fits_example :
    (generated : String) × ((generate_queue_name_for_resource cfg server "p" "" "a" "1" start).0
      ≡ ok generated)
    × (String.len generated ≤ 63)
generated-Fits_example =
    generated-Fits cfg server (λ draw length. text_of_lem length) "p" "" "a" "1" start

abbrev strict_cfg : QueuesConfig
strict_cfg = record cfg { allow_external_queues = false }

abbrev labelled_queue : Queue
labelled_queue = record (queue "a" "") { labels = ("department", "a") ∷ [] }

abbrev taken_server : Server
taken_server = record server { get_queue = λ s name. reply labelled_queue }

project_collides_example :
    ((generate_queue_name_for_resource strict_cfg taken_server "a" "" "a" "1" start).0 ≡ ok "a")
    × ((is_queue_taken_by_other_resource strict_cfg taken_server "" "a" "a" "1" start).0
        ≡ ok (true, some labelled_queue))
unfolding lookup
project_collides_example =
    project_collides strict_cfg taken_server "a" "a" "1" start labelled_queue (λ e. cc)
      (omega arith) refl refl refl refl refl

updated_settles_example :
    let updated = update_existing_queue_with_expected_values (queue "a" "b") (queue "a" "") in
    (handle_existing_of_project cfg server (queue "a" "b") updated "1" start ≡ (ok tt, start))
    × (handle_existing_of_department cfg server (queue "a" "b") updated "1" start ≡ (ok tt, start))
updated_settles_example = updated_settles cfg server (queue "a" "b") (queue "a" "") "1" start refl
