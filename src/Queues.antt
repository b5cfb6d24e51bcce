-- ===== src/Queues.antt =====
-- The queues of projects and departments: pkg/project-controller/handlers (queue_utils.go,
-- queue_resource_handler.go, departments_handler.go). The handlers read the API server and change
-- it; every answer is a parameter, which may depend on the changes made before.
pub mod Specs
pub mod Steps
pub mod Handlers
pub mod Allowed
pub mod Reading
pub mod Projects
pub mod Loops
pub mod Departments
pub mod Names
pub mod Collision
pub mod Settled
mod Tests
use kai_resource_management.Prelude.{length, ok, ℕ, suc, String, Bool, List, ◌∷◌}
use kai_resource_management.Objects.{Queue, Department, Requirement, Answer, lift}
use kai_resource_management.Effects.{Effect}

pub record QueuesConfig : Type 0 where
  pub default_nodepool_name : String
  pub node_pool_label_key : String
  pub project_label_key : String
  pub project_id_label_key : String
  pub queue_department_name_label_key : String
  pub resource_manual_override_label_key : String
  pub group_version : String
  pub allow_external_queues : Bool

-- What the handlers send: `loop_event` is the event that a queue stays a root queue.
pub data Change : Type 0 where
  create_queue : Queue → Change
  update_queue : (existing updated : Queue) → Change
  delete_queue : Queue → Change
  loop_event : (queue parent : String) → Change

-- The changes sent so far, the latest first, and how many random texts were drawn.
pub record History : Type 0 where
  pub changes : List Change
  pub draws : ℕ

-- The API server, as the changes so far have left it, and rand.String by the number of the draw and
-- the length. `get_queue_live` reads past the cache; `queue_names` are the queues that exist.
pub record Server : Type 0 where
  pub get_queue : History → String → Answer Queue
  pub get_queue_live : History → String → Answer Queue
  pub queue_names : History → List String
  pub get_department : History → String → Answer Department
  pub list_queues : History → List Requirement → Answer (List Queue)
  pub new_requirement : Requirement → Answer Requirement
  pub perform : History → Change → Answer (Unit {0})
  pub random : (draw length : ℕ) → String

abbrev pub Step {ℓ} : Type ℓ → Type ℓ
Step A = Effect History A

abbrev pub ask : {A : Type 0} → (History → Answer A) → Step A
ask question s = (lift (question s), s)

-- The answer itself, where the code goes on after an error.
abbrev pub try_ask : {A : Type 0} → (History → Answer A) → Step (Answer A)
try_ask question s = (ok (question s), s)

abbrev pub send_change : Server → Change → Step (Unit {0})
send_change server change s =
    (lift (server.perform s change), record s { changes = change ∷ s.changes })

abbrev pub draw_text : Server → ℕ → Step String
draw_text server length s = (ok (server.random s.draws length), record s { draws = suc s.draws })
