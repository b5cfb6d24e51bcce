-- ===== src/Queues/Steps.antt =====
-- The steps that the handlers share (queue_utils.go): lookups, names, changes and deletions.
use Prim.Native.String
use kai_resource_management.Prelude.{
  ltb, ◌==◌, ◌!=◌, if◌then◌else◌, length, find?, contains, get_or_empty, Err, not_found, invalid,
  Result, ok, err, panic, is_not_found, is_already_exists, ℕ, zero, suc, min, String, Bool, true,
  false, not, ◌&&◌, ◌||◌, Option, none, some, List, [], ◌∷◌, ◌++◌,
}
use kai_resource_management.Objects.{
  Queue, QueueConfig, Department, Requirement, equals, does_not_exist, Answer, reply, fail, lift,
}
use kai_resource_management.Prelude.Outcome.{◌>>=◌ as bind}
use kai_resource_management.Effects.{◌>>=◌, give, attempt}
use kai_resource_management.Queues.{
  QueuesConfig, create_queue, update_queue, delete_queue, Server, Step, ask, try_ask, send_change,
  draw_text,
}
use kai_resource_management.Queues.Specs.{
  hyphened, get_queue_name, is_owned_by_uid, is_owned_by_kind, is_external_queue,
  update_existing_queue_with_expected_values,
}

abbrev pub max_name_len : ℕ
max_name_len = 58

abbrev pub max_name_len_with_long_suffix : ℕ
max_name_len_with_long_suffix = 42

module _ (cfg : QueuesConfig) (server : Server) where
  -- A queue of that name which exists already is no error.
  abbrev pub unless_exists : Result (Unit {0}) → Result (Unit {0})
  unless_exists (ok u) = ok tt
  unless_exists (err e) = if is_already_exists e then ok tt else err e
  unless_exists panic = panic

  unfoldable pub create : Queue → Step (Unit {0})
  create queue = do
    created ← attempt (send_change server (create_queue queue))
    give (unless_exists created)

  unfoldable pub update_existing_queue : (expected existing : Queue) → String → Step (Unit {0})
  update_existing_queue expected existing uid =
      if is_external_queue cfg existing uid
      then give (ok tt)
      else send_change server
          (update_queue existing (update_existing_queue_with_expected_values expected existing))

  unfoldable pub remove_queue : Queue → String → Step (Unit {0})
  remove_queue queue uid =
      if is_external_queue cfg queue uid
      then give (ok tt)
      else send_change server (delete_queue queue)

  abbrev pub node_pool_selector : String → Requirement
  node_pool_selector nodepool =
      if nodepool == cfg.default_nodepool_name
      then does_not_exist cfg.node_pool_label_key
      else equals cfg.node_pool_label_key nodepool

  unfoldable pub list_queues_for_nodepool : String → Step (List Queue)
  list_queues_for_nodepool nodepool = do
    requirement ← give (lift (server.new_requirement (node_pool_selector nodepool)))
    ask (λ s. server.list_queues s (requirement ∷ []))

  abbrev pub name_of_owned : String → List Queue → String
  name_of_owned uid queues = elim (find? (λ q. is_owned_by_uid q.owner_references uid) queues) [
    | none ↦ ""
    | some queue ↦ queue.name
  ]

  unfoldable pub department_queue_by_owner : Department → String → Step String
  department_queue_by_owner department nodepool = do
    queues ← list_queues_for_nodepool nodepool
    give (ok (name_of_owned department.uid queues))

  abbrev pub by_owner_unless_unnamed : Department → String → String → Step String
  by_owner_unless_unnamed department candidate nodepool =
      if candidate == "" then give (ok "") else department_queue_by_owner department nodepool

  -- The spec's queue by its name, and else by its owner.
  abbrev pub department_queue_of : Department → String → Answer Queue → String → Step String
  department_queue_of department candidate (reply queue) nodepool =
      if is_owned_by_uid queue.owner_references department.uid
      then give (ok candidate)
      else by_owner_unless_unnamed department candidate nodepool
  department_queue_of department candidate (fail e) nodepool =
      if is_not_found e then by_owner_unless_unnamed department candidate nodepool else give (err e)

  abbrev pub department_candidate : Department → String → Option QueueConfig → Step String
  department_candidate department nodepool none = give (ok "")
  department_candidate department nodepool (some queue) = do
    let candidate = get_queue_name cfg queue department.name
    found ← try_ask (λ s. server.get_queue s candidate)
    department_queue_of department candidate found nodepool

  abbrev pub found_department : String → Answer Department → Step String
  found_department nodepool (fail e) = if is_not_found e then give (ok "") else give (err e)
  found_department nodepool (reply department) =
      department_candidate department nodepool
        (find? (λ q. q.nodepool == nodepool) department.queues)

  unfoldable pub department_queue_name : String → String → Step String
  department_queue_name name nodepool =
      if name == ""
      then give (ok "")
      else (do found ← try_ask (λ s. server.get_department s name); found_department nodepool found)

  abbrev pub removable : List String → String → Queue → Bool
  removable reconciled kind queue =
      is_owned_by_kind queue.owner_references kind && not (contains reconciled queue.name)

  abbrev pub with_error : Result (Unit {0}) → List Err → List Err
  with_error (ok u) errors = errors
  with_error (err e) errors = e ∷ errors
  with_error panic errors = errors

  -- One round of the loop over the queues, and the rounds that follow.
  abbrev pub remove_round :
      List String → (uid kind : String) → Queue → Step (List Err) → Step (List Err)
  remove_round reconciled uid kind queue rest =
      if not (removable reconciled kind queue) then rest else (do
        removed ← attempt (remove_queue queue uid)
        errors ← rest
        give (ok (with_error removed errors)))

  -- The errors are gathered, the first one first.
  unfoldable pub remove_each : List String → String → String → List Queue → Step (List Err)
  remove_each reconciled uid kind [] = give (ok [])
  remove_each reconciled uid kind (queue ∷ queues) =
      remove_round reconciled uid kind queue (remove_each reconciled uid kind queues)

  abbrev pub remove_listed : List String → String → String → Answer (List Queue) → Step (List Err)
  remove_listed reconciled uid kind (reply queues) = remove_each reconciled uid kind queues
  remove_listed reconciled uid kind (fail e) = give (ok (e ∷ []))

  unfoldable pub delete_unnecessary_queues :
      List String → (uid key value kind : String) → Step (List Err)
  delete_unnecessary_queues reconciled uid key value kind = do
    queues ← try_ask (λ s. server.list_queues s (equals key value ∷ []))
    remove_listed reconciled uid kind queues

  abbrev pub is_claimed : Queue → String → String → String → Bool
  is_claimed queue kind key name =
      name != ""
      && is_owned_by_kind queue.owner_references kind
      && name == get_or_empty key queue.labels

  -- Whether another resource has the queue, and the queue where it exists.
  unfoldable pub is_queue_taken :
      (department project uid : String) → Answer Queue → Bool × Option Queue
  is_queue_taken department project uid (fail e) = (false, none)
  is_queue_taken department project uid (reply queue) =
      if is_external_queue cfg queue uid
      then (true, some queue)
      else if is_claimed queue "Department" cfg.queue_department_name_label_key department
      then (false, some queue)
      else if is_claimed queue "Project" cfg.project_label_key project
      then (false, some queue)
      else (
        is_owned_by_kind queue.owner_references "Department"
            || is_owned_by_kind queue.owner_references "Project",
        some queue,
      )

  unfoldable pub is_queue_taken_by_other_resource :
      (department project name uid : String) → Step (Bool × Option Queue)
  is_queue_taken_by_other_resource department project name uid = do
    found ← try_ask (λ s. server.get_queue s name)
    give (ok (is_queue_taken department project uid found))

  -- `addRequirement`: no requirement for an empty value.
  abbrev pub add_requirement : String → String → List Requirement → Result (List Requirement)
  add_requirement key value requirements =
      if value == ""
      then ok requirements
      else bind (lift (server.new_requirement (equals key value)))
          (λ r. ok (requirements ++ r ∷ []))

  unfoldable pub create_requirements_for_queues_list :
      (nodepool project department : String) → Result (List Requirement)
  create_requirements_for_queues_list nodepool project department =
      if project == "" && department == ""
      then err (invalid "wrong params")
      else bind
          (if project != ""
            then add_requirement cfg.project_label_key project []
            else add_requirement cfg.queue_department_name_label_key department [])
          (λ requirements.
            bind (lift (server.new_requirement (node_pool_selector nodepool)))
              (λ r. ok (requirements ++ r ∷ [])))

  abbrev pub owner_kind : String → String
  owner_kind project = if project != "" then "Project" else "Department"

  abbrev pub or_not_found : Option Queue → Result Queue
  or_not_found none = err not_found
  or_not_found (some queue) = ok queue

  unfoldable pub get_existing_queue_by_labels :
      (nodepool project department uid : String) → Step Queue
  get_existing_queue_by_labels nodepool project department uid = do
    requirements ← give (create_requirements_for_queues_list nodepool project department)
    queues ← ask (λ s. server.list_queues s requirements)
    give (
        or_not_found (
          find?
            (λ q.
              is_owned_by_kind q.owner_references (owner_kind project)
              && not (is_external_queue cfg q uid))
            queues))

  abbrev pub untaken : Bool × Option Queue → Result Queue
  untaken (true, queue) = err not_found
  untaken (false, queue) = or_not_found queue

  -- The queue found by its labels, or else the one of the expected name, if nobody else has it.
  abbrev pub or_by_name : (project department name uid : String) → Result Queue → Step Queue
  or_by_name project department name uid (ok queue) = give (ok queue)
  or_by_name project department name uid panic = give panic
  or_by_name project department name uid (err e) =
      if is_not_found e
      then (do
        answer ← is_queue_taken_by_other_resource department project name uid
        give (untaken answer))
      else give (err e)

  unfoldable pub get_existing_queue_of_resource :
      (nodepool project department name uid : String) → Step Queue
  get_existing_queue_of_resource nodepool project department name uid = do
    found ← attempt (get_existing_queue_by_labels nodepool project department uid)
    or_by_name project department name uid found

  abbrev pub suffixed : String → ℕ → ℕ → Step String
  suffixed base trim length = do
    suffix ← draw_text server length
    give (ok (hyphened (String.slice base 0 trim) suffix))

  -- The loop of generateQueueNameForResource, and its way out with the long suffix. The arguments
  -- `project` and `department` go to the parameters of the department and the project, as in the source.
  unfoldable pub try_names :
      (project department base uid : String) → (trim tries : ℕ) → String → Step String
  try_names project department base uid trim zero name =
      suffixed base (min trim max_name_len_with_long_suffix) 20
  try_names project department base uid trim (suc tries) name = do
    (taken, _) ← is_queue_taken_by_other_resource project department name uid
    (if not taken then give (ok name) else (do
      next ← suffixed base trim 4
      try_names project department base uid trim tries next))

  unfoldable pub generate_queue_name_for_resource :
      (project department name uid : String) → Step String
  generate_queue_name_for_resource project department name uid = do
    let trim = min (String.len name) max_name_len
    first ←
        (if ltb max_name_len (String.len name)
          then suffixed name max_name_len 4
          else give (ok name))
    try_names project department name uid trim 10 first

  -- The walk of wouldCloseQueueLoop up the parents from `name`; the round count bounds it.
  unfoldable pub close_from :
      (String → Answer Queue) → String → ℕ → List String → String → Result Bool
  close_from get queue zero seen name = panic
  close_from get queue (suc rounds) seen name =
      let next = λ (parent : String). close_from get queue rounds (name ∷ seen) parent in
      if name == ""
      then ok false
      else if name == queue
      then ok true
      else if contains seen name
      then ok false
      else elim (get name) [
        | reply found ↦ next found.spec.parent_queue
        | fail e ↦ (if is_not_found e then ok false else err e)
      ]

  -- As many rounds as there are queues, one for the last parent, and one for its check.
  unfoldable pub would_close_queue_loop : (queue parent : String) → Step Bool
  would_close_queue_loop queue parent s = (
    close_from (server.get_queue_live s) queue (suc (suc (length (server.queue_names s)))) []
        parent,
    s,
  )
