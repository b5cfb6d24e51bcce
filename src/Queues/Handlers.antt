-- ===== src/Queues/Handlers.antt =====
-- The handlers of a project's and of a department's queues: queue_resource_handler.go and
-- departments_handler.go. A handler ends with the list of its errors, empty where it succeeds.
use kai_resource_management.Prelude.{
  ◌==◌, if◌then◌else◌, find?, Err, Result, ok, err, panic, is_not_found, String, Bool, true, false,
  ◌||◌, List, [], ◌∷◌,
}
use kai_resource_management.Objects.{Queue, QueueConfig, Project, Department}
use kai_resource_management.Effects.{◌>>=◌, ◌>>◌, give, attempt}
use kai_resource_management.Queues.{QueuesConfig, loop_event, Server, Step}
use kai_resource_management.Queues.Specs.{
  is_owned_by_uid, are_queues_equal, is_manually_overridden, build_project_queue,
  build_department_queue,
}
use kai_resource_management.Queues.Steps.{
  create, update_existing_queue, list_queues_for_nodepool, department_queue_name,
  delete_unnecessary_queues, or_not_found, get_existing_queue_of_resource,
  generate_queue_name_for_resource, would_close_queue_loop,
}

-- The queue under its final name, which is its display name too for a project.
abbrev pub renamed : Queue → String → Queue
renamed queue name = record queue { name = name }

abbrev pub displayed : Queue → String → Queue
displayed queue name = record queue {
  name = name;
  spec = record queue.spec { display_name = name };
}

abbrev pub with_parent : Queue → String → Queue
with_parent queue parent = record queue { spec = record queue.spec { parent_queue = parent } }

module _ (cfg : QueuesConfig) (server : Server) where
  unfoldable pub handle_existing_of_project : (expected existing : Queue) → String → Step (Unit {0})
  handle_existing_of_project expected existing uid =
      if are_queues_equal expected existing
      then give (ok tt)
      else if is_manually_overridden cfg existing
      then give (ok tt)
      else update_existing_queue cfg server expected existing uid

  abbrev pub create_for_project : Queue → Project → Step String
  create_for_project queue project = do
    name ← generate_queue_name_for_resource cfg server project.name "" queue.name project.uid
    create cfg server (displayed queue name)
    give (ok name)

  abbrev pub update_for_project : Queue → Project → Queue → Step String
  update_for_project queue project existing = do
    handle_existing_of_project (displayed queue existing.name) existing project.uid
    give (ok existing.name)

  abbrev pub place_for_project : Queue → Project → Result Queue → Step String
  place_for_project queue project (ok existing) = update_for_project queue project existing
  place_for_project queue project panic = give panic
  place_for_project queue project (err e) =
      if is_not_found e then create_for_project queue project else give (err e)

  -- The name of the queue that the spec's queue ended up as.
  unfoldable pub reconcile_project_queue : Queue → Project → String → Step String
  reconcile_project_queue queue project nodepool = do
    found ←
        attempt (
          get_existing_queue_of_resource cfg server nodepool project.name "" queue.name project.uid)
    place_for_project queue project found

  abbrev pub handle_project_queue : Project → QueueConfig → Step String
  handle_project_queue project config = do
    parent ← department_queue_name cfg server project.parent config.nodepool
    reconcile_project_queue (build_project_queue cfg config project parent) project config.nodepool

  -- The names reconciled and the errors, one of them for each queue of the spec.
  abbrev pub gathered : Result String → List String × List Err → List String × List Err
  gathered (ok name) (names, errors) = (name ∷ names, errors)
  gathered (err e) (names, errors) = (names, e ∷ errors)
  gathered panic (names, errors) = (names, errors)

  unfoldable pub handle_project_queues : Project → List QueueConfig → Step (List String × List Err)
  handle_project_queues project [] = give (ok ([], []))
  handle_project_queues project (config ∷ configs) = do
    done ← attempt (handle_project_queue project config)
    others ← handle_project_queues project configs
    give (ok (gathered done others))

  -- No queue is deleted after an error.
  abbrev pub delete_after : (uid key value kind : String) → List String × List Err → Step (List Err)
  delete_after uid key value kind (names, []) =
      delete_unnecessary_queues cfg server names uid key value kind
  delete_after uid key value kind (names, e ∷ errors) = give (ok (e ∷ errors))

  unfoldable pub handle_project : Project → Step (List Err)
  handle_project project = do
    reconciled ← handle_project_queues project project.queues
    delete_after project.uid cfg.project_label_key project.name "Project" reconciled

  unfoldable pub handle_existing_of_department :
      (expected existing : Queue) → String → Step (Unit {0})
  handle_existing_of_department expected existing uid =
      if are_queues_equal expected existing
      then give (ok tt)
      else update_existing_queue cfg server expected existing uid

  unfoldable pub get_existing_queue_of_department : Department → String → Step Queue
  get_existing_queue_of_department department nodepool = do
    queues ← list_queues_for_nodepool cfg server nodepool
    give (
        or_not_found cfg server
          (find? (λ q. is_owned_by_uid q.owner_references department.uid) queues))

  abbrev pub hold : Queue → Bool → Step (Queue × Bool)
  hold queue false s = (ok (queue, false), s)
  hold queue true s = (
    ok (with_parent queue "", true),
    record s { changes = loop_event queue.name queue.spec.parent_queue ∷ s.changes },
  )

  -- The queue, a root queue now where its new parent would close a loop, and whether it was held.
  unfoldable pub hold_as_root_on_loop : Queue → String → Step (Queue × Bool)
  hold_as_root_on_loop queue current_parent =
      let parent = queue.spec.parent_queue in
      if parent == "" || parent == current_parent
      then give (ok (queue, false))
      else (do loop ← would_close_queue_loop cfg server queue.name parent; hold queue loop)

  abbrev pub create_for_department : Queue → Department → Step (String × Bool)
  create_for_department queue department = do
    name ← generate_queue_name_for_resource cfg server "" department.name queue.name department.uid
    (placed, held) ← hold_as_root_on_loop (renamed queue name) ""
    create cfg server placed
    give (ok (name, held))

  abbrev pub update_for_department : Queue → Department → Queue → Step (String × Bool)
  update_for_department queue department existing = do
    (placed, held) ← hold_as_root_on_loop (renamed queue existing.name) existing.spec.parent_queue
    handle_existing_of_department placed existing department.uid
    give (ok (existing.name, held))

  abbrev pub place_for_department : Queue → Department → Result Queue → Step (String × Bool)
  place_for_department queue department (ok existing) =
      update_for_department queue department existing
  place_for_department queue department panic = give panic
  place_for_department queue department (err e) =
      if is_not_found e then create_for_department queue department else give (err e)

  unfoldable pub reconcile_department_queue : Queue → Department → String → Step (String × Bool)
  reconcile_department_queue queue department nodepool = do
    found ← attempt (get_existing_queue_of_department department nodepool)
    place_for_department queue department found

  abbrev pub handle_department_queue : Department → QueueConfig → Step (String × Bool)
  handle_department_queue department config = do
    parent ← department_queue_name cfg server department.parent config.nodepool
    reconcile_department_queue (build_department_queue cfg config department parent) department
        config.nodepool

  abbrev pub gathered_held :
      Result (String × Bool) → Bool × (List String × List Err) → Bool × (List String × List Err)
  gathered_held (ok (name, held)) (others, (names, errors)) =
      (held || others, (name ∷ names, errors))
  gathered_held (err e) (others, (names, errors)) = (others, (names, e ∷ errors))
  gathered_held panic rest = rest

  unfoldable pub handle_department_queues :
      Department → List QueueConfig → Step (Bool × (List String × List Err))
  handle_department_queues department [] = give (ok (false, ([], [])))
  handle_department_queues department (config ∷ configs) = do
    done ← attempt (handle_department_queue department config)
    others ← handle_department_queues department configs
    give (ok (gathered_held done others))

  -- Whether a queue is held as a root queue, and the errors.
  unfoldable pub handle_department : Department → Step (Bool × List Err)
  handle_department department = do
    (held, reconciled) ← handle_department_queues department department.queues
    errors ←
        delete_after department.uid cfg.queue_department_name_label_key department.name "Department"
          reconciled
    give (ok (held, errors))
