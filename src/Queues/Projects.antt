-- ===== src/Queues/Projects.antt =====
-- The reconcile of a project's queues changes queues of the project only.
use kai_resource_management.Prelude.{
  Err, Result, ok, err, panic, is_not_found, IsSafe, String, eq_refl, List, [], ◌∷◌, arith,
}
use kai_resource_management.Objects.{Queue, QueueConfig, Project}
use kai_resource_management.Effects.{◌>>=◌, ◌>>◌, give}
use kai_resource_management.Effects.Rules.{Ends}
use kai_resource_management.Queues.{QueuesConfig, History, Server, Step}
use kai_resource_management.Queues.Specs.{
  are_queues_equal, is_manually_overridden, build_project_queue,
}
use kai_resource_management.Queues.Steps.{
  create, update_existing_queue, department_queue_name, get_existing_queue_of_resource,
  generate_queue_name_for_resource,
}
use kai_resource_management.Queues.Handlers.{
  displayed, handle_existing_of_project, create_for_project, update_for_project, place_for_project,
  reconcile_project_queue, handle_project_queue, gathered, handle_project_queues, delete_after,
  handle_project,
}
use kai_resource_management.Queues.Allowed.{
  IsOwned, AllOurs, Keeps, give-Keeps, then-Keeps, if-Keeps, caught-Keeps, create-Keeps,
  update-Keeps, delete_unnecessary-Keeps,
}
use kai_resource_management.Queues.Reading.{
  department_queue_name-Reads, existing-Reads, generate-Reads,
}

module _ (cfg : QueuesConfig) (server : Server) (project : Project) where
  abbrev Ours : {A : Type 0} → Step A → Type 0
  Ours m = Keeps cfg server project.uid "Project" m

  done : {A : Type 0} (a : A) → Ours (give (ok a))
  done a = give-Keeps cfg server project.uid "Project" (ok a) tt

  built-IsOwned :
      (config : QueueConfig) (parent name : String)
      → IsOwned project.uid "Project"
          (displayed (build_project_queue cfg config project parent) name)
  unfolding build_project_queue
  built-IsOwned config parent name = ground (arith, eq_refl project.uid)

  existing-Ours :
      (expected existing : Queue)
      → IsOwned project.uid "Project" expected
      → Ours (handle_existing_of_project cfg server expected existing project.uid)
  unfolding handle_existing_of_project
  existing-Ours expected existing h =
      if-Keeps cfg server project.uid "Project" (are_queues_equal expected existing) (give (ok tt))
        _ (done {A = Unit {0}} tt)
        (if-Keeps cfg server project.uid "Project" (is_manually_overridden cfg existing)
          (give (ok tt)) (update_existing_queue cfg server expected existing project.uid)
          (done {A = Unit {0}} tt)
          (update-Keeps cfg server project.uid "Project" expected existing h))

  module _ (queue : Queue)
      (owned : (name : String) → IsOwned project.uid "Project" (displayed queue name)) where
    create-Ours : Ours (create_for_project cfg server queue project)
    create-Ours =
        then-Keeps cfg server project.uid "Project"
          (generate_queue_name_for_resource cfg server project.name "" queue.name project.uid)
          (λ name. create cfg server (displayed queue name) >> give (ok name))
          (generate-Reads cfg server project.uid "Project" project.name "" queue.name project.uid)
          (λ name.
            then-Keeps cfg server project.uid "Project" (create cfg server (displayed queue name))
              (λ _. give (ok name))
              (create-Keeps cfg server project.uid "Project" (displayed queue name) (owned name))
              (λ _. done name))

    update-Ours : (existing : Queue) → Ours (update_for_project cfg server queue project existing)
    update-Ours existing =
        let expected = displayed queue existing.name in
        then-Keeps cfg server project.uid "Project"
          (handle_existing_of_project cfg server expected existing project.uid)
          (λ _. give (ok existing.name)) (existing-Ours expected existing (owned existing.name))
          (λ _. done existing.name)

    place-Ours : (r : Result Queue) → IsSafe r → Ours (place_for_project cfg server queue project r)
    place-Ours (ok existing) h = update-Ours existing
    place-Ours panic h = absurd h
    place-Ours (err e) h =
        if-Keeps cfg server project.uid "Project" (is_not_found e)
          (create_for_project cfg server queue project) (give (err e)) create-Ours
          (give-Keeps cfg server project.uid "Project" {A = String} (err e) tt)

    reconcile-Ours :
        (nodepool : String) → Ours (reconcile_project_queue cfg server queue project nodepool)
    unfolding reconcile_project_queue
    reconcile-Ours nodepool =
        caught-Keeps cfg server project.uid "Project"
          (get_existing_queue_of_resource cfg server nodepool project.name "" queue.name
            project.uid)
          (λ found. place_for_project cfg server queue project found)
          (existing-Reads cfg server project.uid "Project" nodepool project.name "" queue.name
            project.uid)
          place-Ours

  queue-Ours : (config : QueueConfig) → Ours (handle_project_queue cfg server project config)
  queue-Ours config =
      then-Keeps cfg server project.uid "Project"
        (department_queue_name cfg server project.parent config.nodepool)
        (λ parent.
          reconcile_project_queue cfg server (build_project_queue cfg config project parent) project
            config.nodepool)
        (department_queue_name-Reads cfg server project.uid "Project" project.parent
          config.nodepool)
        (λ parent.
          reconcile-Ours (build_project_queue cfg config project parent)
            (λ name. built-IsOwned config parent name) config.nodepool)

  queues-Ours :
      (configs : List QueueConfig) → Ours (handle_project_queues cfg server project configs)
  unfolding handle_project_queues
  queues-Ours [] = done {A = List String × List Err} ([], [])
  queues-Ours (config ∷ configs) =
      let others = handle_project_queues cfg server project configs in
      caught-Keeps cfg server project.uid "Project" (handle_project_queue cfg server project config)
        (λ done_one. others >>= λ rest. give (ok (gathered cfg server done_one rest)))
        (queue-Ours config)
        (λ done_one _.
          then-Keeps cfg server project.uid "Project" others
            (λ rest. give (ok (gathered cfg server done_one rest))) (queues-Ours configs)
            (λ rest. done (gathered cfg server done_one rest)))

  delete_after-Ours :
      (reconciled : List String × List Err) (key value : String)
      → Ours (delete_after cfg server project.uid key value "Project" reconciled)
  delete_after-Ours (names, []) key value =
      delete_unnecessary-Keeps cfg server project.uid "Project" names key value
  delete_after-Ours (names, e ∷ errors) key value = done (e ∷ errors)

  -- The reconcile of a project's queues does not panic. When all changes sent before were the
  -- project's own, all changes sent after it are: it creates queues with an owner reference to the
  -- project, updates in place only queues that are not external, and deletes only queues that have a
  -- project as owner and are not external.
  pub handle_project_keeps :
      (s : History)
      → AllOurs cfg project.uid "Project" s
      → Ends (AllOurs cfg project.uid "Project") (λ _. Unit) (handle_project cfg server project s)
  unfolding handle_project
  handle_project_keeps =
      then-Keeps cfg server project.uid "Project"
        (handle_project_queues cfg server project project.queues)
        (λ reconciled.
          delete_after cfg server project.uid cfg.project_label_key project.name "Project"
            reconciled)
        (queues-Ours project.queues)
        (λ reconciled. delete_after-Ours reconciled cfg.project_label_key project.name)
