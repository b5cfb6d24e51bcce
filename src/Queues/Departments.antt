-- ===== src/Queues/Departments.antt =====
-- The reconcile of a department's queues: it changes queues of the department only, and it places
-- none of them under itself.
use kai_resource_management.Prelude.{
  ◌==◌, Bool-cases, eq_of_true, Err, Result, ok, err, panic, is_not_found, OnOk, OnOk_apply, IsSafe,
  ℕ, String, eq_refl, ◌≡◌, refl, ◌≢◌, ◌⊎◌, inl, inr, Bool, true, false, ◌||◌, List, [], ◌∷◌, arith,
}
use kai_resource_management.Objects.{Queue, QueueConfig, Department}
use kai_resource_management.Effects.{continue, ◌>>=◌, ◌>>◌, give}
use kai_resource_management.Queues.{QueuesConfig, History, Server, Step}
use kai_resource_management.Queues.Steps.{
  create, update_existing_queue, list_queues_for_nodepool, department_queue_name, or_not_found,
  generate_queue_name_for_resource, would_close_queue_loop,
}
use kai_resource_management.Queues.Handlers.{
  renamed, delete_after, handle_existing_of_department, get_existing_queue_of_department, hold,
  hold_as_root_on_loop, create_for_department, update_for_department, place_for_department,
  reconcile_department_queue, handle_department_queue, gathered_held, handle_department_queues,
  handle_department,
}
use kai_resource_management.Effects.Rules.{Ends, Runs, Runs->>=, Runs-give, Runs-if}
use kai_resource_management.Queues.Specs.{are_queues_equal, build_department_queue}
use kai_resource_management.Queues.Loops.{
  Climbs, Tells, ListsAll, would_close_queue_loop-IsSafe, would_close_queue_loop_lem,
}
use kai_resource_management.Queues.Allowed.{
  IsOwned, AllOurs, Keeps, give-Keeps, then-Keeps, if-Keeps, caught-Keeps, create-Keeps,
  update-Keeps, delete_unnecessary-Keeps,
}
use kai_resource_management.Queues.Reading.{
  list_for_nodepool-Reads, department_queue_name-Reads, or_not_found-IsSafe, generate-Reads,
}

-- Where the queue may stay: it is a root queue, it keeps its parent, or its parent is not under it.
abbrev pub IsPlaced : QueuesConfig → Server → History → (current : String) → Queue → Type 0
IsPlaced cfg server s current queue =
    (queue.spec.parent_queue ≡ "")
    ⊎ ((queue.spec.parent_queue ≡ current)
        ⊎ ((k : ℕ) → ¬ Climbs (server.get_queue_live s) k queue.spec.parent_queue queue.name))

-- A queue with a name that holdAsRootOnLoop lets through, held or not, is a root queue, keeps its
-- current parent, or has a new parent from which no number of parents leads to the queue.
pub held_IsPlaced :
    (cfg : QueuesConfig) (server : Server) (queue : Queue) (current : String) (s : History)
    (placed : Queue) (held : Bool)
    → ListsAll server
    → queue.name ≢ ""
    → (hold_as_root_on_loop cfg server queue current s).0 ≡ ok (placed, held)
    → IsPlaced cfg server s current placed
unfolding hold_as_root_on_loop
held_IsPlaced cfg server queue current s placed held lists some_name h =
    OnOk_apply (λ (r : Queue × Bool). IsPlaced cfg server s current r.0)
      (hold_as_root_on_loop cfg server queue current s).0 outcome h
  where
    of_loop :
        (r : Result Bool) (s' : History)
        → ((b : Bool)
            → r ≡ ok b
            → Tells cfg server (server.get_queue_live s) queue.name queue.spec.parent_queue b)
        → OnOk
            (λ (x : Queue × Bool). IsPlaced cfg server s current x.0)
            (continue r (hold cfg server queue) s').0
    of_loop (ok false) s' tells = inr (inr (tells false refl))
    of_loop (ok true) s' tells = inl refl
    of_loop (err e) s' tells = tt
    of_loop panic s' tells = tt

    outcome :
        OnOk
          (λ (x : Queue × Bool). IsPlaced cfg server s current x.0)
          (hold_as_root_on_loop cfg server queue current s).0
    outcome = elim (Bool-cases (queue.spec.parent_queue == "")) [
      | inl e ↦ rw e (inl (eq_of_true e))
      | inr e ↦ elim (Bool-cases (queue.spec.parent_queue == current)) [
        | inl e' ↦ rw (e, e') (inr (inl (eq_of_true e')))
        | inr e' ↦
            rw (e, e')
              (of_loop (would_close_queue_loop cfg server queue.name queue.spec.parent_queue s).0
                (would_close_queue_loop cfg server queue.name queue.spec.parent_queue s).1
                (would_close_queue_loop_lem cfg server queue.name queue.spec.parent_queue s lists
                  some_name).1)
      ]
    ]

module _ (cfg : QueuesConfig) (server : Server) (lists : ListsAll server)
    (department : Department) where
  abbrev Ours : {A : Type 0} → Step A → Type 0
  Ours m = Keeps cfg server department.uid "Department" m

  done : {A : Type 0} (a : A) → Ours (give (ok a))
  done a = give-Keeps cfg server department.uid "Department" (ok a) tt

  abbrev Inv : History → Type 0
  Inv s = AllOurs cfg department.uid "Department" s

  abbrev OwnedQueue : Queue → Type 0
  OwnedQueue queue = IsOwned department.uid "Department" queue

  abbrev Owned : Queue × Bool → Type 0
  Owned r = OwnedQueue r.0

  hold-Ours :
      (queue : Queue) (b : Bool) → OwnedQueue queue → Runs Inv Owned (hold cfg server queue b)
  hold-Ours queue false h s i = (i, h)
  hold-Ours queue true h s i = ((tt, i), h)

  close-Ours : (queue parent : String) → Ours (would_close_queue_loop cfg server queue parent)
  unfolding would_close_queue_loop
  close-Ours queue parent s i =
      give-Keeps cfg server department.uid "Department"
        (would_close_queue_loop cfg server queue parent s).0
        (would_close_queue_loop-IsSafe cfg server queue parent s lists) s i

  hold_as_root-Ours :
      (queue : Queue) (current : String)
      → OwnedQueue queue
      → Runs Inv Owned (hold_as_root_on_loop cfg server queue current)
  unfolding hold_as_root_on_loop
  hold_as_root-Ours queue current h =
      let parent = queue.spec.parent_queue in
      Runs-if Inv Owned (parent == "" || parent == current) (give (ok (queue, false))) _
        (λ _. Runs-give Inv Owned (ok (queue, false)) tt h)
        (λ _.
          Runs->>= Inv (λ _. Unit) Owned (would_close_queue_loop cfg server queue.name parent)
            (λ loop. hold cfg server queue loop) (close-Ours queue.name parent)
            (λ loop _. hold-Ours queue loop h))

  built-IsOwned :
      (config : QueueConfig) (parent : String)
      → OwnedQueue (build_department_queue cfg config department parent)
  unfolding build_department_queue
  built-IsOwned config parent = ground (arith, eq_refl department.uid)

  existing-Ours :
      (expected existing : Queue)
      → OwnedQueue expected
      → Ours (handle_existing_of_department cfg server expected existing department.uid)
  unfolding handle_existing_of_department
  existing-Ours expected existing h =
      if-Keeps cfg server department.uid "Department" (are_queues_equal expected existing)
        (give (ok tt)) (update_existing_queue cfg server expected existing department.uid)
        (done {A = Unit {0}} tt)
        (update-Keeps cfg server department.uid "Department" expected existing h)

  own-Ours :
      (nodepool : String) → Ours (get_existing_queue_of_department cfg server department nodepool)
  unfolding get_existing_queue_of_department
  own-Ours nodepool =
      then-Keeps cfg server department.uid "Department"
        (list_queues_for_nodepool cfg server nodepool) _
        (list_for_nodepool-Reads cfg server department.uid "Department" nodepool)
        (λ queues.
          give-Keeps cfg server department.uid "Department" (or_not_found cfg server _)
            (or_not_found-IsSafe cfg server department.uid "Department" _))

  module _ (queue : Queue) (owned : OwnedQueue queue) where
    create-Ours : Ours (create_for_department cfg server queue department)
    create-Ours =
        then-Keeps cfg server department.uid "Department"
          (generate_queue_name_for_resource cfg server "" department.name queue.name department.uid)
          (λ name. hold_as_root_on_loop cfg server (renamed queue name) "" >>= λ r.
            create cfg server r.0 >> give (ok (name, r.1)))
          (generate-Reads cfg server department.uid "Department" "" department.name queue.name
            department.uid)
          (λ name.
            Runs->>= Inv Owned (λ _. Unit) (hold_as_root_on_loop cfg server (renamed queue name) "")
              (λ r. create cfg server r.0 >> give (ok (name, r.1)))
              (hold_as_root-Ours (renamed queue name) "" owned)
              (λ r h.
                then-Keeps cfg server department.uid "Department" (create cfg server r.0)
                  (λ _. give (ok (name, r.1)))
                  (create-Keeps cfg server department.uid "Department" r.0 h)
                  (λ _. done {A = String × Bool} (name, r.1))))

    update-Ours :
        (existing : Queue) → Ours (update_for_department cfg server queue department existing)
    update-Ours existing =
        Runs->>= Inv Owned (λ _. Unit)
          (hold_as_root_on_loop cfg server (renamed queue existing.name) existing.spec.parent_queue)
          (λ r.
            handle_existing_of_department cfg server r.0 existing department.uid
            >> give (ok (existing.name, r.1)))
          (hold_as_root-Ours (renamed queue existing.name) existing.spec.parent_queue owned)
          (λ r h.
            then-Keeps cfg server department.uid "Department"
              (handle_existing_of_department cfg server r.0 existing department.uid)
              (λ _. give (ok (existing.name, r.1))) (existing-Ours r.0 existing h)
              (λ _. done {A = String × Bool} (existing.name, r.1)))

    place-Ours :
        (r : Result Queue) → IsSafe r → Ours (place_for_department cfg server queue department r)
    place-Ours (ok existing) h = update-Ours existing
    place-Ours panic h = absurd h
    place-Ours (err e) h =
        if-Keeps cfg server department.uid "Department" (is_not_found e)
          (create_for_department cfg server queue department) (give (err e)) create-Ours
          (give-Keeps cfg server department.uid "Department" {A = String × Bool} (err e) tt)

    reconcile-Ours :
        (nodepool : String) → Ours (reconcile_department_queue cfg server queue department nodepool)
    unfolding reconcile_department_queue
    reconcile-Ours nodepool =
        caught-Keeps cfg server department.uid "Department"
          (get_existing_queue_of_department cfg server department nodepool)
          (λ found. place_for_department cfg server queue department found) (own-Ours nodepool)
          place-Ours

  queue-Ours : (config : QueueConfig) → Ours (handle_department_queue cfg server department config)
  queue-Ours config =
      then-Keeps cfg server department.uid "Department"
        (department_queue_name cfg server department.parent config.nodepool)
        (λ parent.
          reconcile_department_queue cfg server
            (build_department_queue cfg config department parent) department config.nodepool)
        (department_queue_name-Reads cfg server department.uid "Department" department.parent
          config.nodepool)
        (λ parent.
          reconcile-Ours (build_department_queue cfg config department parent)
            (built-IsOwned config parent) config.nodepool)

  queues-Ours :
      (configs : List QueueConfig) → Ours (handle_department_queues cfg server department configs)
  unfolding handle_department_queues
  queues-Ours [] = done {A = Bool × (List String × List Err)} (false, ([], []))
  queues-Ours (config ∷ configs) =
      let others = handle_department_queues cfg server department configs in
      caught-Keeps cfg server department.uid "Department"
        (handle_department_queue cfg server department config)
        (λ done_one. others >>= λ rest. give (ok (gathered_held cfg server done_one rest)))
        (queue-Ours config)
        (λ done_one _.
          then-Keeps cfg server department.uid "Department" others
            (λ rest. give (ok (gathered_held cfg server done_one rest))) (queues-Ours configs)
            (λ rest. done (gathered_held cfg server done_one rest)))

  delete_after-Ours :
      (reconciled : List String × List Err) (key value : String)
      → Ours (delete_after cfg server department.uid key value "Department" reconciled)
  delete_after-Ours (names, []) key value =
      delete_unnecessary-Keeps cfg server department.uid "Department" names key value
  delete_after-Ours (names, e ∷ errors) key value = done (e ∷ errors)

  -- The reconcile of a department's queues does not panic. When all changes sent before were the
  -- department's own, all changes sent after it are: it creates queues with an owner reference to
  -- the department, updates in place only queues that are not external, and deletes only queues
  -- that have a department as owner and are not external: never a queue of a project alone.
  pub handle_department_keeps :
      (s : History)
      → AllOurs cfg department.uid "Department" s
      → Ends
          (AllOurs cfg department.uid "Department")
          (λ _. Unit)
          (handle_department cfg server department s)
  unfolding handle_department
  handle_department_keeps =
      then-Keeps cfg server department.uid "Department"
        (handle_department_queues cfg server department department.queues)
        (λ r.
          delete_after cfg server department.uid cfg.queue_department_name_label_key department.name
            "Department" r.1
          >>= λ errors. give (ok (r.0, errors)))
        (queues-Ours department.queues)
        (λ r.
          then-Keeps cfg server department.uid "Department"
            (delete_after cfg server department.uid cfg.queue_department_name_label_key
              department.name "Department" r.1)
            (λ errors. give (ok (r.0, errors)))
            (delete_after-Ours r.1 cfg.queue_department_name_label_key department.name)
            (λ errors. done {A = Bool × List Err} (r.0, errors)))
