-- ===== src/Queues/Reading.antt =====
-- The steps that look queues up and find names send nothing.
use kai_resource_management.Prelude.{
  ltb, ◌==◌, if◌then◌else◌, length, find?, Err, Result, ok, err, panic, is_not_found, IsSafe, ℕ,
  zero, suc, min, String, Bool, true, false, not, Option, none, some, [], ◌∷◌, arith,
}
use kai_resource_management.Objects.{Queue, QueueConfig, Department, Answer, reply, fail, lift}
use kai_resource_management.Effects.{give}
use kai_resource_management.Queues.{QueuesConfig, Server, Step, ask, try_ask}
use kai_resource_management.Queues.Specs.{get_queue_name, is_owned_by_uid}
use kai_resource_management.Queues.Steps.{
  max_name_len, max_name_len_with_long_suffix, node_pool_selector, list_queues_for_nodepool,
  name_of_owned, department_queue_by_owner, by_owner_unless_unnamed, department_queue_of,
  department_candidate, found_department, department_queue_name, is_queue_taken,
  is_queue_taken_by_other_resource, create_requirements_for_queues_list, or_not_found,
  get_existing_queue_by_labels, untaken, or_by_name, get_existing_queue_of_resource, suffixed,
  try_names, generate_queue_name_for_resource,
}
use kai_resource_management.Queues.Allowed.{
  Keeps, lift-IsSafe, give-Keeps, then-Keeps, if-Keeps, ask-Keeps, try_ask-Keeps, caught-Keeps,
}
use Prim.Native.String

module _ (cfg : QueuesConfig) (server : Server) (uid kind : String) where
  abbrev Reads : {A : Type 0} → Step A → Type 0
  Reads m = Keeps cfg server uid kind m

  done : {A : Type 0} (a : A) → Reads (give (ok a))
  done a = give-Keeps cfg server uid kind (ok a) tt

  failed : (A : Type 0) (e : Err) → Reads {A = A} (give (err e))
  failed A e = give-Keeps cfg server uid kind {A = A} (err e) tt

  pub list_for_nodepool-Reads :
      (nodepool : String) → Reads (list_queues_for_nodepool cfg server nodepool)
  unfolding list_queues_for_nodepool
  list_for_nodepool-Reads nodepool =
      let r = lift (server.new_requirement (node_pool_selector cfg server nodepool)) in
      then-Keeps cfg server uid kind (give r) _
        (give-Keeps cfg server uid kind r
          (lift-IsSafe cfg server uid kind (server.new_requirement _)))
        (λ requirement.
          ask-Keeps cfg server uid kind (λ s. server.list_queues s (requirement ∷ [])))

  by_owner-Reads :
      (department : Department) (nodepool : String)
      → Reads (department_queue_by_owner cfg server department nodepool)
  unfolding department_queue_by_owner
  by_owner-Reads department nodepool =
      then-Keeps cfg server uid kind (list_queues_for_nodepool cfg server nodepool) _
        (list_for_nodepool-Reads nodepool)
        (λ queues. done (name_of_owned cfg server department.uid queues))

  by_owner_unless-Reads :
      (department : Department) (candidate nodepool : String)
      → Reads (by_owner_unless_unnamed cfg server department candidate nodepool)
  by_owner_unless-Reads department candidate nodepool =
      if-Keeps cfg server uid kind (candidate == "") (give (ok ""))
        (department_queue_by_owner cfg server department nodepool) (done {A = String} "")
        (by_owner-Reads department nodepool)

  queue_of-Reads :
      (department : Department) (candidate : String) (answer : Answer Queue) (nodepool : String)
      → Reads (department_queue_of cfg server department candidate answer nodepool)
  queue_of-Reads department candidate (reply queue) nodepool =
      if-Keeps cfg server uid kind (is_owned_by_uid queue.owner_references department.uid)
        (give (ok candidate)) (by_owner_unless_unnamed cfg server department candidate nodepool)
        (done candidate) (by_owner_unless-Reads department candidate nodepool)
  queue_of-Reads department candidate (fail e) nodepool =
      if-Keeps cfg server uid kind (is_not_found e)
        (by_owner_unless_unnamed cfg server department candidate nodepool) (give (err e))
        (by_owner_unless-Reads department candidate nodepool) (failed String e)

  candidate-Reads :
      (department : Department) (nodepool : String) (found : Option QueueConfig)
      → Reads (department_candidate cfg server department nodepool found)
  candidate-Reads department nodepool none = done {A = String} ""
  candidate-Reads department nodepool (some queue) =
      let candidate = get_queue_name cfg queue department.name in
      then-Keeps cfg server uid kind (try_ask (λ s. server.get_queue s candidate))
        (λ answer. department_queue_of cfg server department candidate answer nodepool)
        (try_ask-Keeps cfg server uid kind (λ s. server.get_queue s candidate))
        (λ answer. queue_of-Reads department candidate answer nodepool)

  found-Reads :
      (nodepool : String) (answer : Answer Department)
      → Reads (found_department cfg server nodepool answer)
  found-Reads nodepool (fail e) =
      if-Keeps cfg server uid kind (is_not_found e) (give (ok "")) (give (err e))
        (done {A = String} "") (failed String e)
  found-Reads nodepool (reply department) =
      candidate-Reads department nodepool (find? (λ q. q.nodepool == nodepool) department.queues)

  pub department_queue_name-Reads :
      (name nodepool : String) → Reads (department_queue_name cfg server name nodepool)
  unfolding department_queue_name
  department_queue_name-Reads name nodepool =
      if-Keeps cfg server uid kind (name == "") (give (ok "")) _ (done {A = String} "") (
        then-Keeps cfg server uid kind (try_ask (λ s. server.get_department s name))
          (λ answer. found_department cfg server nodepool answer)
          (try_ask-Keeps cfg server uid kind (λ s. server.get_department s name))
          (λ answer. found-Reads nodepool answer))

  taken-Reads :
      (department project name owner : String)
      → Reads (is_queue_taken_by_other_resource cfg server department project name owner)
  unfolding is_queue_taken_by_other_resource
  taken-Reads department project name owner =
      then-Keeps cfg server uid kind (try_ask (λ s. server.get_queue s name))
        (λ found. give (ok (is_queue_taken cfg server department project owner found)))
        (try_ask-Keeps cfg server uid kind (λ s. server.get_queue s name))
        (λ found. done (is_queue_taken cfg server department project owner found))

  requirements-IsSafe :
      (nodepool project department : String)
      → IsSafe (create_requirements_for_queues_list cfg server nodepool project department)
  unfolding create_requirements_for_queues_list
  requirements-IsSafe nodepool project department = ground arith

  pub or_not_found-IsSafe : (found : Option Queue) → IsSafe (or_not_found cfg server found)
  or_not_found-IsSafe none = tt
  or_not_found-IsSafe (some queue) = tt

  untaken-IsSafe : (answer : Bool × Option Queue) → IsSafe (untaken cfg server answer)
  untaken-IsSafe (true, queue) = tt
  untaken-IsSafe (false, queue) = or_not_found-IsSafe queue

  by_labels-Reads :
      (nodepool project department owner : String)
      → Reads (get_existing_queue_by_labels cfg server nodepool project department owner)
  unfolding get_existing_queue_by_labels
  by_labels-Reads nodepool project department owner =
      let requirements =
        create_requirements_for_queues_list cfg server nodepool project department in
      then-Keeps cfg server uid kind (give requirements) _
        (give-Keeps cfg server uid kind requirements
          (requirements-IsSafe nodepool project department))
        (λ rs.
          then-Keeps cfg server uid kind (ask (λ s. server.list_queues s rs)) _
            (ask-Keeps cfg server uid kind (λ s. server.list_queues s rs))
            (λ queues.
              give-Keeps cfg server uid kind (or_not_found cfg server _) (or_not_found-IsSafe _)))

  pub existing-Reads :
      (nodepool project department name owner : String)
      → Reads (get_existing_queue_of_resource cfg server nodepool project department name owner)
  unfolding get_existing_queue_of_resource
  existing-Reads nodepool project department name owner =
      caught-Keeps cfg server uid kind
        (get_existing_queue_by_labels cfg server nodepool project department owner)
        (λ found. or_by_name cfg server project department name owner found)
        (by_labels-Reads nodepool project department owner) by_name
    where
      by_name :
          (r : Result Queue)
          → IsSafe r
          → Reads (or_by_name cfg server project department name owner r)
      by_name (ok queue) h = done queue
      by_name panic h = absurd h
      by_name (err e) h =
          if-Keeps cfg server uid kind (is_not_found e) _ (give (err e))
            (then-Keeps cfg server uid kind
              (is_queue_taken_by_other_resource cfg server department project name owner) _
              (taken-Reads department project name owner)
              (λ answer.
                give-Keeps cfg server uid kind (untaken cfg server answer) (untaken-IsSafe answer)))
            (failed Queue e)

  suffixed-Reads : (base : String) (trim length : ℕ) → Reads (suffixed cfg server base trim length)
  suffixed-Reads base trim length s i = (i, tt)

  try_names-Reads :
      (project department base owner : String) (trim tries : ℕ) (name : String)
      → Reads (try_names cfg server project department base owner trim tries name)
  unfolding try_names
  try_names-Reads project department base owner trim zero name =
      suffixed-Reads base (min trim max_name_len_with_long_suffix) 20
  try_names-Reads project department base owner trim (suc tries) name =
      then-Keeps cfg server uid kind
        (is_queue_taken_by_other_resource cfg server project department name owner) _
        (taken-Reads project department name owner)
        (λ (taken, queue). if-Keeps cfg server uid kind (not taken) (give (ok name)) _ (done name) (
          then-Keeps cfg server uid kind (suffixed cfg server base trim 4)
            (λ next. try_names cfg server project department base owner trim tries next)
            (suffixed-Reads base trim 4)
            (λ next. try_names-Reads project department base owner trim tries next)))

  pub generate-Reads :
      (project department name owner : String)
      → Reads (generate_queue_name_for_resource cfg server project department name owner)
  unfolding generate_queue_name_for_resource
  generate-Reads project department name owner =
      let long = ltb max_name_len (String.len name) in
      then-Keeps cfg server uid kind
        (if long then suffixed cfg server name max_name_len 4 else give (ok name))
        (λ first.
          try_names cfg server project department name owner (min (String.len name) max_name_len) 10
            first)
        (if-Keeps cfg server uid kind long (suffixed cfg server name max_name_len 4)
          (give (ok name)) (suffixed-Reads name max_name_len 4) (done name))
        (λ first.
          try_names-Reads project department name owner (min (String.len name) max_name_len) 10
            first)
