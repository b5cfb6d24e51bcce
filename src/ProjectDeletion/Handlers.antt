-- ===== src/ProjectDeletion/Handlers.antt =====
-- The handlers that change objects when a project is deleted: common_resource_deletion_handler.go and
-- the handlers of limit ranges, namespaces and queues (handlers/deletion).
use kai_resource_management.Prelude.{
  nat_eq, ◌==◌, if◌then◌else◌, get_or_empty, Err, Result, ok, err, panic, is_not_found, ℕ, String,
  Bool, not, ◌&&◌, Option, none, some, List, [], ◌∷◌,
}
use kai_resource_management.Objects.{Labels, Queue, Answer, reply, fail, lift}
use kai_resource_management.Effects.{Effect, ◌>>=◌, give, attempt}
use kai_resource_management.Queues.{QueuesConfig}
use kai_resource_management.Queues.Specs.{
  is_external_queue, list_eq, lower_codes, is_manually_overridden,
}
use kai_resource_management.ProjectDeletion.{
  DeletedProject, OwnedObject, Removal, update_owners, delete_object, delete_project_queue,
  DeletionServer, is_project_owner, delete_owner_ref, kai_project_to_namespace,
}

abbrev pub Removing : Type 0 → Type 0
Removing A = Effect (List Removal) A

-- `IsManuallyOverridden` by an object's labels.
abbrev pub is_overridden : QueuesConfig → Labels → Bool
is_overridden cfg labels =
    list_eq nat_eq (lower_codes (get_or_empty cfg.resource_manual_override_label_key labels))
      (lower_codes "true")

module _ (cfg : QueuesConfig) (server : DeletionServer) where
  abbrev pub send_removal : Removal → Removing (Unit {0})
  send_removal removal sent = (lift (server.perform sent removal), removal ∷ sent)

  abbrev pub unless_gone : Result (Unit {0}) → Result (Unit {0})
  unless_gone (ok u) = ok u
  unless_gone (err e) = if is_not_found e then ok tt else err e
  unless_gone panic = panic

  -- `deleteResource`.
  abbrev pub delete_resource : Removal → Removing (Unit {0})
  delete_resource removal = attempt (send_removal removal) >>= λ r. give (unless_gone r)

  abbrev pub delete_existing_if_needed : OwnedObject → Removing (Unit {0})
  delete_existing_if_needed object =
      if is_overridden cfg object.labels
      then give (ok tt)
      else delete_resource (delete_object object)

  abbrev pub delete_found_if_needed : Answer OwnedObject → Removing (Unit {0})
  delete_found_if_needed (reply object) = delete_existing_if_needed object
  delete_found_if_needed (fail e) = give (if is_not_found e then ok tt else err e)

  unfoldable pub delete_resource_if_needed : (kind namespace name : String) → Removing (Unit {0})
  delete_resource_if_needed kind namespace name sent =
      delete_found_if_needed (server.get_object sent kind namespace name) sent

  abbrev pub remove_owner_at : OwnedObject → Option ℕ → Removing (Unit {0})
  remove_owner_at object none = give (ok tt)
  remove_owner_at object (some i) =
      send_removal (update_owners object (delete_owner_ref object.owner_references i))

  unfoldable pub remove_owner_ref : DeletedProject → OwnedObject → Removing (Unit {0})
  remove_owner_ref project object =
      remove_owner_at object (is_project_owner project object.owner_references)

  -- A namespace that cannot be told is forgiven.
  abbrev pub limit_range_found : DeletedProject → Answer OwnedObject → Removing (Unit {0})
  limit_range_found project (reply object) = remove_owner_ref project object
  limit_range_found project (fail e) = give (if is_not_found e then ok tt else err e)

  abbrev pub limit_range_in : (name : String) → DeletedProject → Result String → Removing (Unit {0})
  limit_range_in name project (ok namespace) sent =
      limit_range_found project (server.get_object sent "LimitRange" namespace name) sent
  limit_range_in name project (err e) sent = (ok tt, sent)
  limit_range_in name project panic sent = (panic, sent)

  unfoldable pub limit_range_on_delete : (name : String) → DeletedProject → Removing (Unit {0})
  limit_range_on_delete name project sent =
      limit_range_in name project (kai_project_to_namespace cfg server sent project) sent

  abbrev pub namespace_found : DeletedProject → Answer OwnedObject → Removing (Unit {0})
  namespace_found project (reply object) = remove_owner_ref project object
  namespace_found project (fail e) = give (err e)

  abbrev pub namespace_in :
      (delete_enabled : Bool) → DeletedProject → Result String → Removing (Unit {0})
  namespace_in delete_enabled project (ok namespace) sent =
      if project.spec_namespace == "" && delete_enabled
      then delete_resource_if_needed "Namespace" "" namespace sent
      else namespace_found project (server.get_object sent "Namespace" "" namespace) sent
  namespace_in delete_enabled project (err e) sent = (err e, sent)
  namespace_in delete_enabled project panic sent = (panic, sent)

  unfoldable pub namespace_on_delete :
      (create_enabled delete_enabled : Bool) → DeletedProject → Removing (Unit {0})
  namespace_on_delete create_enabled delete_enabled project sent =
      if not create_enabled
      then (ok tt, sent)
      else namespace_in delete_enabled project (kai_project_to_namespace cfg server sent project)
          sent

  -- The queues of the project, but those that are not its own or overridden by hand.
  abbrev pub delete_queue_if_needed : DeletedProject → Queue → Removing (Unit {0})
  delete_queue_if_needed project queue =
      if is_external_queue cfg queue project.uid
      then give (ok tt)
      else if is_manually_overridden cfg queue
      then give (ok tt)
      else delete_resource (delete_project_queue queue)

  abbrev pub gather : Result (Unit {0}) → List Err → List Err
  gather (ok _) errors = errors
  gather (err e) errors = e ∷ errors
  gather panic errors = errors

  unfoldable pub delete_queues : DeletedProject → List Queue → Removing (List Err)
  delete_queues project [] = give (ok [])
  delete_queues project (queue ∷ queues) =
      attempt (delete_queue_if_needed project queue) >>= λ deleted.
      delete_queues project queues >>= λ errors. give (ok (gather deleted errors))

  abbrev pub delete_listed_queues : DeletedProject → Answer (List Queue) → Removing (List Err)
  delete_listed_queues project (reply queues) = delete_queues project queues
  delete_listed_queues project (fail e) = give (ok (e ∷ []))

  unfoldable pub queue_on_delete : DeletedProject → Removing (List Err)
  queue_on_delete project sent =
      delete_listed_queues project (server.list_queues sent project.name) sent
