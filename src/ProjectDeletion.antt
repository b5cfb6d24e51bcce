-- ===== src/ProjectDeletion.antt =====
-- The handlers of a project's deletion: pkg/project-controller/handlers/deletion, with the conditions of
-- handlers/utils.go. A handler gives the condition that it reports and its error.
pub mod Handlers
pub mod Conditions
pub mod Settling
pub mod Owners
pub mod Blocking
mod Tests
use kai_resource_management.Prelude.{
  ◌==◌, ◌!=◌, if◌then◌else◌, lookup, insert, Err, invalid, Result, ok, err, ◌>>=◌, is_not_found, ℕ,
  zero, suc, ◌+◌, String, Bool, ◌&&◌, ◌||◌, Option, none, some, List, [], ◌∷◌, ◌++◌, map,
}
use kai_resource_management.Objects.{Labels, OwnerReference, Queue, Answer, reply, fail, lift}
use kai_resource_management.Queues.{QueuesConfig}

pub record DeletedProject : Type 0 where
  pub name : String
  pub uid : String
  pub spec_namespace : String
  pub status_namespace : String

-- A kind of object that blocks the deletion; the selector is named by a text, where there is one.
pub record Blocker : Type 0 where
  pub display_name : String
  pub group : String
  pub version : String
  pub kind : String
  pub label_selector : Option String

pub record BlockerGroup : Type 0 where
  pub display_name : String
  pub blockers : List Blocker

pub record OwnedObject : Type 0 where
  pub kind : String
  pub namespace : String
  pub name : String
  pub labels : Labels
  pub owner_references : List OwnerReference

pub data Removal : Type 0 where
  update_owners : OwnedObject → (owner_references : List OwnerReference) → Removal
  delete_object : OwnedObject → Removal
  delete_project_queue : Queue → Removal

-- The API server after the removals so far. `is_no_match` is meta.IsNoMatchError, and
-- `check_selector` says whether a label selector can be used.
pub record DeletionServer : Type 0 where
  pub list_namespaces : List Removal → (project : String) → Answer (List String)
  pub list_queues : List Removal → (project : String) → Answer (List Queue)
  pub get_object : List Removal → (kind namespace name : String) → Answer OwnedObject
  pub check_selector : String → Answer (Unit {0})
  pub list_objects : List Removal → (namespace : String) → Blocker → Answer (List String)
  pub is_no_match : Err → Bool
  pub perform : List Removal → Removal → Answer (Unit {0})

-- `Blocker.validate` and `groupBlockers`: a map by the display name.
unfoldable pub validate_blocker : Blocker → Result (Unit {0})
validate_blocker blocker =
    if blocker.display_name == ""
    then err (invalid "displayName is required")
    else if blocker.version == "" || blocker.kind == ""
    then err (invalid blocker.display_name)
    else ok tt

abbrev pub blockers_of : Option (List Blocker) → List Blocker
blockers_of none = []
blockers_of (some blockers) = blockers

unfoldable pub group_from :
    List (String × List Blocker) → List Blocker → Result (List (String × List Blocker))
group_from groups [] = ok groups
group_from groups (blocker ∷ blockers) =
    let rest =
      group_from
        (insert blocker.display_name
          (blockers_of (lookup blocker.display_name groups) ++ blocker ∷ []) groups)
        blockers in
    validate_blocker blocker >>= λ _. rest

abbrev to_group : String × List Blocker → BlockerGroup
to_group (display_name, blockers) = record { display_name = display_name; blockers = blockers }

abbrev pub group_blockers : List Blocker → Result (List BlockerGroup)
group_blockers blockers = group_from [] blockers >>= λ groups. ok (map to_group groups)

-- `IsProjectOwner`, and -1 as none.
abbrev pub is_owner : DeletedProject → OwnerReference → Bool
is_owner project owner =
    owner.kind == "Project" && owner.uid == project.uid && owner.name == project.name

abbrev pub after : Option ℕ → Option ℕ
after none = none
after (some i) = some (suc i)

unfoldable pub is_project_owner : DeletedProject → List OwnerReference → Option ℕ
is_project_owner project [] = none
is_project_owner project (owner ∷ owners) =
    let rest = is_project_owner project owners in
    if is_owner project owner then some 0 else after rest

-- `deleteOwnerRef`: the last reference takes the place of the one removed.
unfoldable pub last_of : OwnerReference → List OwnerReference → OwnerReference
last_of owner [] = owner
last_of owner (next ∷ owners) = last_of next owners

unfoldable pub without_last : List OwnerReference → List OwnerReference
without_last [] = []
without_last (owner ∷ []) = []
without_last (owner ∷ next ∷ owners) = owner ∷ without_last (next ∷ owners)

unfoldable pub set_at : ℕ → OwnerReference → List OwnerReference → List OwnerReference
set_at i new [] = []
set_at zero new (owner ∷ owners) = new ∷ owners
set_at (suc i) new (owner ∷ owners) = owner ∷ set_at i new owners

unfoldable pub delete_owner_ref : List OwnerReference → ℕ → List OwnerReference
delete_owner_ref [] i = []
delete_owner_ref (owner ∷ owners) i =
    without_last (set_at i (last_of owner owners) (owner ∷ owners))

module _ (cfg : QueuesConfig) (server : DeletionServer) where
  -- `projectToNamespace`: the one namespace with the project's label.
  abbrev pub one_namespace : String → Answer (List String) → Result String
  one_namespace project (fail e) = err e
  one_namespace project (reply []) = err (invalid project)
  one_namespace project (reply (namespace ∷ [])) = ok namespace
  one_namespace project (reply (_ ∷ _ ∷ _)) = err (invalid project)

  unfoldable pub kai_project_to_namespace : List Removal → DeletedProject → Result String
  kai_project_to_namespace sent project =
      if project.status_namespace != ""
      then ok project.status_namespace
      else one_namespace project.name (server.list_namespaces sent project.name)

  abbrev pub listed_blockers : Answer (List String) → Result (List String)
  listed_blockers (reply objects) = ok objects
  listed_blockers (fail e) = if server.is_no_match e || is_not_found e then ok [] else err e

  abbrev pub check_label_selector : Option String → Result (Unit {0})
  check_label_selector none = ok tt
  check_label_selector (some selector) = lift (server.check_selector selector)

  abbrev pub list_blockers : List Removal → String → Blocker → Result (List String)
  list_blockers sent namespace blocker = check_label_selector blocker.label_selector >>= λ _.
      listed_blockers (server.list_objects sent namespace blocker)

  unfoldable pub remaining_objects : List Removal → String → List Blocker → Result (List String)
  remaining_objects sent namespace [] = ok []
  remaining_objects sent namespace (blocker ∷ blockers) =
      let rest = remaining_objects sent namespace blockers in
      list_blockers sent namespace blocker >>= λ objects. rest >>= λ others. ok (objects ++ others)

  abbrev pub unless_remaining : List String → Result (Unit {0})
  unless_remaining [] = ok tt
  unless_remaining (object ∷ _) = err (invalid object)

  -- `ConfigurableBlocker.onDeleteInner`.
  unfoldable pub blocker_on_delete :
      List Removal → BlockerGroup → DeletedProject → Result (Unit {0})
  blocker_on_delete sent group project = kai_project_to_namespace sent project >>= λ namespace.
      remaining_objects sent namespace group.blockers >>= unless_remaining
