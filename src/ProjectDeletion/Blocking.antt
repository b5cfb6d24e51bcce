-- ===== src/ProjectDeletion/Blocking.antt =====
-- When a group of blockers lets a project go (configurable_blocker.go).
use kai_resource_management.Prelude.{
  Bool-cases, All, Err, Result, ok, err, panic, ◌>>=◌, is_not_found, String, ◌≡◌, refl, subst, ◌↔◌,
  ◌⊎◌, inl, inr, true, ◌||◌, List, [], ◌∷◌, ◌++◌, arith,
}
use kai_resource_management.Objects.{Answer, reply, fail}
use kai_resource_management.Queues.{QueuesConfig}
use kai_resource_management.ProjectDeletion.{
  DeletedProject, Blocker, BlockerGroup, Removal, DeletionServer, kai_project_to_namespace,
  check_label_selector, list_blockers, remaining_objects, blocker_on_delete,
}

module _ (cfg : QueuesConfig) (server : DeletionServer) (sent : List Removal) where
  -- The kind has no object left in the namespace, or it is not installed.
  abbrev pub IsGone : String → Blocker → Type 0
  IsGone namespace blocker =
      (check_label_selector cfg server blocker.label_selector ≡ ok tt)
      × ((server.list_objects sent namespace blocker ≡ reply [])
          ⊎ ((e : Err) × (server.list_objects sent namespace blocker ≡ fail e)
              × ((server.is_no_match e || is_not_found e) ≡ true)))

  listed_iff :
      (namespace : String) (blocker : Blocker)
      → (list_blockers cfg server sent namespace blocker ≡ ok []) ↔ IsGone namespace blocker
  listed_iff namespace blocker =
      of_check (check_label_selector cfg server blocker.label_selector) refl
    where
      of_check :
          (checked : Result (Unit {0}))
          → check_label_selector cfg server blocker.label_selector ≡ checked
          → (list_blockers cfg server sent namespace blocker ≡ ok []) ↔ IsGone namespace blocker
      of_check (err e) c = ((λ h. absurd (ground arith)), λ h. absurd (ground arith))
      of_check panic c = ((λ h. absurd (ground arith)), λ h. absurd (ground arith))
      of_check (ok u) c = of_answer (server.list_objects sent namespace blocker) refl
        where
          of_answer :
              (answer : Answer (List String))
              → server.list_objects sent namespace blocker ≡ answer
              → (list_blockers cfg server sent namespace blocker ≡ ok []) ↔ IsGone namespace blocker
          of_answer (reply []) a = ((λ _. (c, inl a)), λ _. rw (c, a) refl)
          of_answer (reply (o ∷ os)) a = (
            (λ h. absurd (ground arith)),
            λ h. elim h.1 [ inl k ↦ absurd (ground arith) | inr (e, k, _) ↦ absurd (ground arith) ],
          )
          of_answer (fail e) a = elim (Bool-cases (server.is_no_match e || is_not_found e)) [
            | inl g ↦ ((λ _. (c, inr (e, a, g))), λ _. rw (c, a, g) refl)
            | inr g ↦ (
              (λ h. absurd (let k = rw (c, a, g) at h in cc)),
              λ h. elim h.1 [
                | inl k ↦ absurd (ground arith)
                | inr (x, k, found) ↦ absurd (
                    let same : x ≡ e = ground arith in
                    let f =
                      subst (λ y. (server.is_no_match y || is_not_found y) ≡ true) same found in
                    cc)
              ],
            )
          ]

  both_empty :
      (m n : Result (List String))
      → (m >>= λ xs. n >>= λ ys. ok (xs ++ ys)) ≡ ok []
      → (m ≡ ok []) × (n ≡ ok [])
  both_empty (ok []) (ok []) h = (refl, refl)
  both_empty (ok []) (ok (y ∷ ys)) h = absurd (cc)
  both_empty (ok (x ∷ xs)) (ok ys) h = absurd (cc)
  both_empty (ok xs) (err e) h = absurd (cc)
  both_empty (ok xs) panic h = absurd (cc)
  both_empty (err e) n h = absurd (cc)
  both_empty panic n h = absurd (cc)

  remaining_iff :
      (namespace : String) (blockers : List Blocker)
      → (remaining_objects cfg server sent namespace blockers ≡ ok [])
        ↔ All (IsGone namespace) blockers
  unfolding remaining_objects
  remaining_iff namespace [] = ((λ _. tt), λ _. refl)
  remaining_iff namespace (blocker ∷ blockers) =
      let first = listed_iff namespace blocker in
      let rest = remaining_iff namespace blockers in
      (
        (λ h.
            let both =
              both_empty (list_blockers cfg server sent namespace blocker)
                (remaining_objects cfg server sent namespace blockers) h in
            (first.0 both.0, rest.0 both.1)),
        λ h. rw (first.1 h.0, rest.1 h.1) refl,
      )

-- A group of blockers lets a project go exactly when its namespace can be told and none of the kinds has
-- an object left in it, or the kind is not installed.
pub unblocked_iff :
    (cfg : QueuesConfig) (server : DeletionServer) (sent : List Removal) (group : BlockerGroup)
    (project : DeletedProject)
    → (blocker_on_delete cfg server sent group project ≡ ok tt) ↔ (
        (namespace : String) × (kai_project_to_namespace cfg server sent project ≡ ok namespace)
        × All (IsGone cfg server sent namespace) group.blockers)
unfolding blocker_on_delete
unblocked_iff cfg server sent group project =
    of_namespace (kai_project_to_namespace cfg server sent project) refl
  where
    of_namespace :
        (found : Result String)
        → kai_project_to_namespace cfg server sent project ≡ found
        → (blocker_on_delete cfg server sent group project ≡ ok tt) ↔ (
            (namespace : String) × (kai_project_to_namespace cfg server sent project ≡ ok namespace)
            × All (IsGone cfg server sent namespace) group.blockers)
    of_namespace (err e) n = ((λ h. absurd (let k = rw n at h in cc)), λ (other, k, _). absurd (cc))
    of_namespace panic n = ((λ h. absurd (let k = rw n at h in cc)), λ (other, k, _). absurd (cc))
    of_namespace (ok namespace) n =
        (only (remaining_objects cfg server sent namespace group.blockers) refl, whenever)
      where
        only :
            (remaining : Result (List String))
            → remaining_objects cfg server sent namespace group.blockers ≡ remaining
            → blocker_on_delete cfg server sent group project ≡ ok tt
            → (other : String) × (kai_project_to_namespace cfg server sent project ≡ ok other)
              × All (IsGone cfg server sent other) group.blockers
        only (ok []) r h =
            (namespace, n, (remaining_iff cfg server sent namespace group.blockers).0 r)
        only (ok (x ∷ xs)) r h = absurd (let k = rw (n, r) at h in cc)
        only (err e) r h = absurd (let k = rw (n, r) at h in cc)
        only panic r h = absurd (let k = rw (n, r) at h in cc)

        whenever :
            ((other : String) × (kai_project_to_namespace cfg server sent project ≡ ok other)
              × All (IsGone cfg server sent other) group.blockers)
            → blocker_on_delete cfg server sent group project ≡ ok tt
        whenever (other, k, gone) =
            rw (k, (remaining_iff cfg server sent other group.blockers).1 gone) refl
