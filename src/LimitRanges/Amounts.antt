-- ===== src/LimitRanges/Amounts.antt =====
-- What the handler of a project's limit range writes: limit_range_resource_handler.go.
use kai_resource_management.Prelude.{
  ◌!=◌, if◌then◌else◌, Bool-cases, lookup, delete, insert, Result, ok, err, panic, is_not_found,
  IsSafe, ℕ, String, ◌≡◌, refl, ◌≢◌, ◌⊎◌, inl, inr, Bool, false, Option, none, some, List, [], ◌∷◌,
}
use kai_resource_management.Objects.{Labels, Answer, reply, fail, lift}
use kai_resource_management.Effects.{continue, ◌>>=◌, give}
use kai_resource_management.Queues.{QueuesConfig}
use kai_resource_management.ProjectDeletion.{
  DeletedProject, after, one_namespace, kai_project_to_namespace,
}
use kai_resource_management.ProjectDeletion.Handlers.{is_overridden}
use kai_resource_management.LimitRanges.{
  Quantities, LimitRangeItem, LimitRange, Write, create_limit_range, update_limit_range, Writing,
  LimitServer, container_limits, quantity_of, assigned, with_limits, populate_limit_range,
  found_limit_range, limit_range_of, create_or_update_limit_range, with_config_map,
  handle_resource_inner,
}

module _ (cfg : QueuesConfig) (limit_range_name : String) (server : LimitServer) where
  -- The quantities of one list are those of the two fields.
  abbrev pub HasQuantities : Labels → Quantities → (cpu_field memory_field : String) → Type 0
  HasQuantities limits quantities cpu_field memory_field =
      (lookup "cpu" quantities ≡ quantity_of cfg limit_range_name server limits cpu_field)
      × (lookup "memory" quantities ≡ quantity_of cfg limit_range_name server limits memory_field)

  abbrev pub HasAmounts : Labels → List LimitRangeItem → Type 0
  HasAmounts limits items =
      (item : LimitRangeItem) × (items ≡ item ∷ [])
      × HasQuantities limits item.default_request "cpuDefaultRequest" "memoryDefaultRequest"
      × HasQuantities limits item.default_limit "cpuDefaultLimit" "memoryDefaultLimit"
      × HasQuantities limits item.max "cpuMaxLimit" "memoryMaxLimit"

  assigned_each :
      (cpu memory : Option ℕ)
      → let quantities =
          assigned cfg limit_range_name server memory "memory"
            (assigned cfg limit_range_name server cpu "cpu" []) in
        (lookup "cpu" quantities ≡ cpu) × (lookup "memory" quantities ≡ memory)
  unfolding lookup insert delete
  assigned_each none none = (refl, refl)
  assigned_each none (some memory) = (refl, refl)
  assigned_each (some cpu) none = (refl, refl)
  assigned_each (some cpu) (some memory) = (refl, refl)

  populated-HasAmounts :
      (limits : Labels) (limit_range : LimitRange)
      → (items : List LimitRangeItem) × (populate_limit_range cfg limit_range_name server limits
            limit_range
          ≡ ok (record limit_range { limits = items }))
        × HasAmounts limits items
  unfolding populate_limit_range
  populated-HasAmounts limits limit_range = (
    with_limits cfg limit_range_name server limits (container_limits) ∷ [],
    refl,
    (_, refl, assigned_each _ _, assigned_each _ _, assigned_each _ _),
  )

  -- What is sent of a limit range, if anything.
  abbrev pub limit_range_in_write : Write → LimitRange
  limit_range_in_write (create_limit_range limit_range) = limit_range
  limit_range_in_write (update_limit_range limit_range) = limit_range

  -- No write, or one, for a limit range that no one has overridden by hand.
  abbrev pub IsHandled : List Write → Result (Unit {0}) × List Write → Type 0
  IsHandled before (r, after) =
      (r ≢ panic)
      × ((after ≡ before)
          ⊎ ((request : Write) × (limits : Labels) × (after ≡ request ∷ before)
              × (server.get_config_map before ≡ reply limits)
              × (is_overridden cfg (limit_range_in_write request).labels ≡ false)
              × HasAmounts limits (limit_range_in_write request).limits))

  namespace-IsSafe :
      (project : DeletedProject)
      → IsSafe (kai_project_to_namespace cfg server.namespaces [] project)
  unfolding kai_project_to_namespace
  namespace-IsSafe project = elim (Bool-cases (project.status_namespace != "")) [
    | inl e ↦ rw (e) tt
    | inr e ↦ rw (e) (of_list (server.namespaces.list_namespaces [] project.name))
  ]
    where
      of_list :
          (answer : Answer (List String))
          → IsSafe (one_namespace cfg server.namespaces project.name answer)
      of_list (fail e) = tt
      of_list (reply []) = tt
      of_list (reply (namespace ∷ [])) = tt
      of_list (reply (_ ∷ _ ∷ _)) = tt

  lift-ne_panic : (answer : Answer (Unit {0})) → lift answer ≢ panic
  lift-ne_panic (reply u) h = absurd (cc)
  lift-ne_panic (fail e) h = absurd (cc)

  -- What a found limit range comes to.
  abbrev pub end_of : Labels → LimitRange × Bool → Writing (Unit {0})
  end_of limits found =
      if is_overridden cfg found.0.labels
      then give (ok tt)
      else give (populate_limit_range cfg limit_range_name server limits found.0)
        >>= create_or_update_limit_range cfg limit_range_name server found.1

  end-IsHandled :
      (before : List Write) (limits : Labels) (limit_range : LimitRange) (should_create : Bool)
      → server.get_config_map before ≡ reply limits
      → IsHandled before (end_of limits (limit_range, should_create) before)
  end-IsHandled before limits limit_range should_create read =
      elim (Bool-cases (is_overridden cfg limit_range.labels)) [
        | inl e ↦ rw (e) ((λ h. cc), inl refl)
        | inr e ↦
            let (items, populated, amounts) = populated-HasAmounts limits limit_range in
            let written = record limit_range { limits = items } in
            rw (e, populated)
              (elim (Bool-cases should_create) [
                | inl c ↦ rw (c) (
                  lift-ne_panic _,
                  inr (create_limit_range written, limits, refl, read, e, amounts),
                )
                | inr c ↦ rw (c) (
                  lift-ne_panic _,
                  inr (update_limit_range written, limits, refl, read, e, amounts),
                )
              ])
      ]

  -- A reconcile of a project's limit range does not panic and sends one write at most. What it writes is
  -- not overridden by hand, and its one item has for each of the six amounts the quantity that the
  -- config map's text stands for, or none where the text is missing or no quantity.
  pub written_amounts :
      (project : DeletedProject) (before : List Write)
      → IsHandled before (handle_resource_inner cfg limit_range_name server project before)
  unfolding handle_resource_inner
  written_amounts project before = of_map (server.get_config_map before) refl
    where
      of_found :
          (limits : Labels) (found : Result (LimitRange × Bool))
          → server.get_config_map before ≡ reply limits
          → IsSafe found
          → IsHandled before (continue found (end_of limits) before)
      of_found limits (ok (limit_range, should_create)) read safe =
          end-IsHandled before limits limit_range should_create read
      of_found limits (err e) read safe = ((λ h. cc), inl refl)
      of_found limits panic read safe = absurd safe

      answer-IsSafe :
          (namespace : String) (answer : Answer LimitRange)
          → IsSafe (found_limit_range cfg limit_range_name server project namespace answer)
      answer-IsSafe namespace (reply limit_range) = tt
      answer-IsSafe namespace (fail e) = elim (Bool-cases (is_not_found e)) [
        | inl n ↦ rw (n) tt
        | inr n ↦ rw (n) tt
      ]

      found-IsSafe :
          (namespace : Result String)
          → IsSafe namespace
          → IsSafe (limit_range_of cfg limit_range_name server before project namespace)
      found-IsSafe (ok namespace) safe = answer-IsSafe namespace _
      found-IsSafe (err e) safe = tt
      found-IsSafe panic safe = safe

      of_map :
          (answer : Answer Labels)
          → server.get_config_map before ≡ answer
          → IsHandled before (with_config_map cfg limit_range_name server project answer before)
      of_map (reply limits) read =
          of_found limits _ read (found-IsSafe _ (namespace-IsSafe project))
      of_map (fail e) read = elim (Bool-cases (is_not_found e)) [
        | inl n ↦ rw (n) ((λ h. cc), inl refl)
        | inr n ↦ rw (n) ((λ h. cc), inl refl)
      ]
