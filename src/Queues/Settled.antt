-- ===== src/Queues/Settled.antt =====
-- An update brings a queue to what the spec asks for, so that it is not updated again.
use kai_resource_management.Prelude.{
  ℤ, pos, negsuc, int_eq, nat_eq, ◌==◌, all, lookup, ok, ℕ, String, eq_iff, eq_refl, ◌≡◌, refl,
  Bool, true, false, Option, none, some, List, [], ◌∷◌, arith,
}
use kai_resource_management.Objects.{
  Labels, OwnerReference, QueueResource, QueueResources, QueueSpec, Queue,
}
use kai_resource_management.Queues.{QueuesConfig, History, Server}
use kai_resource_management.Queues.Specs.{
  option_eq, list_eq, flag_eq, owner_eq, resource_eq, resources_eq, spec_eq, are_queues_equal,
  update_existing_queue_with_expected_values,
}
use kai_resource_management.Queues.Handlers.{
  handle_existing_of_project, handle_existing_of_department,
}

nat_eq_self : (n : ℕ) → nat_eq n n ≡ true
nat_eq_self n = ground arith

flag_eq_self : (b : Bool) → flag_eq b b ≡ true
flag_eq_self true = refl
flag_eq_self false = refl

int_eq_self : (n : ℤ) → int_eq n n ≡ true
int_eq_self (pos n) = ground arith
int_eq_self (negsuc n) = ground arith

option_eq_self :
    {A : Type 0} (eq : A → A → Bool)
    → ((a : A) → eq a a ≡ true)
    → (x : Option A) → option_eq eq x x ≡ true
option_eq_self eq h none = refl
option_eq_self eq h (some a) = h a

list_eq_self :
    {A : Type 0} (eq : A → A → Bool)
    → ((a : A) → eq a a ≡ true)
    → (xs : List A) → list_eq eq xs xs ≡ true
list_eq_self eq h [] = refl
list_eq_self eq h (x ∷ xs) = ground (arith, h x, list_eq_self eq h xs)

entries_self :
    (labels entries : Labels)
    → all
        (λ entry. option_eq (λ a b. a == b) (lookup entry.0 labels) (lookup entry.0 labels))
        entries
      ≡ true
entries_self labels [] = refl
entries_self labels (entry ∷ entries) = ground (
  arith,
  entries_self labels entries,
  option_eq_self (λ a b. a == b) (λ a. eq_refl a) (lookup entry.0 labels),
)

owner_eq_self : (owner : OwnerReference) → owner_eq owner owner ≡ true
owner_eq_self owner = ground (
  arith,
  eq_refl owner.api_version,
  eq_refl owner.kind,
  eq_refl owner.name,
  eq_refl owner.uid,
  option_eq_self flag_eq flag_eq_self owner.controller,
  option_eq_self flag_eq flag_eq_self owner.block_owner_deletion,
)

resource_eq_self : (r : QueueResource) → resource_eq r r ≡ true
resource_eq_self r =
    ground (arith, nat_eq_self r.quota, nat_eq_self r.over_quota_weight, nat_eq_self r.limit)

resources_eq_self : (r : QueueResources) → resources_eq r r ≡ true
resources_eq_self r =
    ground (arith, resource_eq_self r.gpu, resource_eq_self r.cpu, resource_eq_self r.memory)

spec_eq_self : (spec : QueueSpec) → spec_eq spec spec ≡ true
spec_eq_self spec = ground (
  arith,
  eq_refl spec.display_name,
  eq_refl spec.parent_queue,
  option_eq_self resources_eq resources_eq_self spec.resources,
  option_eq_self int_eq int_eq_self spec.priority,
)

updated_equal :
    (expected existing : Queue)
    → expected.name ≡ existing.name
    → are_queues_equal expected (update_existing_queue_with_expected_values expected existing)
      ≡ true
unfolding are_queues_equal
updated_equal expected existing same = ground (
  arith,
  eq_iff expected.name existing.name,
  entries_self expected.labels expected.labels,
  list_eq_self owner_eq owner_eq_self expected.owner_references,
  spec_eq_self expected.spec,
)

-- Once a queue has been updated to what a project's or a department's spec asks for, under its own
-- name, either handler finds it equal: it sends nothing and succeeds.
pub updated_settles :
    (cfg : QueuesConfig) (server : Server) (expected existing : Queue) (uid : String) (s : History)
    → expected.name ≡ existing.name
    → let updated = update_existing_queue_with_expected_values expected existing in
      (handle_existing_of_project cfg server expected updated uid s ≡ (ok tt, s))
      × (handle_existing_of_department cfg server expected updated uid s ≡ (ok tt, s))
unfolding handle_existing_of_project handle_existing_of_department
updated_settles cfg server expected existing uid s same =
    let e = updated_equal expected existing same in (rw e refl, rw e refl)
