-- ===== src/NodePools/NrtShown.antt =====
-- The condition that a step of reconcileNrtHealthCondition leaves on a node (nrt_health_handler.go).
use kai_resource_management.Prelude.{
  ◌==◌, if◌then◌else◌, Bool-cases, Option-cases, ok, String, eq_iff, ◌≡◌, refl, inl, inr, Bool,
  true, false, Option, none, some, List, [], ◌∷◌, arith,
}
use kai_resource_management.Objects.{reply}
use kai_resource_management.NodePools.{
  NodeCondition, Node, upsert_condition, delete_condition, Patch, Cluster, Turn,
}
use kai_resource_management.NodePools.Merging.{Answer-cases}
use kai_resource_management.NodePools.Nrt.{
  nrt_healthy_condition_type, condition_true, find_node_condition, upsert_node_condition,
  delete_node_condition, is_up_to_date, nrt_condition, ensure_nrt_condition, remove_nrt_condition,
}

pub find-upsert :
    (condition : NodeCondition) (kind : String) (conditions : List NodeCondition)
    → find_node_condition kind (upsert_node_condition condition conditions) ≡ (
        if condition.condition_type == kind
        then some condition
        else find_node_condition kind conditions)
unfolding find_node_condition upsert_node_condition
find-upsert condition kind [] = refl
find-upsert condition kind (c ∷ cs) = ground (
  arith,
  find-upsert condition kind cs,
  eq_iff c.condition_type condition.condition_type,
  eq_iff c.condition_type kind,
  eq_iff condition.condition_type kind,
)

-- Deleting a condition that is not there changes nothing.
pub delete-missing :
    (kind : String) (conditions : List NodeCondition)
    → find_node_condition kind conditions ≡ none
    → delete_node_condition kind conditions ≡ conditions
unfolding find_node_condition delete_node_condition
delete-missing kind [] h = refl
delete-missing kind (c ∷ cs) h = ground (arith, delete-missing kind cs)

-- The server keeps a node's conditions by their type: it deletes the one of the patch's type.
abbrev pub MergesConditions : Cluster → Type 0
MergesConditions cluster =
    (sent : List Patch) (node : Node) (kind : String) (patched : Node)
    → cluster.perform_status sent node (delete_condition kind) ≡ reply patched
    → find_node_condition kind patched.conditions ≡ none

-- What the condition of a healthy node is, or that of an unhealthy one.
abbrev pub Shows : Bool × (String × String) → Node → Type 0
Shows (true, why) node = find_node_condition nrt_healthy_condition_type node.conditions ≡ none
Shows (false, (reason, message)) node =
    (condition : NodeCondition) × (find_node_condition nrt_healthy_condition_type node.conditions
      ≡ some condition)
    × (condition.status ≡ condition_true)
    × (condition.reason ≡ reason)
    × (condition.message ≡ message)

module _ (cluster : Cluster) where
  pub ensure-Shows :
      (reason message : String) (t : Turn)
      → (ensure_nrt_condition cluster reason message t).0 ≡ ok tt
      → Shows (false, (reason, message)) (ensure_nrt_condition cluster reason message t).1.node
  unfolding ensure_nrt_condition
  ensure-Shows reason message t h =
      elim (Bool-cases (is_up_to_date cluster reason message existing)) [
        | inl same ↦ rw (same) (up_to_date existing refl same)
        | inr stale ↦
            elim (Answer-cases
              (cluster.perform_status t.sent t.node (upsert_condition condition))) [
                | inl (patched, accepted) ↦
                    rw (stale, accepted)
                      (
                        condition,
                        find-upsert condition nrt_healthy_condition_type patched.conditions,
                        refl,
                        refl,
                        refl,
                      )
                | inr (e, refused) ↦ absurd (let k = rw (stale, refused) at h in cc)
              ]
      ]
    where
      existing : Option NodeCondition
      existing = find_node_condition nrt_healthy_condition_type t.node.conditions

      condition : NodeCondition
      condition = nrt_condition cluster reason message existing

      up_to_date :
          (found : Option NodeCondition)
          → existing ≡ found
          → is_up_to_date cluster reason message existing ≡ true
          → Shows (false, (reason, message)) t.node
      up_to_date none e same = absurd (ground arith)
      up_to_date (some c) e same = (
        c,
        e,
        ground (arith, eq_iff c.status condition_true),
        ground (arith, eq_iff c.reason reason),
        ground (arith, eq_iff c.message message),
      )

  pub remove-Shows :
      (t : Turn)
      → MergesConditions cluster
      → (remove_nrt_condition cluster t).0 ≡ ok tt
      → find_node_condition nrt_healthy_condition_type
          (remove_nrt_condition cluster t).1.node.conditions
        ≡ none
  unfolding remove_nrt_condition
  remove-Shows t merges h =
      elim (Option-cases (find_node_condition nrt_healthy_condition_type t.node.conditions)) [
        | inl missing ↦ rw (missing) missing
        | inr (c, found) ↦
            elim (Answer-cases (
              cluster.perform_status t.sent t.node (delete_condition nrt_healthy_condition_type))) [
                | inl (patched, accepted) ↦
                    let gone = merges t.sent t.node nrt_healthy_condition_type patched accepted in
                    rw
                      (
                        found,
                        accepted,
                        delete-missing nrt_healthy_condition_type patched.conditions gone,
                      )
                      gone
                | inr (e, refused) ↦ absurd (let k = rw (found, refused) at h in cc)
              ]
      ]
