-- ===== src/NodePools/Merging.antt =====
-- What the API server answers to a JSON merge patch of a node (RFC 7386), and what a patch leaves of
-- the node in hand.
use kai_resource_management.Prelude.{
  ◌==◌, if◌then◌else◌, lookup, Err, ok, err, String, ◌≡◌, refl, ◌⊎◌, inl, inr, Bool, Option, none,
  some, List, [], ◌∷◌,
}
use kai_resource_management.Objects.{Labels, Answer, reply, fail}
use kai_resource_management.NodePools.{
  Node, MergePatch, NodePatch, Patch, patch_node, Cluster, Turn, send_node_patch,
}

-- What a map of texts holds under a key once it is patched.
abbrev pub lookup_patched : String → Labels → MergePatch → Option String
lookup_patched key labels [] = lookup key labels
lookup_patched key labels (change ∷ changes) =
    let rest = lookup_patched key labels changes in if change.0 == key then change.1 else rest

abbrev pub or_kept : Option Bool → Bool → Bool
or_kept none old = old
or_kept (some new) old = new

-- The node as the patch leaves it.
abbrev pub IsPatched : Node → NodePatch → Node → Type 0
IsPatched node patch patched =
    (patched.name ≡ node.name)
    × ((key : String) → lookup key patched.labels ≡ lookup_patched key node.labels patch.labels)
    × (patched.unschedulable ≡ or_kept patch.unschedulable node.unschedulable)

-- A merge patch that the server accepts is applied, and it answers with the patched node.
abbrev pub Merges : Cluster → Type 0
Merges cluster =
    (sent : List Patch) (node : Node) (patch : NodePatch) (patched : Node)
    → cluster.perform sent node patch ≡ reply patched
    → IsPatched node patch patched

-- The server accepts every patch of a node.
abbrev pub Accepts : Cluster → Type 0
Accepts cluster =
    (sent : List Patch) (node : Node) (patch : NodePatch)
    → (patched : Node) × (cluster.perform sent node patch ≡ reply patched)

pub Answer-cases {ℓ} :
    {A : Type ℓ} (answer : Answer A)
    → ((a : A) × (answer ≡ reply a)) ⊎ ((e : Err) × (answer ≡ fail e))
Answer-cases (reply a) = inl (a, refl)
Answer-cases (fail e) = inr (e, refl)

abbrev pub after_patch : Turn → NodePatch → Node → Turn
after_patch t patch node = record { node = node; sent = patch_node t.node patch ∷ t.sent }

module _ (cluster : Cluster) (merges : Merges cluster) where
  -- The server refuses the patch and the node stays, or the patch leaves the patched node.
  pub send_node_patch-cases :
      (patch : NodePatch) (t : Turn)
      → ((patched : Node) × IsPatched t.node patch patched
          × (send_node_patch cluster patch t ≡ (ok tt, after_patch t patch patched)))
        ⊎ ((e : Err) × (¬ Accepts cluster)
            × (send_node_patch cluster patch t ≡ (err e, after_patch t patch t.node)))
  send_node_patch-cases patch t = elim (Answer-cases (cluster.perform t.sent t.node patch)) [
    | inl (patched, same) ↦ inl (patched, merges t.sent t.node patch patched same, rw (same) refl)
    | inr (e, same) ↦ inr (e, refused e same, rw (same) refl)
  ]
    where
      refused : (e : Err) → cluster.perform t.sent t.node patch ≡ fail e → ¬ Accepts cluster
      refused e same accepts = let (patched, given) = accepts t.sent t.node patch in cc
