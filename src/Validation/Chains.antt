-- ===== src/Validation/Chains.antt =====
-- The chains of departments above a department and the walk of Ancestors
-- (pkg/project-controller/hierarchy/tree.go).
use kai_resource_management.Prelude.{
  Bool-cases, false_of_ne, Option-cases, length, All, contains, In, here, there, In-of_contains,
  Distinct, lookup, get_or_empty, ℕ, zero, suc, ◌≤◌, String, ◌≡◌, sym, ap, ◌∙◌, subst, ◌≢◌, ◌⊎◌,
  inl, inr, false, List, [], ◌∷◌, arith,
}
use kai_resource_management.Validation.{Tree, ancestors_from}
use kai_resource_management.Validation.Ancestors.{IsChain}

-- No chain is longer than the walk, up to the limit.
pub chain_counted :
    (tree : Tree) (name : String) (seen : List String) (left : ℕ) (parent : String)
    (names : List String)
    → IsChain tree parent names
    → Distinct names
    → ¬ In name names
    → All (λ a. ¬ In a seen) names
    → (length names ≤ length (ancestors_from tree name seen left parent).0)
      ⊎ (left ≤ length (ancestors_from tree name seen left parent).0)
unfolding ancestors_from
chain_counted tree name seen zero parent names chain distinct other apart = inr (omega arith)
chain_counted tree name seen (suc left) parent [] chain distinct other apart = inl (omega arith)
chain_counted tree name seen (suc left) parent (a ∷ names) (same, nonempty, known, chain) distinct
      other apart =
    let first : parent ≢ "" = (λ e. nonempty (same ∙ e)) in
    let away : parent ≢ name = (λ e. other (here (same ∙ e))) in
    let fresh : ¬ In parent seen = (λ m. apart.0 (subst (λ b. In b seen) (sym same) m)) in
    let rest =
      chain_counted tree name (parent ∷ seen) left (get_or_empty parent tree) names
        (subst (λ b. IsChain tree (get_or_empty b tree) names) same chain) distinct.1
        (λ m. other (there m))
        (not_behind parent seen names (λ m. distinct.0 (subst (λ b. In b names) (sym same) m))
          apart.1) in
    elim (Option-cases (lookup parent tree)) [
      | inl missing ↦ absurd (known (ap (λ b. lookup b tree) same ∙ missing))
      | inr (above, found) ↦
          rw (false_of_ne first, false_of_ne away, found, not_contains seen parent fresh)
            (elim rest [ inl k ↦ inl (omega arith) | inr k ↦ inr (omega arith) ])
    ]
  where
    not_contains : (xs : List String) (b : String) → ¬ In b xs → contains xs b ≡ false
    not_contains xs b h = elim (Bool-cases (contains xs b)) [
      | inl e ↦ absurd (h (In-of_contains xs b e))
      | inr e ↦ e
    ]

    not_behind :
        (b : String) (seen names : List String)
        → ¬ In b names
        → All (λ c. ¬ In c seen) names
        → All (λ c. ¬ In c (b ∷ seen)) names
    not_behind b seen [] h k = tt
    not_behind b seen (n ∷ ns) h k = (fresh, not_behind b seen ns (λ m. h (there m)) k.1)
      where
        fresh : ¬ In n (b ∷ seen)
        fresh (here e) = h (here (sym e))
        fresh (there m) = k.0 m
