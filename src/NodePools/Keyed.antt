-- ===== src/NodePools/Keyed.antt =====
-- The comparison of two lists by a map of the first one, as isNodeInNodepoolEqual and
-- isNodePoolConditionsEqual of nodepool_status_handler.go do it.
use kai_resource_management.Prelude.{
  ◌==◌, Bool-cases, eq_of_true, All, In, here, there, lookup, insert, lookup-nil, lookup-insert,
  String, ◌≡◌, refl, sym, ap, ◌∙◌, ◌⊎◌, inl, inr, Bool, true, false, ◌&&◌, Option, none, some, List,
  [], ◌∷◌, arith,
}

module _ {A : Type 0} (key : A → String) where
  -- The map that a loop fills by a key.
  unfoldable pub by_key : List (String × A) → List A → List (String × A)
  by_key entries [] = entries
  by_key entries (a ∷ others) = by_key (insert (key a) a entries) others

  module _ (same : A → A → Bool) where
    abbrev is_same : Option A → A → Bool
    is_same none a = false
    is_same (some b) a = same b a

    -- Every entry on the right has one of its key on the left, with the same content.
    unfoldable pub all_matched : List (String × A) → List A → Bool
    all_matched entries [] = true
    all_matched entries (a ∷ others) =
        is_same (lookup (key a) entries) a && all_matched entries others

module _ {A : Type 0} (key : A → String) where
  by_key-In :
      (wanted : String) (entries : List (String × A)) (items : List A) (a : A)
      → lookup wanted (by_key key entries items) ≡ some a
      → ((In a items) × (key a ≡ wanted)) ⊎ (lookup wanted entries ≡ some a)
  unfolding by_key
  by_key-In wanted entries [] a h = inr h
  by_key-In wanted entries (b ∷ others) a h =
      of_rest (by_key-In wanted (insert (key b) b entries) others a h)
    where
      of_rest :
          ((In a others) × (key a ≡ wanted)) ⊎ (lookup wanted (insert (key b) b entries) ≡ some a)
          → ((In a (b ∷ others)) × (key a ≡ wanted)) ⊎ (lookup wanted entries ≡ some a)
      of_rest (inl (m, e)) = inl (there m, e)
      of_rest (inr e) =
          let found = lookup-insert (key b) wanted b entries in
          elim (Bool-cases (key b == wanted)) [
            | inl k ↦
                let same : b ≡ a = ground arith in inl (here same, ap key (sym same) ∙ eq_of_true k)
            | inr k ↦ inr (ground arith)
          ]

  -- An item of the list that has the key of another and its content.
  abbrev pub Counterpart : (A → A → Bool) → List A → A → Type 0
  Counterpart same left b = (a : A) × In a left × (key a ≡ key b) × (same a b ≡ true)

  pub all_matched-Counterpart :
      (same : A → A → Bool) (left right : List A)
      → all_matched key same (by_key key [] left) right ≡ true
      → All (Counterpart same left) right
  unfolding all_matched
  all_matched-Counterpart same left [] h = tt
  all_matched-Counterpart same left (b ∷ others) h = (
    of_found (lookup (key b) (by_key key [] left)) refl,
    all_matched-Counterpart same left others (ground arith),
  )
    where
      of_found :
          (found : Option A) → lookup (key b) (by_key key [] left) ≡ found → Counterpart same left b
      of_found none e = absurd (ground arith)
      of_found (some a) e = of_source (by_key-In (key b) [] left a e)
        where
          of_source :
              ((In a left) × (key a ≡ key b)) ⊎ (lookup (key b) [] ≡ some a)
              → Counterpart same left b
          of_source (inl (m, k)) = (a, m, k, ground arith)
          of_source (inr none_found) =
              absurd (let k = sym (lookup-nil {V = A} (key b)) ∙ none_found in cc)
