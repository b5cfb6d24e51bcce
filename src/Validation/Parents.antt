-- ===== src/Validation/Parents.antt =====
-- What an accepted parent of a department guarantees (validateDepartmentParent).
use kai_resource_management.Prelude.{
  Bool-cases, length, In, here, there, lookup, insert, lookup-insert, or_empty, get_or_empty,
  lookup-insert_self, ℕ, suc, ◌+◌, ◌≤◌, ◌<◌, String, eq_iff, ◌≡◌, sym, ap, ◌∙◌, ◌≢◌, ◌↔◌, inl, inr,
  true, false, none, List, [], ◌∷◌, arith,
}
use kai_resource_management.Objects.{Department, reply}
use kai_resource_management.Validation.{
  Validator, Tree, new_tree, ancestors, height, get_parent_department, tree_with, check_tree,
  validate_department_parent,
}
use kai_resource_management.Validation.Ancestors.{Leads, IsChain, ancestors_lem}
use kai_resource_management.Validation.Fits.{tree_with-Distinct, FitsLevels, counted_up, levels_iff}

-- The way up from the department comes back to it.
abbrev pub IsLooping : Tree → String → Type 0
IsLooping tree name = (k : ℕ) × (k < 7) × Leads tree (suc k) name name

checked_iff :
    (v : Validator) (department parent : Department) (departments : List Department)
    → department.parent ≢ ""
    → get_parent_department v department.parent ≡ inr parent
    → v.list_departments ≡ reply departments
    → let tree = tree_with department parent departments in
      let above = ancestors tree department.name 7 in
      (validate_department_parent v department ≡ []) ↔ (
        (parent.being_deleted ≡ false)
        × (above.1 ≡ false)
        × (length above.0 + height tree department.name 7 ≤ 7))
unfolding validate_department_parent check_tree
checked_iff v department parent departments named found listed = (
  λ h. ground (arith, eq_iff department.parent ""),
  λ h. ground (arith, eq_iff department.parent ""),
)

module _ (department parent : Department) (departments : List Department)
    (named : department.parent ≢ "") (read_name : parent.name ≡ department.parent) where
  abbrev tree : Tree
  tree = tree_with department parent departments

  own_parent : get_or_empty department.name tree ≡ department.parent
  own_parent = ap or_empty (
      lookup-insert_self department.name department.parent
        (insert parent.name parent.parent (new_tree departments)))

  -- The parent is an ancestor that the tree knows, unless the department is its own parent.
  parent-IsChain :
      department.parent ≢ department.name
      → IsChain tree (get_or_empty department.name tree) (department.parent ∷ [])
  parent-IsChain other = (sym own_parent, named, known, tt)
    where
      known : lookup department.parent tree ≢ none
      known missing =
          let outer =
            lookup-insert department.name department.parent department.parent
              (insert parent.name parent.parent (new_tree departments)) in
          let inner =
            lookup-insert parent.name department.parent parent.parent (new_tree departments) in
          absurd (
            ground (
              arith,
              outer,
              inner,
              eq_iff department.name department.parent,
              eq_iff parent.name department.parent,
            ))

  one_above : department.parent ≢ department.name → 1 ≤ length (ancestors tree department.name 7).0
  one_above other =
      elim (counted_up tree department.name (tree_with-Distinct department parent departments)
        (department.parent ∷ []) (parent-IsChain other) ((λ m. elim m [ ]), tt) (not_own other)) [
          | inl k ↦ k
          | inr k ↦ omega arith
        ]
    where
      not_own : department.parent ≢ department.name → ¬ In department.name (department.parent ∷ [])
      not_own other (here e) = other e
      not_own other (there m) = elim m [ ]

-- The parent of a department is accepted, when it and the departments can be read, exactly when the
-- parent is not being deleted and, in the tree of the departments with the department under its
-- parent, the way up from the department does not come back to it within 7 levels, and the department
-- with each chain of departments above it and each descent below it makes 7 levels at most. No
-- department has the empty name, and the parent that is read has the name that was asked for.
pub accepted_parent_iff :
    (v : Validator) (department parent : Department) (departments : List Department)
    → department.parent ≢ ""
    → get_parent_department v department.parent ≡ inr parent
    → v.list_departments ≡ reply departments
    → parent.name ≡ department.parent
    → department.name ≢ ""
    → get_or_empty "" (tree_with department parent departments) ≡ ""
    → let tree = tree_with department parent departments in
      (validate_department_parent v department ≡ []) ↔ (
        (parent.being_deleted ≡ false)
        × (¬ IsLooping tree department.name)
        × FitsLevels tree department.name)
accepted_parent_iff v department parent departments named found listed read_name own_name rootless =
    (accepted, rejected)
  where
    unlooped :
        ¬ IsLooping (tree_with department parent departments) department.name
        → department.parent ≢ department.name
    unlooped free same =
        free (0, omega arith, own_parent department parent departments named read_name ∙ same)

    levels :
        ¬ IsLooping (tree_with department parent departments) department.name
        → (length (ancestors (tree_with department parent departments) department.name 7).0
              + height (tree_with department parent departments) department.name 7
            ≤ 7)
          ↔ FitsLevels (tree_with department parent departments) department.name
    levels free =
        levels_iff (tree_with department parent departments) department.name
          (tree_with-Distinct department parent departments) rootless own_name
          (one_above department parent departments named read_name (unlooped free))

    loop_iff :
        ((ancestors (tree_with department parent departments) department.name 7).1 ≡ true)
        ↔ IsLooping (tree_with department parent departments) department.name
    loop_iff =
        let (short, apart, other, chain, looping) =
          ancestors_lem (tree_with department parent departments) department.name 7 rootless
            own_name in
        looping

    accepted :
        validate_department_parent v department ≡ []
        → (parent.being_deleted ≡ false)
          × (¬ IsLooping (tree_with department parent departments) department.name)
          × FitsLevels (tree_with department parent departments) department.name
    accepted h =
        let (alive, no_loop, few) =
          (checked_iff v department parent departments named found listed).0 h in
        let free : ¬ IsLooping (tree_with department parent departments) department.name =
          (λ l. let k = sym no_loop ∙ loop_iff.1 l in cc) in
        (alive, free, (levels free).0 few)

    rejected :
        (parent.being_deleted ≡ false)
          × (¬ IsLooping (tree_with department parent departments) department.name)
          × FitsLevels (tree_with department parent departments) department.name
        → validate_department_parent v department ≡ []
    rejected (alive, free, few) =
        (checked_iff v department parent departments named found listed).1
          (alive, no_loop, (levels free).1 few)
      where
        no_loop : (ancestors (tree_with department parent departments) department.name 7).1 ≡ false
        no_loop =
            elim (Bool-cases
              (ancestors (tree_with department parent departments) department.name 7).1) [
                | inl e ↦ absurd (free (loop_iff.0 e))
                | inr e ↦ e
              ]
