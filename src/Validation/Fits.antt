-- ===== src/Validation/Fits.antt =====
-- When the levels through a department are few enough (the sum of Ancestors and Height in
-- validateDepartmentParent).
use kai_resource_management.Prelude.{
  ◌==◌, Bool-cases, ne_of_false, length, In, here, there, Distinct, All-apply, delete, insert,
  get_or_empty, ℕ, zero, suc, ◌+◌, ◌≤◌, ◌<◌, String, ◌≡◌, refl, sym, ◌∙◌, subst, ◌≢◌, ◌↔◌, ◌⊎◌, inl,
  inr, List, [], ◌∷◌, arith,
}
use kai_resource_management.Objects.{Department}
use kai_resource_management.Validation.{
  Tree, add_departments, new_tree, ancestors, height, tree_with,
}
use kai_resource_management.Validation.Ancestors.{IsChain, ancestors_lem}
use kai_resource_management.Validation.Chains.{chain_counted}
use kai_resource_management.Validation.Heights.{keys, IsDescent, Apart}
use kai_resource_management.Validation.Levels.{descent_counted, counted-IsDescent}

delete-keys :
    (key z : String) (tree : Tree) → In z (keys (delete key tree)) → In z (keys tree) × (key ≢ z)
unfolding delete
delete-keys key z [] m = elim m [ ]
delete-keys key z (entry ∷ tree) m = elim (Bool-cases (entry.0 == key)) [
  | inl e ↦ let (k, other) = delete-keys key z tree (rw e at m) in (there k, other)
  | inr e ↦ kept (delete-keys key z tree) (ne_of_false e) (rw e at m)
]
  where
    kept :
        (In z (keys (delete key tree)) → In z (keys tree) × (key ≢ z))
        → entry.0 ≢ key
        → In z (entry.0 ∷ keys (delete key tree))
        → In z (keys (entry ∷ tree)) × (key ≢ z)
    kept on other (here e) = (here e, (λ k. other (e ∙ sym k)))
    kept on other (there m') = let (k, apart) = on m' in (there k, apart)

delete-Distinct :
    (key : String) (tree : Tree) → Distinct (keys tree) → Distinct (keys (delete key tree))
unfolding delete
delete-Distinct key [] h = tt
delete-Distinct key (entry ∷ tree) h = elim (Bool-cases (entry.0 == key)) [
  | inl e ↦ rw (e) (delete-Distinct key tree h.1)
  | inr e ↦ rw (e) ((λ m. h.0 (delete-keys key entry.0 tree m).0), delete-Distinct key tree h.1)
]

insert-Distinct :
    (key value : String) (tree : Tree)
    → Distinct (keys tree)
    → Distinct (keys (insert key value tree))
unfolding insert
insert-Distinct key value tree h =
    ((λ m. (delete-keys key key tree m).1 refl), delete-Distinct key tree h)

add-Distinct :
    (departments : List Department) (tree : Tree)
    → Distinct (keys tree)
    → Distinct (keys (add_departments departments tree))
unfolding add_departments
add-Distinct [] tree h = h
add-Distinct (d ∷ ds) tree h =
    add-Distinct ds (insert d.name d.parent tree) (insert-Distinct d.name d.parent tree h)

pub tree_with-Distinct :
    (department parent : Department) (departments : List Department)
    → Distinct (keys (tree_with department parent departments))
tree_with-Distinct department parent departments =
    insert-Distinct department.name department.parent
      (insert parent.name parent.parent (new_tree departments))
      (insert-Distinct parent.name parent.parent (new_tree departments)
        (add-Distinct departments [] tt))

-- A chain of departments above the department, itself, and a descent from it have 7 levels at most.
abbrev pub FitsLevels : Tree → String → Type 0
FitsLevels tree name =
    (ups downs : List String)
    → IsChain tree (get_or_empty name tree) ups
    → Distinct ups
    → ¬ In name ups
    → IsDescent tree name downs
    → ¬ In name downs
    → length ups + suc (length downs) ≤ 7

Apart-one : (name : String) (names : List String) → ¬ In name names → Apart (name ∷ []) names
Apart-one name [] h = tt
Apart-one name (n ∷ ns) h = (other, Apart-one name ns (λ m. h (there m)))
  where
    other : ¬ In n (name ∷ [])
    other (here e) = h (here (sym e))
    other (there m) = elim m [ ]

not-In-Apart : (name : String) (names : List String) → Apart (name ∷ []) names → ¬ In name names
not-In-Apart name names h m = All-apply (λ a. ¬ In a (name ∷ [])) names h m (here refl)

Apart-none : (names : List String) → Apart [] names
Apart-none [] = tt
Apart-none (n ∷ ns) = ((λ m. elim m [ ]), Apart-none ns)

module _ (tree : Tree) (name : String) (distinct : Distinct (keys tree)) where
  counted_down :
      (downs : List String)
      → IsDescent tree name downs
      → ¬ In name downs
      → (length downs < height tree name 7) ⊎ (7 ≤ height tree name 7)
  unfolding height
  counted_down downs h other =
      descent_counted tree distinct 7 (name ∷ []) (name ∷ []) name downs (here refl) (λ z m. m) h
        (Apart-one name downs other)

  one_level : 1 ≤ height tree name 7
  one_level = elim (counted_down [] tt (λ m. elim m [ ])) [
    | inl d ↦ omega arith
    | inr d ↦ omega arith
  ]

  pub counted_up :
      (ups : List String)
      → IsChain tree (get_or_empty name tree) ups
      → Distinct ups
      → ¬ In name ups
      → (length ups ≤ length (ancestors tree name 7).0) ⊎ (7 ≤ length (ancestors tree name 7).0)
  unfolding ancestors
  counted_up ups chain apart other =
      chain_counted tree name [] 7 (get_or_empty name tree) ups chain apart other (Apart-none ups)

  deepest :
      (h : ℕ)
      → height tree name 7 ≡ suc h
      → (downs : List String) × IsDescent tree name downs × (¬ In name downs) × (length downs ≡ h)
  unfolding height
  deepest h e =
      let (x, downs, x_in, descent, long, apart) =
        counted-IsDescent tree distinct 7 h (name ∷ []) (name ∷ []) e in
      (downs, of_one x x_in downs descent, not-In-Apart name downs apart, long)
    where
      of_one :
          (x : String)
          → In x (name ∷ [])
          → (downs : List String) → IsDescent tree x downs
          → IsDescent tree name downs
      of_one x (here same) downs descent = subst (λ a. IsDescent tree a downs) (sym same) descent
      of_one x (there m) downs descent = elim m [ ]

  -- The tree fits exactly when the levels that the code counts do, where an ancestor is known.
  pub levels_iff :
      get_or_empty "" tree ≡ ""
      → name ≢ ""
      → 1 ≤ length (ancestors tree name 7).0
      → (length (ancestors tree name 7).0 + height tree name 7 ≤ 7) ↔ FitsLevels tree name
  levels_iff rootless named one_above = (fits, λ h. counted h (height tree name 7) refl)
    where
      fits : length (ancestors tree name 7).0 + height tree name 7 ≤ 7 → FitsLevels tree name
      fits few ups downs chain apart other descent other' =
          elim (counted_up ups chain apart other) [
            | inr k ↦ let least = one_level in absurd (omega arith)
            | inl k ↦ elim (counted_down downs descent other') [
              | inl d ↦ omega arith
              | inr d ↦ absurd (omega arith)
            ]
          ]

      counted :
          FitsLevels tree name
          → (h : ℕ) → height tree name 7 ≡ h
          → length (ancestors tree name 7).0 + height tree name 7 ≤ 7
      counted all_fit zero e = let least = one_level in absurd (omega arith)
      counted all_fit (suc h) e =
          let (downs, descent, other', long) = deepest h e in
          let (short, apart, other, chain, looping) = ancestors_lem tree name 7 rootless named in
          let bound = all_fit (ancestors tree name 7).0 downs chain apart other descent other' in
          omega arith
