-- ===== src/ProjectDeletion/Owners.antt =====
-- Which owner references are left when one is removed (deleteOwnerRef).
use kai_resource_management.Prelude.{
  Bool-cases, Option-cases, length, get_elem?, get_elem?-lt, In, here, there, ℕ, zero, suc, ◌+◌,
  ◌<◌, ◌≡◌, refl, sym, ap, ◌∙◌, subst, ◌⊎◌, inl, inr, true, false, some, List, [], ◌∷◌, arith,
}
use kai_resource_management.Objects.{OwnerReference}
use kai_resource_management.ProjectDeletion.{
  DeletedProject, is_owner, is_project_owner, last_of, without_last, set_at, delete_owner_ref,
}

In-without_last :
    (a owner : OwnerReference) (owners : List OwnerReference)
    → In a (owner ∷ owners)
    → (a ≡ last_of owner owners) ⊎ In a (without_last (owner ∷ owners))
unfolding last_of without_last
In-without_last a owner [] (here e) = inl (sym e)
In-without_last a owner [] (there m) = elim m [ ]
In-without_last a owner (next ∷ owners) (here e) = inr (here e)
In-without_last a owner (next ∷ owners) (there m) = elim (In-without_last a next owners m) [
  | inl e ↦ inl e
  | inr n ↦ inr (there n)
]

abbrev with_last : OwnerReference → List OwnerReference → ℕ → List OwnerReference
with_last owner owners i = without_last (set_at i (last_of owner owners) (owner ∷ owners))

with_last-cons :
    (owner next : OwnerReference) (owners : List OwnerReference) (i : ℕ)
    → with_last owner (next ∷ owners) (suc i) ≡ owner ∷ with_last next owners i
unfolding without_last set_at last_of
with_last-cons owner next owners zero = refl
with_last-cons owner next owners (suc i) = refl

In-with_last :
    (a owner : OwnerReference) (owners : List OwnerReference) (i : ℕ)
    → In a (owner ∷ owners)
    → i < length (owner ∷ owners)
    → (get_elem? (owner ∷ owners) i ≡ some a) ⊎ In a (with_last owner owners i)
unfolding last_of set_at without_last
In-with_last a owner [] zero (here e) lt = inl (ap some e)
In-with_last a owner [] zero (there m) lt = elim m [ ]
In-with_last a owner [] (suc i) m lt = absurd (omega arith)
In-with_last a owner (next ∷ owners) zero (here e) lt = inl (ap some e)
In-with_last a owner (next ∷ owners) zero (there m) lt = elim (In-without_last a next owners m) [
  | inl e ↦ inr (here (sym e))
  | inr n ↦ inr (there n)
]
In-with_last a owner (next ∷ owners) (suc i) (here e) lt =
    inr (subst (λ r. In a r) (sym (with_last-cons owner next owners i)) (here e))
In-with_last a owner (next ∷ owners) (suc i) (there m) lt =
    elim (In-with_last a next owners i m (omega arith)) [
      | inl e ↦ inl e
      | inr n ↦ inr (subst (λ r. In a r) (sym (with_last-cons owner next owners i)) (there n))
    ]

length-with_last :
    (owner : OwnerReference) (owners : List OwnerReference) (i : ℕ)
    → i < length (owner ∷ owners)
    → length (with_last owner owners i) ≡ length owners
unfolding last_of set_at without_last
length-with_last owner [] zero lt = refl
length-with_last owner [] (suc i) lt = absurd (omega arith)
length-with_last owner (next ∷ owners) zero lt = ap suc (length_without next owners)
  where
    length_without :
        (owner : OwnerReference) (owners : List OwnerReference)
        → length (without_last (owner ∷ owners)) ≡ length owners
    length_without owner [] = refl
    length_without owner (next ∷ owners) = ap suc (length_without next owners)
length-with_last owner (next ∷ owners) (suc i) lt =
    ap length (with_last-cons owner next owners i)
    ∙ ap suc (length-with_last next owners i (omega arith))

found_owner :
    (project : DeletedProject) (owners : List OwnerReference) (i : ℕ)
    → is_project_owner project owners ≡ some i
    → (owner : OwnerReference) × (get_elem? owners i ≡ some owner) × (is_owner project owner ≡ true)
unfolding is_project_owner
found_owner project [] i h = absurd (cc)
found_owner project (owner ∷ owners) i h = elim (Bool-cases (is_owner project owner)) [
  | inl e ↦ (let k : i ≡ 0 = ground arith in rw (k) (owner, refl, e))
  | inr e ↦ elim (Option-cases (is_project_owner project owners)) [
    | inl none_found ↦ absurd (ground arith)
    | inr (j, found) ↦
        let k : i ≡ suc j = ground arith in rw (k) (found_owner project owners j found)
  ]
]

-- Where a project is found among an object's owners, its removal leaves one reference less, and every
-- reference that is not the project's stays.
pub removed_owner :
    (project : DeletedProject) (owners : List OwnerReference) (i : ℕ)
    → is_project_owner project owners ≡ some i
    → (length (delete_owner_ref owners i) + 1 ≡ length owners)
      × ((a : OwnerReference)
          → In a owners
          → is_owner project a ≡ false
          → In a (delete_owner_ref owners i))
unfolding delete_owner_ref is_project_owner
removed_owner project [] i h = absurd (cc)
removed_owner project (owner ∷ owners) i h =
    let (gone, at, owned) = found_owner project (owner ∷ owners) i h in
    let lt = get_elem?-lt (owner ∷ owners) i at in
    (
      omega (arith, length-with_last owner owners i lt),
      λ a m other. elim (In-with_last a owner owners i m lt) [
        | inl e ↦ absurd (
            let same : a ≡ gone = ground arith in
            let k = subst (λ x. is_owner project x ≡ false) same other in cc)
        | inr n ↦ n
      ],
    )
