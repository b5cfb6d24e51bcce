-- ===== src/Validation/Heights.antt =====
-- The levels below a department (Height of pkg/project-controller/hierarchy/tree.go).
use kai_resource_management.Prelude.{
  below, ◌==◌, Bool-cases, eq_of_true, ne_of_false, All, contains, In, here, there, In-of_contains,
  Distinct, not-In_of_contains, lookup, String, eq_refl, ◌≡◌, refl, sym, subst, ◌≢◌, ◌⊎◌, inl, inr,
  none, some, List, [], ◌∷◌, map, arith,
}
use kai_resource_management.Validation.{Tree, children, new_children}

abbrev pub keys : Tree → List String
keys tree = map (λ e. e.0) tree

-- Each department of the list is right below the one before, the first below `top`.
abbrev pub IsDescent : Tree → (top : String) → List String → Type 0
IsDescent tree top [] = Unit
IsDescent tree top (child ∷ below) = (lookup child tree ≡ some top) × IsDescent tree child below

abbrev pub Apart : (seen names : List String) → Type 0
Apart seen names = All (λ a. ¬ In a seen) names

In-children : (tree : Tree) (z x : String) → In z (children tree x) → In z (keys tree)
In-children [] z x m = elim m [ ]
In-children (entry ∷ tree) z x m = elim (Bool-cases (entry.1 == x)) [
  | inl e ↦ kept (In-children tree z x) (rw e at m)
  | inr e ↦ there (In-children tree z x (rw e at m))
]
  where
    kept :
        (In z (children tree x) → In z (keys tree))
        → In z (entry.0 ∷ children tree x)
        → In z (keys (entry ∷ tree))
    kept on (here e) = here e
    kept on (there m') = there (on m')

lookup-missing : (tree : Tree) (z : String) → ¬ In z (keys tree) → lookup z tree ≡ none
unfolding lookup
lookup-missing [] z h = refl
lookup-missing (entry ∷ tree) z h = elim (Bool-cases (entry.0 == z)) [
  | inl e ↦ absurd (h (here (eq_of_true e)))
  | inr e ↦ rw (e) (lookup-missing tree z (λ m. h (there m)))
]

-- The children of a department are those whose parent it is.
pub child-lookup :
    (tree : Tree) (z x : String)
    → Distinct (keys tree)
    → In z (children tree x)
    → lookup z tree ≡ some x
unfolding lookup
child-lookup [] z x distinct m = elim m [ ]
child-lookup (entry ∷ tree) z x distinct m = elim (Bool-cases (entry.1 == x)) [
  | inl e ↦ kept (eq_of_true e) (child-lookup tree z x distinct.1) (rw e at m)
  | inr e ↦ later (child-lookup tree z x distinct.1) (rw e at m)
]
  where
    later :
        (In z (children tree x) → lookup z tree ≡ some x)
        → In z (children tree x)
        → lookup z (entry ∷ tree) ≡ some x
    later on m' = elim (Bool-cases (entry.0 == z)) [
      | inl k ↦ absurd (
          distinct.0 (subst (λ a. In a (keys tree)) (sym (eq_of_true k)) (In-children tree z x m')))
      | inr k ↦ rw (k) (on m')
    ]

    kept :
        entry.1 ≡ x
        → (In z (children tree x) → lookup z tree ≡ some x)
        → In z (entry.0 ∷ children tree x)
        → lookup z (entry ∷ tree) ≡ some x
    kept same on (here k) = rw (k, eq_refl z, same) refl
    kept same on (there m') = later on m'

pub lookup-child : (tree : Tree) (z x : String) → lookup z tree ≡ some x → In z (children tree x)
unfolding lookup
lookup-child [] z x h = absurd (cc)
lookup-child (entry ∷ tree) z x h = elim (Bool-cases (entry.0 == z)) [
  | inl e ↦ let same : entry.1 ≡ x = ground arith in rw (same, eq_refl x) (here (eq_of_true e))
  | inr e ↦ of_parent (lookup-child tree z x (rw e at h))
]
  where
    of_parent : In z (children tree x) → In z (children (entry ∷ tree) x)
    of_parent m = elim (Bool-cases (entry.1 == x)) [ inl k ↦ rw (k) (there m) | inr k ↦ rw (k) m ]

-- What a scan for new names finds among `names`, and what is seen after it.
abbrev pub IsScan : (names seen : List String) → List String × List String → Type 0
IsScan names seen (found, seen') =
    ((z : String) → In z found → In z names × (¬ In z seen))
    × ((z : String) → In z names → ¬ In z seen → In z found)
    × ((z : String) → In z seen' → In z seen ⊎ In z found)
    × ((z : String) → In z seen ⊎ In z found → In z seen')

pub new_children-IsScan : (cs seen : List String) → IsScan cs seen (new_children cs seen)
unfolding new_children
new_children-IsScan [] seen = (
  (λ z m. elim m [ ]),
  (λ z m h. elim m [ ]),
  (λ z m. inl m),
  (λ z m. elim m [ inl k ↦ k | inr k ↦ elim k [ ] ]),
)
new_children-IsScan (child ∷ cs) seen = elim (Bool-cases (contains seen child)) [
  | inl e ↦ rw (e) (skipped (In-of_contains seen child e) (new_children-IsScan cs seen))
  | inr e ↦ rw (e) (taken (not-In_of_contains seen e) (new_children-IsScan cs (child ∷ seen)))
]
  where
    skipped :
        In child seen
        → IsScan cs seen (new_children cs seen)
        → IsScan (child ∷ cs) seen (new_children cs seen)
    skipped was (sound, complete, seen_only, seen_all) =
        ((λ z m. (there (sound z m).0, (sound z m).1)), covers, seen_only, seen_all)
      where
        covers : (z : String) → In z (child ∷ cs) → ¬ In z seen → In z (new_children cs seen).0
        covers z (here e) fresh = absurd (fresh (subst (λ a. In a seen) e was))
        covers z (there m) fresh = complete z m fresh

    taken :
        ¬ In child seen
        → IsScan cs (child ∷ seen) (new_children cs (child ∷ seen))
        → IsScan
            (child ∷ cs)
            seen
            (child ∷ (new_children cs (child ∷ seen)).0, (new_children cs (child ∷ seen)).1)
    taken fresh (sound, complete, seen_only, seen_all) = (first, covers, split, joined)
      where
        first :
            (z : String)
            → In z (child ∷ (new_children cs (child ∷ seen)).0)
            → In z (child ∷ cs) × (¬ In z seen)
        first z (here e) = (here e, (λ m. fresh (subst (λ a. In a seen) (sym e) m)))
        first z (there m) = (there (sound z m).0, (λ k. (sound z m).1 (there k)))

        covers :
            (z : String)
            → In z (child ∷ cs)
            → ¬ In z seen
            → In z (child ∷ (new_children cs (child ∷ seen)).0)
        covers z (here e) apart = here e
        covers z (there m) apart = elim (Bool-cases (child == z)) [
          | inl e ↦ here (eq_of_true e)
          | inr e ↦ there (complete z m (not_here (ne_of_false e) apart))
        ]
          where
            not_here : child ≢ z → ¬ In z seen → ¬ In z (child ∷ seen)
            not_here other apart' (here e) = other e
            not_here other apart' (there m') = apart' m'

        split :
            (z : String)
            → In z (new_children cs (child ∷ seen)).1
            → In z seen ⊎ In z (child ∷ (new_children cs (child ∷ seen)).0)
        split z m = of_seen (seen_only z m)
          where
            of_seen :
                In z (child ∷ seen) ⊎ In z (new_children cs (child ∷ seen)).0
                → In z seen ⊎ In z (child ∷ (new_children cs (child ∷ seen)).0)
            of_seen (inl (here e)) = inr (here e)
            of_seen (inl (there k)) = inl k
            of_seen (inr k) = inr (there k)

        joined :
            (z : String)
            → In z seen ⊎ In z (child ∷ (new_children cs (child ∷ seen)).0)
            → In z (new_children cs (child ∷ seen)).1
        joined z (inl m) = seen_all z (inl (there m))
        joined z (inr (here e)) = seen_all z (inl (here e))
        joined z (inr (there m)) = seen_all z (inr m)
