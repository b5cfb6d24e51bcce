-- ===== src/Validation/Levels.antt =====
-- The height of a department and the descents below it (Height of
-- pkg/project-controller/hierarchy/tree.go).
use kai_resource_management.Prelude.{
  below, Bool-cases, length, contains, In, here, there, In-of_contains, Distinct,
  not-In_of_contains, All-apply, lookup, ℕ, zero, suc, ◌≤◌, ◌<◌, String, ◌≡◌, refl, sym, ◌∙◌, subst,
  ◌⊎◌, inl, inr, some, List, [], ◌∷◌, ◌++◌, arith,
}
use kai_resource_management.Validation.{Tree, children, new_children, next_level, height_from}
use kai_resource_management.Validation.Heights.{
  keys, IsDescent, Apart, child-lookup, lookup-child, IsScan, new_children-IsScan,
}

In-append : (z : String) (xs ys : List String) → In z (xs ++ ys) → In z xs ⊎ In z ys
In-append z [] ys m = inr m
In-append z (x ∷ xs) ys (here e) = inl (here e)
In-append z (x ∷ xs) ys (there m) = elim (In-append z xs ys m) [
  | inl k ↦ inl (there k)
  | inr k ↦ inr k
]

In-left : (z : String) (xs ys : List String) → In z xs → In z (xs ++ ys)
In-left z [] ys m = elim m [ ]
In-left z (x ∷ xs) ys (here e) = here e
In-left z (x ∷ xs) ys (there m) = there (In-left z xs ys m)

In-right : (z : String) (xs ys : List String) → In z ys → In z (xs ++ ys)
In-right z [] ys m = m
In-right z (x ∷ xs) ys m = there (In-right z xs ys m)

module _ (tree : Tree) where
  -- The children of a level that were not seen before, and what is seen with them.
  abbrev IsNext : (level seen : List String) → List String × List String → Type 0
  IsNext level seen (found, seen') =
      ((z : String)
        → In z found
        → (x : String) × In x level × In z (children tree x) × (¬ In z seen))
      × ((x z : String) → In x level → In z (children tree x) → ¬ In z seen → In z found)
      × ((z : String) → In z seen' → In z seen ⊎ In z found)
      × ((z : String) → In z seen ⊎ In z found → In z seen')

  both-IsNext :
      (d : String) (level seen : List String) (below seen' others seen'' : List String)
      → IsScan (children tree d) seen (below, seen')
      → IsNext level seen' (others, seen'')
      → IsNext (d ∷ level) seen (below ++ others, seen'')
  both-IsNext d level seen below seen' others seen'' (sound, complete, only, each)
        (sound', complete', only', each') =
      (first, covers, split, joined)
    where
      first :
          (z : String)
          → In z (below ++ others)
          → (x : String) × In x (d ∷ level) × In z (children tree x) × (¬ In z seen)
      first z m = elim (In-append z below others m) [
        | inl k ↦ (d, here refl, (sound z k).0, (sound z k).1)
        | inr k ↦
            let (x, within, child, fresh) = sound' z k in
            (x, there within, child, (λ s. fresh (each z (inl s))))
      ]

      covers :
          (x z : String)
          → In x (d ∷ level)
          → In z (children tree x)
          → ¬ In z seen
          → In z (below ++ others)
      covers x z (here e) child fresh =
          In-left z below others
            (complete z (subst (λ a. In z (children tree a)) (sym e) child) fresh)
      covers x z (there m) child fresh = elim (Bool-cases (contains below z)) [
        | inl k ↦ In-left z below others (In-of_contains below z k)
        | inr k ↦ In-right z below others (
            complete' x z m child (λ s. elim (only z s) [
              | inl old ↦ fresh old
              | inr new ↦ not-In_of_contains below k new
            ]))
      ]

      split : (z : String) → In z seen'' → In z seen ⊎ In z (below ++ others)
      split z m = elim (only' z m) [
        | inr k ↦ inr (In-right z below others k)
        | inl k ↦ elim (only z k) [ inl old ↦ inl old | inr new ↦ inr (In-left z below others new) ]
      ]

      joined : (z : String) → In z seen ⊎ In z (below ++ others) → In z seen''
      joined z (inl m) = each' z (inl (each z (inl m)))
      joined z (inr m) = elim (In-append z below others m) [
        | inl k ↦ each' z (inl (each z (inr k)))
        | inr k ↦ each' z (inr k)
      ]

  next_level-IsNext : (level seen : List String) → IsNext level seen (next_level tree level seen)
  unfolding next_level
  next_level-IsNext [] seen = (
    (λ z m. elim m [ ]),
    (λ x z m child fresh. elim m [ ]),
    (λ z m. inl m),
    (λ z m. elim m [ inl k ↦ k | inr k ↦ elim k [ ] ]),
  )
  next_level-IsNext (d ∷ level) seen =
      let scan = new_children (children tree d) seen in
      let rest = next_level tree level scan.1 in
      both-IsNext d level seen scan.0 scan.1 rest.0 rest.1
        (new_children-IsScan (children tree d) seen) (next_level-IsNext level scan.1)

  -- Each department of a descent is right below the top or another of them.
  predecessor :
      (top z : String) (names : List String)
      → IsDescent tree top names
      → In z names
      → (p : String) × In p (top ∷ names) × (lookup z tree ≡ some p)
  predecessor top z [] h m = elim m [ ]
  predecessor top z (y ∷ names) h (here e) =
      (top, here refl, subst (λ a. lookup a tree ≡ some top) e h.0)
  predecessor top z (y ∷ names) h (there m) =
      let (p, within, known) = predecessor y z names h.1 m in (p, there within, known)

  module _ (distinct : Distinct (keys tree)) where
    -- The rest of a descent is not seen on the next level.
    still-Apart :
        (level seen : List String) (found seen' : List String) (y : String) (names : List String)
        → IsNext level seen (found, seen')
        → ((z : String) → In z level → In z seen)
        → IsDescent tree y names
        → Apart seen (y ∷ names)
        → Apart seen' names
    still-Apart level seen found seen' y names (sound, complete, only, each) behind h apart =
        each_apart names (λ z m. m)
      where
        fresh : (z : String) → In z names → ¬ In z seen'
        fresh z m now = elim (only z now) [
          | inl old ↦ All-apply (λ a. ¬ In a seen) (y ∷ names) apart (there m) old
          | inr new ↦
              let (x, within, child, _) = sound z new in
              let (p, p_in, known) = predecessor y z names h m in
              let known' : lookup z tree ≡ some x = child-lookup tree z x distinct child in
              let same : p ≡ x = (let k = sym known ∙ known' in ground arith) in
              All-apply (λ a. ¬ In a seen) (y ∷ names) apart p_in
                (subst (λ a. In a seen) (sym same) (behind x within))
        ]

        each_apart :
            (some_names : List String)
            → ((z : String) → In z some_names → In z names)
            → Apart seen' some_names
        each_apart [] f = tt
        each_apart (n ∷ ns) f = (fresh n (f n (here refl)), each_apart ns (λ z m. f z (there m)))

    -- No descent from a level is longer than the height counts, up to the limit.
    pub descent_counted :
        (left : ℕ) (seen level : List String) (x : String) (names : List String)
        → In x level
        → ((z : String) → In z level → In z seen)
        → IsDescent tree x names
        → Apart seen names
        → (length names < height_from tree seen left level)
          ⊎ (left ≤ height_from tree seen left level)
    unfolding height_from
    descent_counted zero seen level x names m behind h apart = inr (omega arith)
    descent_counted (suc left) seen [] x names m behind h apart = elim m [ ]
    descent_counted (suc left) seen (d ∷ level) x [] m behind h apart = inl (omega arith)
    descent_counted (suc left) seen (d ∷ level) x (y ∷ names) m behind h apart =
        let next = next_level tree (d ∷ level) seen in
        let spec = next_level-IsNext (d ∷ level) seen in
        let (sound, complete, only, each) = spec in
        elim (descent_counted left next.1 next.0 y names
          (complete x y m (lookup-child tree y x h.0) apart.0) (λ z k. each z (inr k)) h.1
          (still-Apart (d ∷ level) seen next.0 next.1 y names spec behind h.1 apart)) [
            | inl k ↦ inl (omega arith)
            | inr k ↦ inr (omega arith)
          ]

    -- A descent as long as the height counts.
    pub counted-IsDescent :
        (left h : ℕ) (seen level : List String)
        → height_from tree seen left level ≡ suc h
        → (x : String) × (names : List String) × In x level
          × IsDescent tree x names
          × (length names ≡ h)
          × Apart seen names
    unfolding height_from
    counted-IsDescent zero h seen level e = absurd (omega arith)
    counted-IsDescent (suc left) h seen [] e = absurd (omega arith)
    counted-IsDescent (suc left) zero seen (d ∷ level) e = (d, [], here refl, tt, refl, tt)
    counted-IsDescent (suc left) (suc h) seen (d ∷ level) e =
        let next = next_level tree (d ∷ level) seen in
        let (sound, complete, only, each) = next_level-IsNext (d ∷ level) seen in
        let (y, names, y_in, descent, long, apart) =
          counted-IsDescent left h next.1 next.0 (omega arith) in
        let (x, x_in, child, fresh) = sound y y_in in
        (
          x,
          y ∷ names,
          x_in,
          (child-lookup tree y x distinct child, descent),
          omega arith,
          (fresh, earlier seen next.1 names (λ z k. each z (inl k)) apart),
        )
      where
        earlier :
            (seen seen' names : List String)
            → ((z : String) → In z seen → In z seen')
            → Apart seen' names
            → Apart seen names
        earlier seen seen' [] f k = tt
        earlier seen seen' (n ∷ ns) f k = ((λ m. k.0 (f n m)), earlier seen seen' ns f k.1)
