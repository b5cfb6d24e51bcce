-- ===== src/Validation/Ancestors.antt =====
-- The walk up the department tree (Ancestors of pkg/project-controller/hierarchy/tree.go).
use kai_resource_management.Prelude.{
  ◌==◌, Bool-cases, eq_of_true, ne_of_false, false_of_ne, Option-cases, length, All, contains, In,
  here, there, In-of_contains, Distinct, not-In_of_contains, All-apply, lookup, or_empty,
  get_or_empty, ℕ, zero, suc, ◌≤◌, ◌<◌, String, eq_refl, ◌≡◌, refl, sym, ap, ◌∙◌, subst, ◌≢◌, ◌↔◌,
  inl, inr, Bool, true, false, none, List, [], ◌∷◌, arith,
}
use kai_resource_management.Validation.{Tree, ancestors_from, ancestors}

-- From the department `a`, `k` parents up, is the department `b`.
abbrev pub Leads : Tree → ℕ → String → String → Type 0
Leads tree zero a b = a ≡ b
Leads tree (suc k) a b = Leads tree k (get_or_empty a tree) b

-- The departments of the list are in the tree, the first under the name, and each next under its parent's.
abbrev pub IsChain : Tree → String → List String → Type 0
IsChain tree parent [] = Unit
IsChain tree parent (a ∷ as') =
    (a ≡ parent) × (a ≢ "") × (lookup a tree ≢ none) × IsChain tree (get_or_empty a tree) as'

-- What a walk from `parent` gives, when `seen` lies behind it.
abbrev IsWalk : Tree → String → List String → ℕ → String → List String × Bool → Type 0
IsWalk tree name seen left parent walk =
    (length walk.0 ≤ left)
    × Distinct walk.0
    × All (λ a. (a ≢ name) × (¬ In a seen)) walk.0
    × (walk.1 ≡ true → (length walk.0 < left) × Leads tree (length walk.0) parent name)
    × IsChain tree parent walk.0

not_seen_again :
    (name parent : String) (seen as' : List String)
    → All (λ a. (a ≢ name) × (¬ In a (parent ∷ seen))) as'
    → (¬ In parent as') × All (λ a. (a ≢ name) × (¬ In a seen)) as'
not_seen_again name parent seen [] h = ((λ m. elim m [ ]), tt)
not_seen_again name parent seen (a ∷ as') h =
    let (later, others) = not_seen_again name parent seen as' h.1 in
    (head later, ((h.0.0, (λ m. h.0.1 (there m))), others))
  where
    head : ¬ In parent as' → ¬ In parent (a ∷ as')
    head later (here e) = h.0.1 (here (sym e))
    head later (there m) = later m

IsWalk-on :
    (tree : Tree) (name : String) (seen : List String) (left : ℕ) (parent : String)
    (walk : List String × Bool)
    → parent ≢ name
    → ¬ In parent seen
    → parent ≢ ""
    → lookup parent tree ≢ none
    → IsWalk tree name (parent ∷ seen) left (get_or_empty parent tree) walk
    → IsWalk tree name seen (suc left) parent (parent ∷ walk.0, walk.1)
IsWalk-on tree name seen left parent walk other fresh named known
      (short, distinct, apart, leads, chain) =
    let (later, others) = not_seen_again name parent seen walk.0 apart in
    (
      omega arith,
      (later, distinct),
      ((other, fresh), others),
      (λ h. (let k = (leads h).0 in omega arith, (leads h).1)),
      (refl, named, known, chain),
    )

ancestors_from-IsWalk :
    (tree : Tree) (name : String) (seen : List String) (left : ℕ) (parent : String)
    → IsWalk tree name seen left parent (ancestors_from tree name seen left parent)
unfolding ancestors_from
ancestors_from-IsWalk tree name seen zero parent = (omega arith, tt, tt, (λ e. absurd (cc)), tt)
ancestors_from-IsWalk tree name seen (suc left) parent =
    let stop : IsWalk tree name seen (suc left) parent ([], false) =
      (omega arith, tt, tt, (λ e. absurd (cc)), tt) in
    let on = ancestors_from-IsWalk tree name (parent ∷ seen) left (get_or_empty parent tree) in
    elim (Bool-cases (parent == "")) [
      | inl e ↦ rw e stop
      | inr e ↦ elim (Bool-cases (parent == name)) [
        | inl e' ↦ rw (e, e') (omega arith, tt, tt, (λ _. (omega arith, eq_of_true e')), tt)
        | inr e' ↦ elim (Option-cases (lookup parent tree)) [
          | inl none_there ↦ rw (e, e', none_there) stop
          | inr (above, e'') ↦ elim (Bool-cases (contains seen parent)) [
            | inl e3 ↦ rw (e, e', e'', e3) stop
            | inr e3 ↦
                rw (e, e', e'', e3)
                  (IsWalk-on tree name seen left parent _ (ne_of_false e')
                    (not-In_of_contains seen e3) (ne_of_false e) (λ k. let j = sym e'' ∙ k in cc)
                    on)
          ]
        ]
      ]
    ]

Leads-nowhere :
    (tree : Tree) (k : ℕ) (b : String) → get_or_empty "" tree ≡ "" → Leads tree k "" b → "" ≡ b
Leads-nowhere tree zero b rootless h = h
Leads-nowhere tree (suc k) b rootless h =
    Leads-nowhere tree k b rootless (subst (λ a. Leads tree k a b) rootless h)

-- The walk reports a loop that the limit reaches, unless it has left that way before.
ancestors_from-reaches :
    (tree : Tree) (name : String)
    → get_or_empty "" tree ≡ ""
    → name ≢ ""
    → (seen : List String) (left : ℕ) (parent : String) (k : ℕ) → k < left
    → Leads tree k parent name
    → ((j : ℕ) → j < k → ¬ Leads tree j parent name)
    → All (λ s. (j : ℕ) → j ≤ k → ¬ Leads tree j s name) seen
    → (ancestors_from tree name seen left parent).1 ≡ true
unfolding ancestors_from
ancestors_from-reaches tree name rootless named seen zero parent k short leads first apart =
    absurd (omega arith)
ancestors_from-reaches tree name rootless named seen (suc left) parent zero short leads first
      apart =
    elim (Bool-cases (parent == "")) [
      | inl e ↦ absurd (named (sym leads ∙ eq_of_true e))
      | inr e ↦ rw (e, leads, eq_refl name) refl
    ]
ancestors_from-reaches tree name rootless named seen (suc left) parent (suc k) short leads first
      apart =
    let nonempty : parent ≢ "" = (λ e. named (
      sym (
        Leads-nowhere tree (suc k) name rootless
          (subst (λ a. Leads tree (suc k) a name) e leads)))) in
    let other : parent ≢ name = first 0 (omega arith) in
    let rest =
      ancestors_from-reaches tree name rootless named (parent ∷ seen) left
        (get_or_empty parent tree) k (omega arith) leads (λ j h. first (suc j) (omega arith))
        ((λ j h. first j (omega arith)), sooner seen apart) in
    elim (Option-cases (lookup parent tree)) [
      | inl none_there ↦ absurd (
          named (
            sym (
              Leads-nowhere tree k name rootless
                (subst (λ a. Leads tree k a name) (ap or_empty none_there) leads))))
      | inr (above, found) ↦ elim (Bool-cases (contains seen parent)) [
        | inl e ↦ absurd (
            All-apply (λ s. (j : ℕ) → j ≤ suc k → ¬ Leads tree j s name) seen apart
              (In-of_contains seen parent e) (suc k) (omega arith) leads)
        | inr e ↦ rw (false_of_ne nonempty, false_of_ne other, found, e) rest
      ]
    ]
  where
    sooner :
        (seen : List String)
        → All (λ s. (j : ℕ) → j ≤ suc k → ¬ Leads tree j s name) seen
        → All (λ s. (j : ℕ) → j ≤ k → ¬ Leads tree j s name) seen
    sooner [] h = tt
    sooner (s ∷ ss) h = ((λ j short'. h.0 j (omega arith)), sooner ss h.1)

-- The shortest way up.
shortest :
    (tree : Tree) (name : String) (k : ℕ) (a : String)
    → Leads tree k a name
    → (m : ℕ) × (m ≤ k) × Leads tree m a name × ((j : ℕ) → j < m → ¬ Leads tree j a name)
shortest tree name zero a h = (zero, omega arith, h, λ j short. absurd (omega arith))
shortest tree name (suc k) a h = elim (Bool-cases (a == name)) [
  | inl e ↦ (zero, omega arith, eq_of_true e, λ j short. absurd (omega arith))
  | inr e ↦
      let (m, short, leads, first) = shortest tree name k (get_or_empty a tree) h in
      (suc m, omega arith, leads, from_first m first (ne_of_false e))
]
  where
    from_first :
        (m : ℕ)
        → ((j : ℕ) → j < m → ¬ Leads tree j (get_or_empty a tree) name)
        → a ≢ name
        → (j : ℕ) → j < suc m
        → ¬ Leads tree j a name
    from_first m first other zero short leads = other leads
    from_first m first other (suc j) short leads = first j (omega arith) leads

-- The ancestors of a department are distinct departments of the tree other than itself, the nearest
-- first, each the parent of the one before, at most as many as the limit; and a loop is reported
-- exactly where the way up comes back to the department within the limit. The department has a name,
-- and no department of the tree has the empty one.
pub ancestors_lem :
    (tree : Tree) (name : String) (limit : ℕ)
    → get_or_empty "" tree ≡ ""
    → name ≢ ""
    → let (above, in_loop) = ancestors tree name limit in
      (length above ≤ limit)
      × Distinct above
      × (¬ In name above)
      × IsChain tree (get_or_empty name tree) above
      × ((in_loop ≡ true) ↔ ((k : ℕ) × (k < limit) × Leads tree (suc k) name name))
unfolding ancestors
ancestors_lem tree name limit rootless named =
    let (short, distinct, apart, leads, chain) =
      ancestors_from-IsWalk tree name [] limit (get_or_empty name tree) in
    (
      short,
      distinct,
      (λ m. (All-apply (λ a. (a ≢ name) × (¬ In a [])) _ apart m).0 refl),
      chain,
      ((λ h. (_, (leads h).0, (leads h).1)), reported),
    )
  where
    reported :
        (k : ℕ) × (k < limit) × Leads tree (suc k) name name
        → (ancestors_from tree name [] limit (get_or_empty name tree)).1 ≡ true
    reported (k, short, leads) =
        let (m, near, found, first) = shortest tree name k (get_or_empty name tree) leads in
        ancestors_from-reaches tree name rootless named [] limit (get_or_empty name tree) m
          (omega arith) found first tt
