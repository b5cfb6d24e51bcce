-- ===== src/Converter/Duplicates.antt =====
-- RemoveDuplicates of pkg/common/node-pool-utils/utils/utils.go.
use kai_resource_management.Prelude.{
  ◌==◌, if◌then◌else◌, Bool-cases, contains, In-of_contains, Distinct, contains_of_In, String,
  eq_iff, ◌≡◌, refl, inl, inr, false, ◌||◌, List, [], ◌∷◌, ◌++◌, arith,
}

-- One round: the keys seen and the result so far.
abbrev pub keep_new : String → List String × List String → List String × List String
keep_new item (seen, result) =
    if contains seen item then (seen, result) else (item ∷ seen, result ++ item ∷ [])

unfoldable pub dedup_from : List String × List String → List String → List String
dedup_from (seen, result) [] = result
dedup_from acc (item ∷ items) = dedup_from (keep_new item acc) items

unfoldable pub remove_duplicates : List String → List String
unfolding dedup_from
remove_duplicates list = dedup_from ([], []) list

-- The keys seen are the members of the result.
abbrev Agrees : List String × List String → Type 0
Agrees (seen, result) = (a : String) → contains seen a ≡ contains result a

contains-snoc :
    (xs : List String) (x a : String) → contains (xs ++ x ∷ []) a ≡ (contains xs a || x == a)
contains-snoc [] x a = ground arith
contains-snoc (y ∷ xs) x a = ground (arith, contains-snoc xs x a)

keep_new-Agrees :
    (item : String) (seen result : List String)
    → Agrees (seen, result)
    → Agrees (keep_new item (seen, result))
keep_new-Agrees item seen result h a = elim (Bool-cases (contains seen item)) [
  | inl e ↦ ground (arith, h a)
  | inr e ↦ ground (arith, h a, contains-snoc result item a)
]

contains-keep_new :
    (item : String) (seen result : List String) (a : String)
    → Agrees (seen, result)
    → contains (keep_new item (seen, result)).1 a ≡ (contains result a || item == a)
contains-keep_new item seen result a h = elim (Bool-cases (contains seen item)) [
  | inl e ↦ ground (arith, h item, eq_iff item a)
  | inr e ↦ ground (arith, contains-snoc result item a)
]

contains-dedup_from :
    (seen result items : List String) (a : String)
    → Agrees (seen, result)
    → contains (dedup_from (seen, result) items) a ≡ (contains result a || contains items a)
unfolding dedup_from
contains-dedup_from seen result [] a h = ground arith
contains-dedup_from seen result (item ∷ items) a h =
    let (seen', result') = keep_new item (seen, result) in
    ground (
      arith,
      contains-keep_new item seen result a h,
      contains-dedup_from seen' result' items a (keep_new-Agrees item seen result h),
    )

Distinct-snoc :
    (xs : List String) (x : String) → contains xs x ≡ false → Distinct xs → Distinct (xs ++ x ∷ [])
Distinct-snoc [] x h d = (λ m. elim m [ ], tt)
Distinct-snoc (y ∷ xs) x h d = (
  λ m. elim (Bool-cases (contains xs y)) [
    | inl e ↦ d.0 (In-of_contains xs y e)
    | inr e ↦ ground (arith, contains-snoc xs x y, contains_of_In m, eq_iff y x, eq_iff x y)
  ],
  Distinct-snoc xs x (ground arith) d.1,
)

keep_new-Distinct :
    (item : String) (seen result : List String)
    → Agrees (seen, result)
    → Distinct result
    → Distinct (keep_new item (seen, result)).1
keep_new-Distinct item seen result h d = elim (Bool-cases (contains seen item)) [
  | inl e ↦ rw e d
  | inr e ↦ rw e (Distinct-snoc result item (ground (arith, h item)) d)
]

dedup_from-Distinct :
    (seen result items : List String)
    → Agrees (seen, result)
    → Distinct result
    → Distinct (dedup_from (seen, result) items)
unfolding dedup_from
dedup_from-Distinct seen result [] h d = d
dedup_from-Distinct seen result (item ∷ items) h d =
    let (seen', result') = keep_new item (seen, result) in
    dedup_from-Distinct seen' result' items (keep_new-Agrees item seen result h)
      (keep_new-Distinct item seen result h d)

-- The result holds every text of the list, once, and no other.
pub remove_duplicates_lem :
    (list : List String)
    → Distinct (remove_duplicates list)
      × ((a : String) → contains (remove_duplicates list) a ≡ contains list a)
unfolding remove_duplicates
remove_duplicates_lem list = (
  dedup_from-Distinct [] [] list (λ a. refl) tt,
  λ a. contains-dedup_from [] [] list a (λ a. refl),
)
