-- ===== src/Prelude/Lists.antt =====
-- Lists measured and indexed by native numbers, under the library's names, and predicates on them
-- by recursion.
use Prim.Native.Nat.{ℕ, zero, suc, ◌+◌, ◌<◌}
use Prim.Native.String.{String}
use text.Mathlib.TextEquality.{eq_iff}
use mathlib.Core.Path.{◌≡◌, refl, ap, subst}
use mathlib.Core.Logic.{inl, inr}
use mathlib.Core.Bool.{Bool, true, false, ◌||◌, ◌&&◌}
use mathlib.Core.List.{List, [], ◌∷◌, ◌++◌}
use mathlib.Core.Option.{Option, none, some}
use native.Mathlib.Omega.{arith}
use kai_resource_management.Prelude.Tests.{◌==◌, if◌then◌else◌, eq_of_true, Bool-cases}

module _ {ℓ} {A : Type ℓ} where
  abbrev pub length : List A → ℕ
  length [] = 0
  length (x ∷ xs) = suc (length xs)

  abbrev pub get_elem? : List A → ℕ → Option A
  get_elem? [] i = none
  get_elem? (x ∷ xs) zero = some x
  get_elem? (x ∷ xs) (suc i) = get_elem? xs i

  pub length-append : (xs ys : List A) → length (xs ++ ys) ≡ length xs + length ys
  length-append [] ys = omega arith
  length-append (x ∷ xs) ys = omega (arith, length-append xs ys)

  -- An index below the length names an element.
  pub get_elem?-total : (xs : List A) (i : ℕ) → i < length xs → (a : A) × (get_elem? xs i ≡ some a)
  get_elem?-total [] i h = absurd (omega arith)
  get_elem?-total (x ∷ xs) zero h = (x, refl)
  get_elem?-total (x ∷ xs) (suc i) h = get_elem?-total xs i (omega arith)

  pub get_elem?-lt : (xs : List A) (i : ℕ) {a : A} → get_elem? xs i ≡ some a → i < length xs
  get_elem?-lt [] i h = absurd (cc)
  get_elem?-lt (x ∷ xs) zero h = omega arith
  get_elem?-lt (x ∷ xs) (suc i) h = omega (arith, get_elem?-lt xs i h)

module _ {ℓ κ} {A : Type ℓ} where
  abbrev pub All : (A → Type κ) → List A → Type κ
  All P [] = Unit
  All P (x ∷ xs) = P x × All P xs

  pub All-append : (P : A → Type κ) (xs ys : List A) → All P xs → All P ys → All P (xs ++ ys)
  All-append P [] ys h k = k
  All-append P (x ∷ xs) ys h k = (h.0, All-append P xs ys h.1 k)

module _ {ℓ} {A : Type ℓ} where
  abbrev pub any : (A → Bool) → List A → Bool
  any p [] = false
  any p (x ∷ xs) = p x || any p xs

  abbrev pub all : (A → Bool) → List A → Bool
  all p [] = true
  all p (x ∷ xs) = p x && all p xs

  -- The first element that passes a test, as a loop with an early return finds it.
  abbrev pub find? : (A → Bool) → List A → Option A
  find? p [] = none
  find? p (x ∷ xs) = let rest = find? p xs in if p x then some x else rest

  abbrev pub filter : (A → Bool) → List A → List A
  filter p [] = []
  filter p (x ∷ xs) = let rest = filter p xs in if p x then x ∷ rest else rest

-- Membership of a text in a list, as a test and as a family.
abbrev pub contains : List String → String → Bool
contains [] a = false
contains (x ∷ xs) a = x == a || contains xs a

pub data In {ℓ} {A : Type ℓ} (a : A) : List A → Type ℓ where
  here : {x : A} {xs : List A} → x ≡ a → In a (x ∷ xs)
  there : {x : A} {xs : List A} → In a xs → In a (x ∷ xs)

pub In-of_contains : (xs : List String) (a : String) → contains xs a ≡ true → In a xs
In-of_contains [] a h = absurd (cc)
In-of_contains (x ∷ xs) a h = elim (Bool-cases (x == a)) [
  | inl e ↦ here (eq_of_true e)
  | inr e ↦ there (In-of_contains xs a (rw e at h))
]

pub In-of_get_elem? {ℓ} :
    {A : Type ℓ} (xs : List A) (i : ℕ) {a : A} → get_elem? xs i ≡ some a → In a xs
In-of_get_elem? [] i h = absurd (cc)
In-of_get_elem? (x ∷ xs) zero h = here (cc)
In-of_get_elem? (x ∷ xs) (suc i) h = there (In-of_get_elem? xs i h)

-- The position of an element.
pub get_elem?_of_In {ℓ} :
    {A : Type ℓ} {a : A} {xs : List A}
    → In a xs
    → (i : ℕ) × (i < length xs) × (get_elem? xs i ≡ some a)
get_elem?_of_In (here e) = (0, omega arith, ap some e)
get_elem?_of_In (there m) = let (i, lt, e) = get_elem?_of_In m in (suc i, omega arith, e)

abbrev pub Distinct {ℓ} : {A : Type ℓ} → List A → Type ℓ
Distinct [] = Unit
Distinct (x ∷ xs) = (¬ In x xs) × Distinct xs

pub contains_of_In : {a : String} {xs : List String} → In a xs → contains xs a ≡ true
contains_of_In {a} (here {x = x} e) = ground (arith, eq_iff x a)
contains_of_In {a} (there {x = x} m) = ground (arith, contains_of_In m)

pub not-In_of_contains : {a : String} (xs : List String) → contains xs a ≡ false → ¬ In a xs
not-In_of_contains xs h m = cc (contains_of_In m)

pub All-apply {ℓ κ} : {A : Type ℓ} (P : A → Type κ) {a : A} (xs : List A) → All P xs → In a xs → P a
All-apply P [] h m = elim m [ ]
All-apply P (x ∷ xs) h (here e) = subst P e h.0
All-apply P (x ∷ xs) h (there m) = All-apply P xs h.1 m

pub filter-All {ℓ κ} :
    {A : Type ℓ} (P : A → Type κ) (p : A → Bool) (xs : List A) → All P xs → All P (filter p xs)
filter-All P p [] h = tt
filter-All P p (x ∷ xs) h = elim (Bool-cases (p x)) [
  | inl e ↦ rw (e) (h.0, filter-All P p xs h.1)
  | inr e ↦ rw (e) (filter-All P p xs h.1)
]
