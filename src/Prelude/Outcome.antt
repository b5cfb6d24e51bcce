-- ===== src/Prelude/Outcome.antt =====
-- The outcome of a Go call: a value, an error, or a panic (an index out of range).
use Prim.Native.Nat.{ℕ}
use Prim.Native.String.{String}
use mathlib.Core.Path.{◌≡◌, refl}
use mathlib.Core.Bool.{Bool, true, false}
use kai_resource_management.Prelude.Tests.{if◌then◌else◌}
use mathlib.Core.Option.{Option, none, some}

-- The errors that the code tells apart. `failure` is any other error of an API call, `invalid` one
-- that the code makes itself, and `conversion_failed` the NodeAffinityConversionError wrapper, through
-- which the wrapped error's kind does not show.
pub data Err : Type 0 where
  not_found already_exists : Err
  failure : ℕ → Err
  invalid : String → Err
  conversion_failed : Err → Err

pub data Result {ℓ} (A : Type ℓ) : Type ℓ where
  ok : A → Result A
  err : Err → Result A
  panic : Result A

infixl 5 ◌>>=◌
abbrev pub ◌>>=◌ {ℓ κ} : {A : Type ℓ} {B : Type κ} → Result A → (A → Result B) → Result B
ok a >>= f = f a
err e >>= f = err e
panic >>= f = panic

abbrev pub is_not_found : Err → Bool
is_not_found not_found = true
is_not_found _ = false

abbrev pub is_already_exists : Err → Bool
is_already_exists already_exists = true
is_already_exists _ = false

-- An index expression `xs[i]`: out of range it panics.
abbrev pub or_panic {ℓ} : {A : Type ℓ} → Option A → Result A
or_panic none = panic
or_panic (some a) = ok a

-- What holds of the value, where there is one.
abbrev pub OnOk {ℓ κ} : {A : Type ℓ} → (A → Type κ) → Result A → Type κ
OnOk P (ok a) = P a
OnOk P (err e) = Unit
OnOk P panic = Unit

pub OnOk_apply {ℓ κ} :
    {A : Type ℓ} (P : A → Type κ) (r : Result A) {a : A} → OnOk P r → r ≡ ok a → P a
OnOk_apply P r h e = rw e at h

pub OnOk-of {ℓ κ} :
    {A : Type ℓ} (P : A → Type κ) (r : Result A) → ((a : A) → r ≡ ok a → P a) → OnOk P r
OnOk-of P (ok a) h = h a refl
OnOk-of P (err e) h = tt
OnOk-of P panic h = tt

-- The rule for a sequence: each part for each value of the part before.
pub OnOk->>= {ℓ κ μ} :
    {A : Type ℓ} {B : Type κ} (P : B → Type μ) (m : Result A) (f : A → Result B)
    → ((a : A) → m ≡ ok a → OnOk P (f a))
    → OnOk P (m >>= f)
OnOk->>= P (ok a) f h = h a refl
OnOk->>= P (err e) f h = tt
OnOk->>= P panic f h = tt

pub OnOk-if {ℓ κ} :
    {A : Type ℓ} (P : A → Type κ) (b : Bool) (x y : Result A)
    → (b ≡ true → OnOk P x)
    → (b ≡ false → OnOk P y)
    → OnOk P (if b then x else y)
OnOk-if P true x y h k = h refl
OnOk-if P false x y h k = k refl

-- The call ends without a panic.
abbrev pub IsSafe {ℓ} : {A : Type ℓ} → Result A → Type 0
IsSafe (ok a) = Unit
IsSafe (err e) = Unit
IsSafe panic = ⊥

pub >>=-IsSafe {ℓ κ} :
    {A : Type ℓ} {B : Type κ} (m : Result A) (f : A → Result B)
    → IsSafe m
    → ((a : A) → m ≡ ok a → IsSafe (f a))
    → IsSafe (m >>= f)
>>=-IsSafe (ok a) f h k = k a refl
>>=-IsSafe (err e) f h k = tt
>>=-IsSafe panic f h k = h

-- The call returns a value.
abbrev pub IsOk {ℓ} : {A : Type ℓ} → Result A → Type 0
IsOk (ok a) = Unit
IsOk (err e) = ⊥
IsOk panic = ⊥

pub >>=-IsOk {ℓ κ} :
    {A : Type ℓ} {B : Type κ} (m : Result A) (f : A → Result B) (a : A)
    → m ≡ ok a
    → IsOk (f a)
    → IsOk (m >>= f)
>>=-IsOk m f a e h = rw e h

pub value_of {ℓ} : {A : Type ℓ} (r : Result A) → IsOk r → (a : A) × (r ≡ ok a)
value_of (ok a) h = (a, refl)
value_of (err e) h = absurd h
value_of panic h = absurd h
