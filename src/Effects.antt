-- ===== src/Effects.antt =====
-- Calls that change a state, which outlives their errors: a state monad over the outcome of a Go call.
pub mod Rules
pub mod Keeping
use kai_resource_management.Prelude.{Result, ok, err, panic}

abbrev pub Effect {ℓ} : Type 0 → Type ℓ → Type ℓ
Effect S A = S → Result A × S

abbrev pub continue {ℓ κ} :
    {S : Type 0} {A : Type ℓ} {B : Type κ} → Result A → (A → Effect S B) → Effect S B
continue (ok a) f s = f a s
continue (err e) f s = (err e, s)
continue panic f s = (panic, s)

infixl 5 ◌>>=◌ ◌>>◌
abbrev pub ◌>>=◌ {ℓ κ} :
    {S : Type 0} {A : Type ℓ} {B : Type κ} → Effect S A → (A → Effect S B) → Effect S B
◌>>=◌ m f s = let (r, s') = m s in continue r f s'

abbrev pub ◌>>◌ {ℓ κ} :
    {S : Type 0} {A : Type ℓ} {B : Type κ} → Effect S A → Effect S B → Effect S B
m >> k = m >>= λ _. k

abbrev pub give {ℓ} : {S : Type 0} {A : Type ℓ} → Result A → Effect S A
give r s = (r, s)

-- An error becomes a value, so that the caller can go on and gather it.
abbrev pub caught {ℓ} : {A : Type ℓ} → Result A → Result (Result A)
caught (ok a) = ok (ok a)
caught (err e) = ok (err e)
caught panic = panic

abbrev pub attempt {ℓ} : {S : Type 0} {A : Type ℓ} → Effect S A → Effect S (Result A)
attempt m s = let (r, s') = m s in (caught r, s')
