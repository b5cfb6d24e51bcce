-- ===== src/Effects/Keeping.antt =====
-- Rules for calls that do not panic and keep an invariant of the state, whatever they give.
use kai_resource_management.Prelude.{
  if◌then◌else◌, Result, ok, err, panic, OnOk-of, IsSafe, ◌≡◌, Bool, true, false,
}
use kai_resource_management.Effects.{Effect, ◌>>=◌, give, caught, attempt}
use kai_resource_management.Effects.Rules.{Ends, Runs, Runs->>=, Runs-give, Runs-if}

module _ {S : Type 0} (Inv : S → Type 0) where
  abbrev pub Keeps : {A : Type 0} → Effect S A → Type 0
  Keeps m = Runs Inv (λ _. Unit) m

  pub give-Keeps : {A : Type 0} (r : Result A) → IsSafe r → Keeps (give r)
  give-Keeps r safe = Runs-give Inv (λ _. Unit) r safe (OnOk-of _ r (λ _ _. tt))

  pub then-Keeps :
      {A B : Type 0} (m : Effect S A) (f : A → Effect S B)
      → Keeps m
      → ((a : A) → Keeps (f a))
      → Keeps (m >>= f)
  then-Keeps m f h k = Runs->>= Inv (λ _. Unit) (λ _. Unit) m f h (λ a _. k a)

  pub if-Keeps :
      {A : Type 0} (b : Bool) (m n : Effect S A)
      → (b ≡ true → Keeps m)
      → (b ≡ false → Keeps n)
      → Keeps (if b then m else n)
  if-Keeps b m n h k = Runs-if Inv (λ _. Unit) b m n h k

  pub attempt-Runs :
      {A : Type 0} (m : Effect S A) → Keeps m → Runs Inv {A = Result A} (λ r. IsSafe r) (attempt m)
  attempt-Runs {A} m h s i = of_end (m s) (h s i)
    where
      of_end :
          (r : Result A × S) → Ends Inv (λ _. Unit) r → Ends Inv (λ x. IsSafe x) (caught r.0, r.1)
      of_end (ok a, s) k = k
      of_end (err e, s) k = (k, tt)
      of_end (panic, s) k = k

  -- What comes after a caught call sees its outcome, which is no panic.
  pub attempt-Keeps :
      {A B : Type 0} (m : Effect S A) (f : Result A → Effect S B)
      → Keeps m
      → ((r : Result A) → IsSafe r → Keeps (f r))
      → Keeps (attempt m >>= f)
  attempt-Keeps m f h k =
      Runs->>= Inv (λ r. IsSafe r) (λ _. Unit) (attempt m) f (attempt-Runs m h) k
