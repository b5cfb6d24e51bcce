-- ===== src/Effects/Rules.antt =====
-- Rules for what an effectful call leaves behind: it does not panic, an invariant of the state holds
-- whether it fails or not, and a postcondition holds of its value.
use kai_resource_management.Prelude.{
  if◌then◌else◌, Result, ok, err, panic, OnOk, IsSafe, ◌≡◌, refl, Bool, true, false,
}
use kai_resource_management.Effects.{Effect, continue, ◌>>=◌, give}

module _ {S : Type 0} (Inv : S → Type 0) where
  abbrev pub Ends : {A : Type 0} → (A → Type 0) → Result A × S → Type 0
  Ends P (ok a, s) = Inv s × P a
  Ends P (err e, s) = Inv s
  Ends P (panic, s) = ⊥

  abbrev pub Runs : {A : Type 0} → (A → Type 0) → Effect S A → Type 0
  Runs P m = (s : S) → Inv s → Ends P (m s)

  pub continue-Ends :
      {A B : Type 0} (P : A → Type 0) (Q : B → Type 0) (r : Result A × S) (f : A → Effect S B)
      → Ends P r
      → ((a : A) → P a → Runs Q (f a))
      → Ends Q (continue r.0 f r.1)
  continue-Ends P Q (ok a, s) f h k = k a h.1 s h.0
  continue-Ends P Q (err e, s) f h k = h
  continue-Ends P Q (panic, s) f h k = h

  pub Runs->>= :
      {A B : Type 0} (P : A → Type 0) (Q : B → Type 0) (m : Effect S A) (f : A → Effect S B)
      → Runs P m
      → ((a : A) → P a → Runs Q (f a))
      → Runs Q (m >>= f)
  Runs->>= P Q m f h k s i = continue-Ends P Q (m s) f (h s i) k

  pub Runs-give :
      {A : Type 0} (P : A → Type 0) (r : Result A) → IsSafe r → OnOk P r → Runs P (give r)
  Runs-give P (ok a) h k s i = (i, k)
  Runs-give P (err e) h k s i = i
  Runs-give P panic h k s i = h

  pub Runs-if :
      {A : Type 0} (P : A → Type 0) (b : Bool) (m n : Effect S A)
      → (b ≡ true → Runs P m)
      → (b ≡ false → Runs P n)
      → Runs P (if b then m else n)
  Runs-if P true m n h k = h refl
  Runs-if P false m n h k = k refl
