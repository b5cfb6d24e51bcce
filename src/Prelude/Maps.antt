-- ===== src/Prelude/Maps.antt =====
-- Go maps with text keys, as association lists without a repeated key.
use Prim.Native.String.{String}
use text.Mathlib.TextEquality.{eq_iff}
use text.Mathlib.TextPositions.{eq_refl}
use mathlib.Core.Path.{◌≡◌, refl}
use mathlib.Core.List.{List, [], ◌∷◌}
use mathlib.Core.Option.{Option, none, some}
use native.Mathlib.Omega.{arith}
use kai_resource_management.Prelude.Tests.{◌==◌, if◌then◌else◌}

module _ {ℓ} {V : Type ℓ} where
  -- What the map holds under a key.
  unfoldable pub lookup : String → List (String × V) → Option V
  lookup key [] = none
  lookup key (entry ∷ entries) = if entry.0 == key then some entry.1 else lookup key entries

  -- All entries of the key go, so that the laws below need no invariant.
  unfoldable pub delete : String → List (String × V) → List (String × V)
  delete key [] = []
  delete key (entry ∷ entries) =
      let others = delete key entries in if entry.0 == key then others else entry ∷ others

  unfoldable pub insert : String → V → List (String × V) → List (String × V)
  unfolding delete
  insert key value entries = (key, value) ∷ delete key entries

  pub lookup-nil : (key : String) → lookup key [] ≡ none
  unfolding lookup
  lookup-nil key = refl

  pub lookup-delete :
      (gone key : String) (entries : List (String × V))
      → lookup key (delete gone entries) ≡ (if gone == key then none else lookup key entries)
  unfolding lookup delete
  lookup-delete gone key [] = ground arith
  lookup-delete gone key (entry ∷ entries) = ground (
    arith,
    lookup-delete gone key entries,
    eq_iff entry.0 gone,
    eq_iff entry.0 key,
    eq_iff gone key,
  )

  pub lookup-insert :
      (new key : String) (value : V) (entries : List (String × V))
      → lookup key (insert new value entries)
        ≡ (if new == key then some value else lookup key entries)
  unfolding lookup insert
  lookup-insert new key value entries = ground (arith, lookup-delete new key entries)

-- `m[k]` on a Go map of texts: the zero value for a missing key.
abbrev pub or_empty : Option String → String
or_empty none = ""
or_empty (some v) = v

abbrev pub get_or_empty : String → List (String × String) → String
get_or_empty k m = or_empty (lookup k m)

pub lookup-insert_self {ℓ} :
    {V : Type ℓ} (key : String) (value : V) (entries : List (String × V))
    → lookup key (insert key value entries) ≡ some value
lookup-insert_self key value entries = rw (lookup-insert, eq_refl)

pub lookup-delete_self {ℓ} :
    {V : Type ℓ} (key : String) (entries : List (String × V))
    → lookup key (delete key entries) ≡ none
lookup-delete_self key entries = rw (lookup-delete, eq_refl)
