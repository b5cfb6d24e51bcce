-- ===== src/Converter/Text.antt =====
-- strings.Split and strings.Join of Go's standard library, with a space between the parts.
use Prim.Native.Char.{Char, code}
use text.Mathlib.TextEquality.{Char-path}
use text.Mathlib.TextLemmas.{
  nil-append, cons-append, append_assoc as text_assoc, append-nil as text_nil,
}
use Prim.Native.String.{[] as empty, ◌∷◌ as char_cons}
use Prim.Native.String
use kai_resource_management.Prelude.{
  nat_eq, if◌then◌else◌, Bool-cases, All, String, ◌≡◌, refl, sym, ap, ◌∙◌, ◌≢◌, inl, inr, true,
  List, [], ◌∷◌, arith,
}

abbrev pub push : String → Char → String
push s c = String.◌++◌ s (String.◌∷◌ c String.[])

-- The parts of `s`, when `cur` has been read of the first one.
unfoldable pub split_from : String → String → List String
split_from cur String.[] = cur ∷ []
split_from cur (String.◌∷◌ c s) =
    let closed = cur ∷ split_from "" s in
    let longer = split_from (push cur c) s in if nat_eq (code c) 32 then closed else longer

unfoldable pub split_spaces : String → List String
unfolding split_from
split_spaces s = split_from "" s

unfoldable pub join_spaces : List String → String
join_spaces [] = ""
join_spaces (x ∷ []) = x
join_spaces (x ∷ y ∷ ys) = String.◌++◌ x (String.◌++◌ " " (join_spaces (y ∷ ys)))

pub split_from-ne-nil : (cur s : String) → split_from cur s ≢ []
unfolding split_from
split_from-ne-nil cur String.[] = λ e. cc
split_from-ne-nil cur (String.◌∷◌ c s) = ground (arith, split_from-ne-nil (push cur c) s)

single_append : (c : Char) (s : String) → String.◌++◌ (String.◌∷◌ c String.[]) s ≡ String.◌∷◌ c s
single_append c s = cons-append c String.[] s ∙ ap (String.◌∷◌ c) (nil-append s)

space_append :
    (c : Char) (s : String) → nat_eq (code c) 32 ≡ true → String.◌++◌ " " s ≡ String.◌∷◌ c s
space_append c s e =
    let same : c ≡ " " = Char-path c " " (ground arith) in rw same (single_append " " s)

join_spaces-cons :
    (x : String) (xs : List String)
    → xs ≢ []
    → join_spaces (x ∷ xs) ≡ String.◌++◌ x (String.◌++◌ " " (join_spaces xs))
unfolding join_spaces
join_spaces-cons x [] h = absurd (h refl)
join_spaces-cons x (y ∷ ys) h = refl

join_spaces-split_from : (cur s : String) → join_spaces (split_from cur s) ≡ String.◌++◌ cur s
unfolding split_from join_spaces
join_spaces-split_from cur String.[] = sym (text_nil cur)
join_spaces-split_from cur (String.◌∷◌ c s) = elim (Bool-cases (nat_eq (code c) 32)) [
  | inl e ↦ rw e (
      join_spaces-cons cur (split_from "" s) (split_from-ne-nil "" s)
      ∙ ap (λ t. String.◌++◌ cur (String.◌++◌ " " t)) (join_spaces-split_from "" s ∙ nil-append s)
      ∙ ap (String.◌++◌ cur) (space_append c s e))
  | inr e ↦ rw e (
      join_spaces-split_from (push cur c) s
      ∙ text_assoc cur (String.◌∷◌ c String.[]) s
      ∙ ap (String.◌++◌ cur) (single_append c s))
]

-- Joined by spaces, the parts of a text are that text.
pub join_spaces-split_spaces : (s : String) → join_spaces (split_spaces s) ≡ s
unfolding split_spaces
join_spaces-split_spaces s = join_spaces-split_from "" s ∙ nil-append s

abbrev pub HasNoSpace : String → Type 0
HasNoSpace String.[] = Unit
HasNoSpace (String.◌∷◌ c s) = (code c ≢ 32) × HasNoSpace s

HasNoSpace-push : (s : String) (c : Char) → HasNoSpace s → code c ≢ 32 → HasNoSpace (push s c)
HasNoSpace-push String.[] c h p = rw nil-append (p, tt)
HasNoSpace-push (String.◌∷◌ d s) c h p = rw cons-append (h.0, HasNoSpace-push s c h.1 p)

split_from-HasNoSpace : (cur s : String) → HasNoSpace cur → All HasNoSpace (split_from cur s)
unfolding split_from
split_from-HasNoSpace cur String.[] h = (h, tt)
split_from-HasNoSpace cur (String.◌∷◌ c s) h = ground (
  arith,
  split_from-HasNoSpace "" s tt,
  split_from-HasNoSpace (push cur c) s,
  HasNoSpace-push cur c h,
)

pub split_spaces-HasNoSpace : (s : String) → All HasNoSpace (split_spaces s)
unfolding split_spaces
split_spaces-HasNoSpace s = split_from-HasNoSpace "" s tt

pub split_spaces-ne-nil : (s : String) → split_spaces s ≢ []
unfolding split_spaces
split_spaces-ne-nil s = split_from-ne-nil "" s
