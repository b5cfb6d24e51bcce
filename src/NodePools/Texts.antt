-- ===== src/NodePools/Texts.antt =====
-- Lists of texts: slices.Sort, strings.Join, and the list helpers of
-- pkg/nodepool-controller/utils/utils.go.
use Prim.Native.String
use Prim.Native.String.{compare as text_compare}
use Prim.Native.Nat.{Ordering}
use kai_resource_management.Prelude.{
  ◌==◌, if◌then◌else◌, is_some, filter, contains, ℕ, zero, suc, String, Bool, true, false, not,
  Option, none, some, List, [], ◌∷◌,
}

abbrev pub text_leb : String → String → Bool
text_leb a b = elim (text_compare a b) [ Ordering.gt ↦ false | _ ↦ true ]

module _ {A : Type 0} (key : A → String) where
  unfoldable pub insert_sorted : A → List A → List A
  insert_sorted a [] = a ∷ []
  insert_sorted a (b ∷ bs) =
      let rest = insert_sorted a bs in if text_leb (key a) (key b) then a ∷ b ∷ bs else b ∷ rest

  unfoldable pub sort_by : List A → List A
  sort_by [] = []
  sort_by (a ∷ as') = insert_sorted a (sort_by as')

abbrev pub sorted : List String → List String
sorted texts = sort_by (λ text. text) texts

abbrev joined : String → String → List String → String → String
joined separator text [] rest = text
joined separator text (_ ∷ _) rest = String.◌++◌ text (String.◌++◌ separator rest)

unfoldable pub join : String → List String → String
join separator [] = ""
join separator (text ∷ texts) = joined separator text texts (join separator texts)

-- `indexOf`, and -1 as none.
unfoldable pub index_of : List String → String → Option ℕ
index_of [] item = none
index_of (element ∷ elements) item =
    let rest = index_of elements item in if element == item then some 0 else after rest
  where
    after : Option ℕ → Option ℕ
    after none = none
    after (some i) = some (suc i)

abbrev pub is_item_in_list : List String → String → Bool
is_item_in_list items item = is_some (index_of items item)

-- The elements behind the index move one place to the left, and the last place goes.
unfoldable pub remove_at : ℕ → List String → List String
remove_at i [] = []
remove_at zero (element ∷ elements) = elements
remove_at (suc i) (element ∷ elements) = element ∷ remove_at i elements

unfoldable pub delete_from_list : List String → String → List String
delete_from_list items item = deleted (index_of items item)
  where
    deleted : Option ℕ → List String
    deleted none = items
    deleted (some i) = remove_at i items

abbrev pub difference : List String → List String → List String
difference first second = filter (λ element. not (contains second element)) first
