-- ===== src/Scim/Names.antt =====
-- isLetter, validAttributeName, adapterOwnsAttribute, unsafeSubjectAttribute and
-- escapeFilterValue of scim.go.
use deterministic_identity_r.Prelude.{
  ℕ, Bool, true, false, ◌&&◌, ◌||◌, ◌==◌, leb, if◌then◌else◌, List, [], ◌∷◌, ◌++◌,
}
use deterministic_identity_r.Prelude.Text.{Text, text, text_eq}
use deterministic_identity_r.Prelude.Text.Case.{Unicode, to_lower}

unfoldable pub is_letter : ℕ → Bool
is_letter c = (leb b'a' c && leb c b'z') || (leb b'A' c && leb c b'Z')

unfoldable pub is_name_character : ℕ → Bool
unfolding is_letter
is_name_character c =
    is_letter c || (leb b'0' c && leb c b'9') || c == b'_' || c == b'-' || c == b':' || c == b'.'

unfoldable pub all_name_characters : Text → Bool
unfolding is_name_character
all_name_characters [] = true
all_name_characters (c ∷ s) = is_name_character c && all_name_characters s

unfoldable pub valid_attribute_name : Text → Bool
unfolding is_letter all_name_characters
valid_attribute_name [] = false
valid_attribute_name (c ∷ s) = is_letter c && all_name_characters (c ∷ s)

-- `case a, b, ...`
abbrev pub one_of : Text → List Text → Bool
one_of t [] = false
one_of t (name ∷ names) = text_eq t name || one_of t names

module _ ⦃u : Unicode⦄ where
  unfoldable pub adapter_owns_attribute : Text → Bool
  adapter_owns_attribute value = one_of (to_lower value) (
      text "schemas"
      ∷ text "username"
      ∷ text "externalid"
      ∷ text "active"
      ∷ text "id"
      ∷ text "meta"
      ∷ [])

  unfoldable pub unsafe_subject_attribute : Text → Bool
  unsafe_subject_attribute value =
      one_of (to_lower value) (text "schemas" ∷ text "active" ∷ text "id" ∷ text "meta" ∷ [])

-- `strings.ReplaceAll(value, old, new)`, where `old` is one character.
unfoldable pub replace_all : Text → ℕ → Text → Text
replace_all [] old new = []
replace_all (c ∷ s) old new =
    let rest = replace_all s old new in if c == old then new ++ rest else c ∷ rest

abbrev pub backslash : ℕ
backslash = 92

abbrev pub quote : ℕ
quote = 34

unfoldable pub escape_filter_value : Text → Text
unfolding replace_all
escape_filter_value value =
    replace_all (replace_all value backslash (backslash ∷ backslash ∷ [])) quote
      (backslash ∷ quote ∷ [])
