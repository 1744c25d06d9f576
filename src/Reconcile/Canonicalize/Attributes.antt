-- ===== src/Reconcile/Canonicalize/Attributes.antt =====
-- attributesFromPayload and scalarString of canonicalize.go.
use deterministic_identity_r.Prelude.{
  Bool, true, false, if◌then◌else◌, Option, none, some, List, [], ◌∷◌, map, Result, ok, err,
}
use deterministic_identity_r.Prelude.Text.{Text, text, text_eq, text_ltb, trim_space}
use deterministic_identity_r.Prelude.Dict.{Dict, lookup, insert, keys}
use deterministic_identity_r.Prelude.Sort.{Sorter}
use deterministic_identity_r.Reconcile.Model.{
  Value, Fields, entries, bool, string, number, float, object, string_map, Error,
  attribute_name_empty, attribute_names_collide,
}
use deterministic_identity_r.Reconcile.Platform.{Platform}

-- strconv.FormatBool
abbrev pub bool_text : Bool → Text
bool_text true = text "true"
bool_text false = text "false"

-- The values of the "attributes" entry. What is no map has none.
unfoldable pub attribute_values : Value → Dict Value
attribute_values (object fields) = entries fields
attribute_values (string_map m) = map (λ e. (e.0, string e.1)) m
attribute_values _ = []

-- `if normalized, ok := scalar; ok { attributes[name] = normalized }`
abbrev pub store_scalar : Text → Option Text → Dict Text → Dict Text
store_scalar name none attributes = attributes
store_scalar name (some scalar) attributes = insert name scalar attributes

module _ ⦃p : Platform⦄ where
  unfoldable pub scalar_string : Value → Option Text
  scalar_string (string s) = some s
  scalar_string (bool b) = some (bool_text b)
  scalar_string (float bits) = some (p.format_float bits)
  scalar_string (number spelling) = some spelling
  scalar_string _ = none

  -- `scalarString(values[key])`; a missing key reads as nil, which is no scalar.
  unfoldable pub scalar_at : Text → Dict Value → Option Text
  scalar_at key values = elim (lookup key values) [ none ↦ none | some v ↦ scalar_string v ]

  -- The loop over the sorted keys.
  unfoldable pub collect_attributes :
      List Text → Dict Value → Dict Text → Dict Text → Result Error (Dict Text)
  collect_attributes [] values seen attributes = ok attributes
  collect_attributes (key ∷ rest) values seen attributes =
      let name = trim_space key in
      let next =
        collect_attributes rest values (insert name key seen)
          (store_scalar name (scalar_at key values) attributes) in
      if text_eq name [] then err (attribute_name_empty key) else elim (lookup name seen) [
        | some previous ↦ err (attribute_names_collide previous key name)
        | none ↦ next
      ]

  module _ ⦃s : Sorter⦄ where
    -- The attributes of a map of values: its keys in lexical order, then the loop.
    unfoldable pub attributes_from_values : Dict Value → Result Error (Dict Text)
    attributes_from_values values =
        collect_attributes (s.sort_slice text_ltb (keys values)) values [] []

    unfoldable pub attributes_from_payload : Fields → Result Error (Dict Text)
    attributes_from_payload payload = elim (lookup (text "attributes") (entries payload)) [
      | none ↦ ok []
      | some raw ↦ attributes_from_values (attribute_values raw)
    ]
