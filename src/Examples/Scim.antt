-- ===== src/Examples/Scim.antt =====
-- A configured SCIM adapter and what it asks for.
use mathlib.Core.List.{Mem}
use deterministic_identity_r.Prelude.{◌≡◌, refl, true, false, Option, some, List, [], ◌∷◌, ◌++◌, ok}
use deterministic_identity_r.Prelude.Text.{Text, text, text_eq, trim_space}
use deterministic_identity_r.Prelude.Text.Case.{
  to_lower, lower_rune, lower_ascii, equal_fold, fold_rune,
}
use deterministic_identity_r.Prelude.Dict.{lookup, insert, has_key}
use deterministic_identity_r.Reconcile.Model.{bool, string, DesiredState}
use deterministic_identity_r.Reconcile.Projection.{new_projection}
use deterministic_identity_r.Scim.Names.{
  valid_attribute_name, adapter_owns_attribute, unsafe_subject_attribute, quote,
  escape_filter_value,
}
use deterministic_identity_r.Scim.Filter.{read_value, read_value-escape_filter_value}
use deterministic_identity_r.Scim.Config.{
  Url, Config, Adapter, delete, new, add_managed, parse_mode,
}
use deterministic_identity_r.Scim.Config.Managed.{Sound, new-AllManaged}
use deterministic_identity_r.Scim.Responses.{Resource}
use deterministic_identity_r.Scim.Desired.{
  Operation, post_user, patch_user, patch, replacements, create, set_all, new_user, desired_values,
  managed_desired_values,
}
use deterministic_identity_r.Scim.Desired.Complete.{replace_by, patch-complete}
use deterministic_identity_r.Scim.Desired.Requests.{create-bound}
use deterministic_identity_r.Examples.{ascii}

read_value-escape_filter_value_example :
    read_value false (escape_filter_value (text "a\"b") ++ (quote ∷ text ")"))
    ≡ some (text "a\"b", text ")")
read_value-escape_filter_value_example = read_value-escape_filter_value (text "a\"b") (text ")")

abbrev target_url : Url
target_url = record {
  scheme = text "https";
  host = text "h";
  raw_query = [];
  fragment = [];
  path = [];
  raw_path = [];
}

abbrev parse_url : Text → Option Url
parse_url t = some target_url

abbrev config : Config
config = record {
  base_url = text "https://h";
  token = [];
  subject_attribute = [];
  managed_attributes = text " Title" ∷ [];
  deprovision_mode = text "delete";
}

abbrev adapter : Adapter
adapter = record {
  base_url = target_url;
  token = [];
  subject_attribute = text "externalId";
  managed_attributes = (text "title", text "Title") ∷ [];
  deprovision_mode = delete;
}

configured : new parse_url config ≡ ok adapter
unfolding new parse_mode add_managed trim_space text_eq valid_attribute_name equal_fold fold_rune
    adapter_owns_attribute unsafe_subject_attribute to_lower lower_rune lower_ascii has_key insert
configured = refl

new-AllManaged_example : Sound adapter
new-AllManaged_example = new-AllManaged parse_url config adapter configured

abbrev wanted : DesiredState
wanted = record (new_projection (text "u")) {
  exists = true;
  enabled = true;
  attributes = (text "TITLE", text "x") ∷ [];
}

abbrev created : Resource
created = set_all ((text "Title", text "x") ∷ []) (new_user adapter wanted)

creating : create adapter wanted ≡ ok (post_user created)
unfolding create managed_desired_values desired_values lookup to_lower lower_rune lower_ascii
    text_eq insert
creating = refl

external_id-safe : unsafe_subject_attribute adapter.subject_attribute ≡ false
unfolding unsafe_subject_attribute to_lower lower_rune lower_ascii text_eq
external_id-safe = refl

create-bound_example :
    (lookup adapter.subject_attribute created ≡ some (string wanted.subject_id))
    × (lookup (text "active") created ≡ some (bool wanted.enabled))
create-bound_example =
    create-bound adapter wanted created (new-AllManaged parse_url config adapter configured).2
      external_id-safe creating

abbrev titled : List Operation
titled =
    record { path = text "active"; value = bool true } ∷ replace_by (text "Title") (text "x") ∷ []

patched : patch adapter (text "7") true wanted.attributes [] ≡ ok (patch_user (text "7") titled [])
unfolding patch managed_desired_values desired_values replacements lookup to_lower lower_rune
    lower_ascii text_eq insert
patched = refl

patch-complete_example : Mem (replace_by (text "Title") (text "x")) titled
unfolding lookup to_lower lower_rune lower_ascii text_eq
patch-complete_example =
    patch-complete adapter (text "7") [] true wanted.attributes titled (text "TITLE") (text "x")
      (text "Title") (new-AllManaged parse_url config adapter configured).2 patched refl refl
