-- ===== src/Scim/Responses.antt =====
-- What the adapter reads of a SCIM response: responseAttribute, resourceID, resourceVersion,
-- scimActive, scalarString and managedValues, and the checks of find and Observe.
pub mod Order
use deterministic_identity_r.Prelude.{
  ℕ, Bool, true, false, not, if◌then◌else◌, Option, none, some, List, [], ◌∷◌, Result, ok, err,
  ◌>>=◌, ◌>>◌, refuse_if,
}
use deterministic_identity_r.Prelude.Int.{ℤ, pos, ltb_ℤ, eq_ℤ}
use deterministic_identity_r.Prelude.Text.{Text, text, text_eq, trim_space}
use deterministic_identity_r.Prelude.Text.Case.{Unicode, equal_fold}
use deterministic_identity_r.Prelude.Dict.{Dict, insert}
use deterministic_identity_r.Reconcile.Model.{
  Value, bool, string, number, object, entries, ObservedState,
}
use deterministic_identity_r.Reconcile.Converge.{length}

-- A decoded JSON object.
abbrev pub Resource : Type 0
Resource = Dict Value

pub data ScimError : Type 0 where
  ambiguous_attribute : Text → ScimError
  meta_not_object version_not_string active_not_boolean : ScimError
  subject_required total_required more_than_one incomplete_list id_missing : ScimError
  encode_failed build_failed send_failed decode_failed : ScimError
  status_error : ℕ → ScimError
  same_attribute : Text → Text → ScimError

-- `id, _ := value.(string)`
abbrev pub string_or_empty : Option Value → Text
string_or_empty (some (string s)) = s
string_or_empty _ = []

abbrev pub version_text : Option Value → Result ScimError Text
version_text none = ok []
version_text (some (string version)) = ok (trim_space version)
version_text (some _) = err version_not_string

abbrev pub active_flag : Option Value → Result ScimError Bool
active_flag none = ok true
active_flag (some (bool active)) = ok active
active_flag (some _) = err active_not_boolean

unfoldable pub scalar_string : Option Value → Option Text
scalar_string (some (string s)) = some s
scalar_string (some (bool true)) = some (text "true")
scalar_string (some (bool false)) = some (text "false")
scalar_string (some (number s)) = some s
scalar_string _ = none

abbrev pub put_scalar : Text → Option Text → Dict Text → Dict Text
put_scalar attribute none values = values
put_scalar attribute (some value) values = insert attribute value values

-- The body of a list response.
pub record ListResponse : Type 0 where
  pub total_results : Option ℤ
  pub resources : List Resource

abbrev pub checked_total : Option ℤ → Result ScimError ℤ
checked_total none = err total_required
checked_total (some n) = if ltb_ℤ n (pos 0) then err total_required else ok n

module _ ⦃u : Unicode⦄ where
  -- The loop of responseAttribute, with what it has found.
  unfoldable pub response_attribute_from :
      Resource → Text → Option Value → Result ScimError (Option Value)
  response_attribute_from [] attribute found = ok found
  response_attribute_from ((key, candidate) ∷ resource) attribute found =
      let with_candidate = response_attribute_from resource attribute (some candidate) in
      let without = response_attribute_from resource attribute found in
      if not (equal_fold key attribute)
      then without
      else elim found [ some _ ↦ err (ambiguous_attribute attribute) | none ↦ with_candidate ]

  -- responseAttribute: `none` if it is not found.
  unfoldable pub response_attribute : Resource → Text → Result ScimError (Option Value)
  response_attribute resource attribute = response_attribute_from resource attribute none

  unfoldable pub resource_id : Resource → Result ScimError Text
  resource_id resource = do
    value ← response_attribute resource (text "id")
    ok (trim_space (string_or_empty value))

  abbrev pub version_of_meta : Option Value → Result ScimError Text
  version_of_meta none = ok []
  version_of_meta (some (object meta)) =
      response_attribute (entries meta) (text "version") >>= version_text
  version_of_meta (some _) = err meta_not_object

  unfoldable pub resource_version : Resource → Result ScimError Text
  resource_version resource = response_attribute resource (text "meta") >>= version_of_meta

  unfoldable pub scim_active : Resource → Result ScimError Bool
  scim_active resource = response_attribute resource (text "active") >>= active_flag

  -- The loop of managedValues over the managed attributes.
  unfoldable pub managed_values : Dict Text → Resource → Dict Text → Result ScimError (Dict Text)
  managed_values [] resource values = ok values
  managed_values ((_, attribute) ∷ managed) resource values =
      response_attribute resource attribute >>= λ candidate.
      managed_values managed resource (put_scalar attribute (scalar_string candidate) values)

  abbrev pub first_resource : List Resource → Result ScimError (Option Resource)
  first_resource [] = ok none
  first_resource (resource ∷ _) =
      resource_id resource >>= λ id. refuse_if (text_eq id []) id_missing >> ok (some resource)

  -- What find makes of the response.
  unfoldable pub found_resource : ListResponse → Result ScimError (Option Resource)
  found_resource response = do
    total ← checked_total response.total_results
    refuse_if (ltb_ℤ (pos 1) total) more_than_one
    refuse_if (not (eq_ℤ total (pos (length response.resources)))) incomplete_list
    first_resource response.resources

  -- What Observe makes of the resource.
  unfoldable pub observed_of : Dict Text → Option Resource → Result ScimError ObservedState
  observed_of managed none = ok (record { exists = false; enabled = false; attributes = [] })
  observed_of managed (some resource) = do
    active ← scim_active resource
    attributes ← managed_values managed resource []
    ok (record { exists = true; enabled = active; attributes = attributes })
