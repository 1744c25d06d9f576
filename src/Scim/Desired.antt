-- ===== src/Scim/Desired.antt =====
-- managedDesiredValues, StateEquivalent, create, patch and Apply of scim.go, with the requests as
-- values.
pub mod Requests
pub mod Leftovers
pub mod Complete
use deterministic_identity_r.Prelude.{
  Bool, true, false, not, ◌||◌, ◌&&◌, if◌then◌else◌, Option, none, some, List, [], ◌∷◌, Result, ok,
  err, ◌>>=◌, ◌>>◌, refuse_if,
}
use deterministic_identity_r.Prelude.Text.{Text, text, text_eq}
use deterministic_identity_r.Prelude.Text.Case.{Unicode, to_lower}
use deterministic_identity_r.Prelude.Dict.{Dict, lookup, insert}
use deterministic_identity_r.Reconcile.Model.{
  Value, bool, string, array, cons, nil, ObservedState, DesiredState,
}
use deterministic_identity_r.Reconcile.Converge.{state_equivalent}
use deterministic_identity_r.Scim.Config.{Adapter, DeprovisionMode, disable, delete}
use deterministic_identity_r.Scim.Responses.{
  Resource, ScimError, same_attribute, id_missing, resource_id, resource_version,
}

-- One replace operation of a patch.
pub record Operation : Type 0 where
  pub path : Text
  pub value : Value

-- The requests that change the target; a version is sent as If-Match unless it is empty.
pub data Request : Type 0 where
  post_user : Resource → Request
  patch_user : Text → List Operation → Text → Request
  delete_user : Text → Text → Request

-- `for key, value := range attributes { user[key] = value }`
unfoldable pub set_all : Dict Text → Resource → Resource
set_all [] user = user
set_all ((key, value) ∷ attributes) user = set_all attributes (insert key (string value) user)

-- The user of create before the managed attributes are set.
abbrev pub new_user : Adapter → DesiredState → Resource
new_user a desired = insert a.subject_attribute (string desired.subject_id) (
    (text "schemas", array (cons (string (text "urn:ietf:params:scim:schemas:core:2.0:User")) nil))
    ∷ (text "userName", string desired.subject_id)
    ∷ (text "externalId", string desired.subject_id)
    ∷ (text "active", bool desired.enabled)
    ∷ [])

unfoldable pub replacements : Dict Text → List Operation
replacements [] = []
replacements ((key, value) ∷ attributes) =
    record { path = key; value = string value } ∷ replacements attributes

abbrev pub is_disable : DeprovisionMode → Bool
is_disable disable = true
is_disable delete = false

module _ ⦃u : Unicode⦄ where
  -- The loop of managedDesiredValues: `seen` holds the names met so far under their lower case.
  unfoldable pub desired_values :
      Dict Text → Dict Text → Dict Text → Dict Text → Result ScimError (Dict Text)
  desired_values managed [] seen values = ok values
  desired_values managed ((attribute, value) ∷ attributes) seen values =
      let normalized = to_lower attribute in
      elim (lookup normalized managed) [
        | none ↦ desired_values managed attributes seen values
        | some canonical ↦ elim (lookup normalized seen) [
          | some previous ↦ err (same_attribute previous attribute)
          | none ↦
              desired_values managed attributes (insert normalized attribute seen)
                (insert canonical value values)
        ]
      ]

  unfoldable pub managed_desired_values : Adapter → Dict Text → Result ScimError (Dict Text)
  managed_desired_values a attributes = desired_values a.managed_attributes attributes [] []

  abbrev pub compare_values : ObservedState → DesiredState → Result ScimError (Dict Text) → Bool
  compare_values observed desired (err e) = false
  compare_values observed desired (ok attributes) =
      state_equivalent observed (record desired { attributes = attributes })

  -- Adapter.StateEquivalent.
  unfoldable pub scim_state_equivalent : Adapter → ObservedState → DesiredState → Bool
  scim_state_equivalent a observed desired =
      if not desired.exists && is_disable a.deprovision_mode
      then not observed.exists || not observed.enabled
      else compare_values observed desired (managed_desired_values a desired.attributes)

  unfoldable pub create : Adapter → DesiredState → Result ScimError Request
  create a desired = do
    attributes ← managed_desired_values a desired.attributes
    ok (post_user (set_all attributes (new_user a desired)))

  unfoldable pub patch : Adapter → Text → Bool → Dict Text → Text → Result ScimError Request
  patch a id enabled attributes version = do
    refuse_if (text_eq id []) id_missing
    values ← managed_desired_values a attributes
    ok (
        patch_user id (record { path = text "active"; value = bool enabled } ∷ replacements values)
          version)

  -- The request that Apply makes once find has answered, if any.
  unfoldable pub request_of :
      Adapter → DesiredState → Option Resource → Result ScimError (Option Request)
  request_of a desired none =
      if desired.exists then (create a desired >>= λ r. ok (some r)) else ok none
  request_of a desired (some resource) = do
    id ← resource_id resource
    version ← resource_version resource
    if desired.exists
        then (patch a id desired.enabled desired.attributes version >>= λ r. ok (some r))
        else (if is_disable a.deprovision_mode
            then (patch a id false [] version >>= λ r. ok (some r))
            else ok (some (delete_user id version)))
