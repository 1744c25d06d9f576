-- ===== src/Scim/Service.antt =====
-- find, Observe and Apply of scim.go over a SCIM service, and the adapter as a target.
pub mod Deprovision
use deterministic_identity_r.Prelude.{
  Bool, true, false, if◌then◌else◌, Option, none, some, List, [], ◌∷◌, ◌++◌, Result, ok, err, ◌>>=◌,
}
use deterministic_identity_r.Prelude.Text.{Text, text, text_eq, trim_space}
use deterministic_identity_r.Prelude.Text.Case.{Unicode}
use deterministic_identity_r.Reconcile.Model.{ObservedState, DesiredState}
use deterministic_identity_r.Reconcile.Converge.{TargetAdapter}
use deterministic_identity_r.Scim.Names.{quote, escape_filter_value}
use deterministic_identity_r.Scim.Config.{Adapter}
use deterministic_identity_r.Scim.Responses.{
  Resource, ScimError, subject_required, ListResponse, found_resource, observed_of,
}
use deterministic_identity_r.Scim.Desired.{Request, request_of, scim_state_equivalent}

-- The requests as the service answers them: a search by filter, and a change. A request that
-- fails on its way, or is answered with another status than success, is an error.
pub record Service (S : Type 0) : Type 0 where
  pub list_users : Text → S → Result ScimError ListResponse × S
  pub send : Request → S → Result ScimError (Unit {0}) × S

-- `%s eq "%s"`
unfoldable pub filter_of : Adapter → Text → Text
filter_of a subject_id =
    a.subject_attribute ++ text " eq " ++ (quote ∷ escape_filter_value subject_id) ++ (quote ∷ [])

module _ ⦃u : Unicode⦄ {S : Type 0} (service : Service S) (a : Adapter) where
  abbrev pub select : Result ScimError ListResponse × S → Result ScimError (Option Resource) × S
  select (r, s) = (r >>= found_resource, s)

  unfoldable pub find : Text → S → Result ScimError (Option Resource) × S
  find subject_id s =
      if text_eq (trim_space subject_id) []
      then (err subject_required, s)
      else select (service.list_users (filter_of a subject_id) s)

  abbrev pub observed_from :
      Result ScimError (Option Resource) × S → Result ScimError ObservedState × S
  observed_from (r, s) = (r >>= observed_of a.managed_attributes, s)

  unfoldable pub observe : Text → S → Result ScimError ObservedState × S
  observe subject_id s = observed_from (find subject_id s)

  abbrev pub send_request : Result ScimError (Option Request) → S → Result ScimError (Unit {0}) × S
  send_request (err e) s = (err e, s)
  send_request (ok none) s = (ok tt, s)
  send_request (ok (some request)) s = service.send request s

  abbrev pub apply_to :
      DesiredState → Result ScimError (Option Resource) × S → Result ScimError (Unit {0}) × S
  apply_to desired (err e, s) = (err e, s)
  apply_to desired (ok resource, s) = send_request (request_of a desired resource) s

  unfoldable pub apply : DesiredState → S → Result ScimError (Unit {0}) × S
  apply desired s = apply_to desired (find desired.subject_id s)

  -- The adapter as Converge uses it, with its own comparison.
  unfoldable pub scim_target : TargetAdapter S ScimError
  scim_target = record {
    observe = observe;
    apply = apply;
    comparator = some (scim_state_equivalent a);
  }
