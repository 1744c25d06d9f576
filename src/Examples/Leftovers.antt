-- ===== src/Examples/Leftovers.antt =====
-- A user that has a title, for a projection without one.
use deterministic_identity_r.Prelude.{◌≡◌, refl, true, false, [], ◌∷◌, List, ok}
use deterministic_identity_r.Prelude.Text.{text, text_eq}
use deterministic_identity_r.Prelude.Dict.{lookup}
use deterministic_identity_r.Reconcile.Model.{bool, ObservedState, DesiredState}
use deterministic_identity_r.Reconcile.Projection.{new_projection}
use deterministic_identity_r.Scim.Config.{Adapter, disable}
use deterministic_identity_r.Scim.Desired.{
  Operation, patch_user, patch, managed_desired_values, desired_values, replacements,
  scim_state_equivalent,
}
use deterministic_identity_r.Scim.Desired.Leftovers.{untouched, scim_state_equivalent-leftover}
use deterministic_identity_r.Examples.{ascii}

abbrev adapter : Adapter
adapter = record {
  base_url = record {
    scheme = text "https";
    host = text "h";
    raw_query = [];
    fragment = [];
    path = [];
    raw_path = [];
  };
  token = [];
  subject_attribute = text "externalId";
  managed_attributes = (text "title", text "Title") ∷ [];
  deprovision_mode = disable;
}

abbrev titled : ObservedState
titled = record { exists = true; enabled = true; attributes = (text "Title", text "old") ∷ [] }

abbrev wanted : DesiredState
wanted = record (new_projection (text "u")) { exists = true; enabled = true }

abbrev enabling : List Operation
enabling = record { path = text "active"; value = bool true } ∷ []

nothing_wanted : managed_desired_values adapter wanted.attributes ≡ ok []
unfolding managed_desired_values desired_values
nothing_wanted = refl

patched : patch adapter (text "7") true [] [] ≡ ok (patch_user (text "7") enabling [])
unfolding patch managed_desired_values desired_values replacements text_eq
patched = refl

scim_state_equivalent-leftover_example :
    (scim_state_equivalent adapter titled wanted ≡ false)
    × (untouched (text "Title") enabling ≡ true)
unfolding lookup text_eq
scim_state_equivalent-leftover_example =
    scim_state_equivalent-leftover adapter titled wanted [] (text "Title") (text "old") (text "7")
      [] enabling refl nothing_wanted refl refl refl patched
