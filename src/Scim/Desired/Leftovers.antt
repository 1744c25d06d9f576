-- ===== src/Scim/Desired/Leftovers.antt =====
-- Managed attributes that the target has and the desired state lacks.
use deterministic_identity_r.Prelude.{
  ◌≡◌, refl, ap, inl, inr, Bool, true, false, not, ◌&&◌, none, some, List, [], ◌∷◌, ok,
  refuse_if-eq-ok, Bool-cases, arith,
}
use deterministic_identity_r.Prelude.Text.{Text, text, text_eq, text_eq→≡}
use deterministic_identity_r.Prelude.Text.Case.{Unicode}
use deterministic_identity_r.Prelude.Dict.{Dict, lookup}
use deterministic_identity_r.Reconcile.Model.{bool, ObservedState, DesiredState}
use deterministic_identity_r.Reconcile.Converge.{
  all_entries_in, string_maps_equal, state_equivalent,
}
use deterministic_identity_r.Scim.Config.{Adapter}
use deterministic_identity_r.Scim.Desired.{
  Operation, patch_user, replacements, managed_desired_values, scim_state_equivalent, patch,
}

-- No operation is on this attribute.
abbrev pub untouched : Text → List Operation → Bool
untouched k [] = true
untouched k (operation ∷ operations) = not (text_eq operation.path k) && untouched k operations

all_entries_in-missing :
    (k w : Text) (left right : Dict Text)
    → lookup k left ≡ some w
    → lookup k right ≡ none
    → all_entries_in left right ≡ false
unfolding all_entries_in lookup
all_entries_in-missing k w [] right here missing = absurd (ground (arith))
all_entries_in-missing k w ((j, v) ∷ left) right here missing = elim (Bool-cases (text_eq j k)) [
  | inl same ↦ ground (arith, ap (λ n. lookup n right) (text_eq→≡ j k same), missing)
  | inr apart ↦
      ground (arith, all_entries_in-missing k w left right (rw (lookup, apart) at here) missing)
]

replacements-untouched :
    (k : Text) (values : Dict Text)
    → lookup k values ≡ none
    → untouched k (replacements values) ≡ true
unfolding replacements lookup
replacements-untouched k [] missing = refl
replacements-untouched k ((j, v) ∷ values) missing = ground (arith, replacements-untouched k values)

module _ ⦃u : Unicode⦄ where
  pub patch_operations :
      (a : Adapter) (id version : Text) (enabled : Bool) (attributes values : Dict Text)
      (operations : List Operation)
      → managed_desired_values a attributes ≡ ok values
      → patch a id enabled attributes version ≡ ok (patch_user id operations version)
      → operations ≡ record { path = text "active"; value = bool enabled } ∷ replacements values
  unfolding patch
  patch_operations a id version enabled attributes values operations wanted e =
      let (named, e1) = refuse_if-eq-ok (text_eq id []) _ _ e in let e2 = rw wanted at e1 in cc

  -- When the target has a value for a managed attribute that the desired state lacks, the adapter
  -- does not count the two as equivalent, and the patch that it makes does not touch the
  -- attribute: a target that does what the patch says is found to differ again.
  pub scim_state_equivalent-leftover :
      (a : Adapter) (o : ObservedState) (d : DesiredState) (values : Dict Text)
      (k w id version : Text) (operations : List Operation)
      → d.exists ≡ true
      → managed_desired_values a d.attributes ≡ ok values
      → lookup k o.attributes ≡ some w
      → lookup k values ≡ none
      → text_eq (text "active") k ≡ false
      → patch a id d.enabled d.attributes version ≡ ok (patch_user id operations version)
      → (scim_state_equivalent a o d ≡ false) × (untouched k operations ≡ true)
  unfolding scim_state_equivalent state_equivalent string_maps_equal
  scim_state_equivalent-leftover a o d values k w id version operations exists wanted here missing
        apart patched =
      let differ = all_entries_in-missing k w o.attributes values here missing in
      let is =
        patch_operations a id version d.enabled d.attributes values operations wanted patched in
      (
        ground (arith, differ, exists, wanted),
        rw is (ground (arith, replacements-untouched k values missing)),
      )
