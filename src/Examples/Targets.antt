-- ===== src/Examples/Targets.antt =====
-- A target that keeps one account, and maps of attributes.
use deterministic_identity_r.Prelude.{◌≡◌, ◌↔◌, refl, ◌&&◌, true, false, some, [], ◌∷◌, ok}
use deterministic_identity_r.Prelude.Text.{Text, text, text_eq}
use deterministic_identity_r.Prelude.Dict.{Dict, IsUnique, has_key}
use deterministic_identity_r.Reconcile.Model.{ObservedState, DesiredState}
use deterministic_identity_r.Reconcile.Projection.{new_projection}
use deterministic_identity_r.Reconcile.Converge.{TargetAdapter, bool_eq, state_equivalent}
use deterministic_identity_r.Reconcile.Converge.Equality.{state_equivalent_iff, LooksAlike}

abbrev site_team : Dict Text
site_team = (text "site", text "x") ∷ (text "team", text "y") ∷ []

abbrev team_site : Dict Text
team_site = (text "team", text "y") ∷ (text "site", text "x") ∷ []

site_team-IsUnique : IsUnique site_team
unfolding has_key text_eq
site_team-IsUnique = (refl, (refl, tt))

team_site-IsUnique : IsUnique team_site
unfolding has_key text_eq
team_site-IsUnique = (refl, (refl, tt))

abbrev pub absent : ObservedState
absent = record { exists = false; enabled = false; attributes = [] }

abbrev wanted : DesiredState
wanted = record (new_projection (text "u")) {
  exists = true;
  enabled = true;
  attributes = team_site;
}

abbrev pub seen : ObservedState
seen = record { exists = true; enabled = true; attributes = site_team }

state_equivalent_iff_example : (state_equivalent seen wanted ≡ true) ↔ LooksAlike seen wanted
state_equivalent_iff_example =
    state_equivalent_iff seen wanted site_team-IsUnique team_site-IsUnique

-- The target takes over what it is asked for.
abbrev pub account : TargetAdapter ObservedState Text
account = record {
  observe = λ id s. (ok s, s);
  apply =
      λ d s. (ok tt, record { exists = d.exists; enabled = d.enabled; attributes = d.attributes });
  comparator = some (λ o d. bool_eq o.exists d.exists && bool_eq o.enabled d.enabled);
}
