-- ===== src/Reconcile/Projection.antt =====
-- applyFact of resolve.go and the loop that folds accepted facts into projections.
pub mod Invariant
use deterministic_identity_r.Prelude.{Bool, true, false, Option, none, some, List, [], ◌∷◌}
use deterministic_identity_r.Prelude.Int.{pos}
use deterministic_identity_r.Prelude.Text.{Text}
use deterministic_identity_r.Prelude.Dict.{Dict, lookup, insert, insert_all}
use deterministic_identity_r.Reconcile.Clock.{zero_time}
use deterministic_identity_r.Reconcile.Model.{
  EventType, hire, rehire, data_update, leave, return_from_leave, conversion, transfer, termination,
  LifecycleState, unset, active, on_leave, terminated, CanonicalFact, IdentityProjection,
  FreshnessTuple,
}

abbrev pub zero_freshness : FreshnessTuple
zero_freshness = record {
  source_sequence = pos 0;
  modification_time = zero_time;
  revision_number = pos 0;
  physical_event_key = [];
}

-- `IdentityProjection{SubjectID: id, Attributes: make(map[string]string)}`
abbrev pub new_projection : Text → IdentityProjection
new_projection id = record {
  subject_id = id;
  exists = false;
  enabled = false;
  lifecycle_state = unset;
  attributes = [];
  source_fact_key = [];
  source_event_key = [];
  effective_time = zero_time;
  freshness = zero_freshness;
  row_version = pos 0;
}

-- The switch of applyFact.
unfoldable pub apply_lifecycle : EventType → IdentityProjection → IdentityProjection
apply_lifecycle hire p = record p { exists = true; enabled = true; lifecycle_state = active }
apply_lifecycle rehire p = record p { exists = true; enabled = true; lifecycle_state = active }
apply_lifecycle leave p = record p { exists = true; enabled = false; lifecycle_state = on_leave }
apply_lifecycle return_from_leave p = record p {
  exists = true;
  enabled = true;
  lifecycle_state = active;
}
apply_lifecycle termination p = record p {
  exists = true;
  enabled = false;
  lifecycle_state = terminated;
}
apply_lifecycle data_update p = p
apply_lifecycle conversion p = p
apply_lifecycle transfer p = p

-- applyFact. A nil attribute map is an empty one here, so its allocation is no step.
unfoldable pub apply_fact : IdentityProjection → CanonicalFact → IdentityProjection
unfolding apply_lifecycle
apply_fact p fact =
    let q =
      apply_lifecycle fact.event_type
        (record p { attributes = insert_all fact.attributes p.attributes }) in
    record q {
      source_fact_key = fact.fact_key;
      source_event_key = fact.event_key;
      effective_time = fact.effective_time;
      freshness = fact.freshness;
    }

abbrev pub or_new : Text → Option IdentityProjection → IdentityProjection
or_new id none = new_projection id
or_new id (some p) = p

-- The loop over the accepted facts.
unfoldable pub project : List CanonicalFact → Dict IdentityProjection → Dict IdentityProjection
project [] projections = projections
project (fact ∷ facts) projections =
    let projection = or_new fact.subject_id (lookup fact.subject_id projections) in
    project facts (insert fact.subject_id (apply_fact projection fact) projections)
