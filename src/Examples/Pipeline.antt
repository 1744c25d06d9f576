-- ===== src/Examples/Pipeline.antt =====
-- A batch on its way into the store, and a resource in two orders.
use mathlib.Core.List.Perm
use deterministic_identity_r.Prelude.{◌≡◌, refl, true, false, some, none, [], ◌∷◌, ok}
use deterministic_identity_r.Prelude.Int.{pos}
use deterministic_identity_r.Prelude.Text.{Text, text}
use deterministic_identity_r.Prelude.Dict.{Dict, lookup}
use deterministic_identity_r.Reconcile.Model.{string, source_scope_name, event_type_name}
use deterministic_identity_r.Reconcile.Projection.{apply_fact}
use deterministic_identity_r.Prelude.Dict.{insert_all}
use deterministic_identity_r.Postgres.Tables.{answered}
use deterministic_identity_r.Postgres.Projections.{
  compare_and_set_projection, load_projection, projection_has_nul,
}
use deterministic_identity_r.Postgres.Projections.Progress.{as_stored}
use deterministic_identity_r.Postgres.Statements.{has_nul, any_nul}
use deterministic_identity_r.Postgres.Projections.Batch.{resolve_batch-stored}
use deterministic_identity_r.Scim.Responses.{Resource, observed_of, resource_id, resource_version}
use deterministic_identity_r.Scim.Responses.Order.{observed_of-perm}
use deterministic_identity_r.Examples.{ascii, sorting, platform, policy, hired, left}
use deterministic_identity_r.Examples.Batch.{
  batch_result, batch_runs, on_leave_projection, projected,
}
use deterministic_identity_r.Examples.Store.{server, empty}

no_row : lookup (text "u") empty.canonical_state ≡ none
unfolding lookup
no_row = refl

no_nul : projection_has_nul on_leave_projection ≡ false
unfolding projection_has_nul has_nul any_nul apply_fact insert_all source_scope_name event_type_name
no_nul = refl

resolve_batch-stored_example :
    ((compare_and_set_projection answered (pos 0) on_leave_projection empty).1 ≡ ok true)
    × (load_projection answered
          (text "u")
          (compare_and_set_projection answered (pos 0) on_leave_projection empty).0
        ≡ ok (as_stored (pos 0) on_leave_projection))
resolve_batch-stored_example =
    resolve_batch-stored policy (hired ∷ left ∷ []) batch_result (text "u") on_leave_projection
      empty batch_runs projected no_nul no_row

abbrev managed : Dict Text
managed = (text "title", text "Title") ∷ []

abbrev id_first : Resource
id_first = (text "id", string (text "7")) ∷ (text "TITLE", string (text "x")) ∷ []

abbrev id_last : Resource
id_last = (text "TITLE", string (text "x")) ∷ (text "id", string (text "7")) ∷ []

observed_of-perm_example :
    (observed_of managed (some id_first) ≡ observed_of managed (some id_last))
    × (resource_id id_first ≡ resource_id id_last)
    × (resource_version id_first ≡ resource_version id_last)
observed_of-perm_example = observed_of-perm managed id_first id_last (Perm.swap _ _ [])
