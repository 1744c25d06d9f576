-- ===== src/Examples/Store.antt =====
-- Writers of the projection of one subject.
use deterministic_identity_r.Postgres.Statements.{has_nul, any_nul}
use deterministic_identity_r.Postgres.Projections.{projection_has_nul}
use deterministic_identity_r.Prelude.{◌≡◌, ◌≢◌, refl, true, false, none, some, [], ◌∷◌, ok}
use deterministic_identity_r.Prelude.Int.{ℤ, pos, ◌+ℤ◌}
use deterministic_identity_r.Prelude.Text.{text, text_eq, compare_text, compare_text-IsComparison}
use deterministic_identity_r.Prelude.Dict.{lookup, insert}
use deterministic_identity_r.Reconcile.Model.{IdentityProjection}
use deterministic_identity_r.Reconcile.Projection.{new_projection, zero_freshness}
use deterministic_identity_r.Postgres.Tables.{
  Server, answered, lost, Database, row_less, revision_of,
}
use deterministic_identity_r.Postgres.Statements.{query_row}
use deterministic_identity_r.Postgres.Projections.{
  row_revision, row_allowed, state_row, put_row, update_row, update_onto, update_existing,
  compare_and_set_projection,
}
use deterministic_identity_r.Postgres.Projections.CompareAndSet.{
  may_set, set_result, compare_and_set_projection-answered,
}
use deterministic_identity_r.Postgres.Projections.History.{
  Writes, idle, write, Writes-IsLater, IsLater,
}
use deterministic_identity_r.Postgres.Projections.Contention.{compare_and_set_projection-one_winner}
use deterministic_identity_r.Postgres.Projections.Retry.{compare_and_set_projection-once}

-- A server that keeps times as they are and compares bytes.
instance abbrev pub server : Server
server = record {
  stored_time = λ t. t;
  collate = compare_text;
  collate-IsComparison = compare_text-IsComparison;
  same_json = λ a b. true;
  encodes = λ a. true;
  accepts = λ a. true;
}

abbrev pub empty : Database
empty = record { physical_events = []; canonical_facts = []; canonical_state = [] }

abbrev pub at_sequence : ℤ → IdentityProjection
at_sequence n = record (new_projection (text "u")) {
  freshness = record zero_freshness { source_sequence = n };
}

abbrev pub stored : ℤ → ℤ → Database
stored version n = record empty {
  canonical_state = (text "u", state_row version (at_sequence n)) ∷ [];
}

compare_and_set_projection-answered_example :
    compare_and_set_projection answered (pos 0) (at_sequence (pos 1)) empty
    ≡ set_result (at_sequence (pos 1)) empty none (may_set (pos 0) (at_sequence (pos 1)) none)
unfolding lookup projection_has_nul has_nul any_nul
compare_and_set_projection-answered_example =
    compare_and_set_projection-answered (pos 0) (at_sequence (pos 1)) empty refl refl refl tt

-- The first writer moves version 3 on to 4.
won :
    compare_and_set_projection answered (pos 3) (at_sequence (pos 2)) (stored (pos 3) (pos 1))
    ≡ (stored (pos 4) (pos 2), ok true)
unfolding compare_and_set_projection query_row update_existing update_onto update_row put_row
    row_allowed state_row row_less revision_of lookup insert text_eq ◌+ℤ◌ projection_has_nul has_nul
    any_nul
won = refl

abbrev quiet : Writes (stored (pos 4) (pos 2)) (stored (pos 4) (pos 2))
quiet = idle

compare_and_set_projection-one_winner_example :
    ((compare_and_set_projection answered (pos 3) (at_sequence (pos 5)) (stored (pos 4) (pos 2))).0
      ≡ stored (pos 4) (pos 2))
    × ((compare_and_set_projection answered
          (pos 3)
          (at_sequence (pos 5))
          (stored (pos 4) (pos 2))).1
        ≢ ok true)
compare_and_set_projection-one_winner_example =
    compare_and_set_projection-one_winner answered (pos 3) (at_sequence (pos 2))
      (at_sequence (pos 5)) (stored (pos 3) (pos 1)) (stored (pos 4) (pos 2))
      (stored (pos 4) (pos 2)) refl refl won quiet

compare_and_set_projection-once_example :
    ((compare_and_set_projection lost (pos 4) (at_sequence (pos 2)) (stored (pos 4) (pos 2))).0
      ≡ stored (pos 4) (pos 2))
    × ((compare_and_set_projection lost (pos 4) (at_sequence (pos 2)) (stored (pos 4) (pos 2))).1
        ≢ ok true)
compare_and_set_projection-once_example =
    compare_and_set_projection-once lost (pos 3) (pos 4) (at_sequence (pos 2))
      (stored (pos 3) (pos 1)) (stored (pos 4) (pos 2)) (stored (pos 4) (pos 2)) won quiet

found :
    lookup (text "u") (stored (pos 4) (pos 2)).canonical_state
    ≡ some (state_row (pos 4) (at_sequence (pos 2)))
unfolding lookup text_eq
found = refl

older :
    row_less
      (row_revision (state_row (pos 4) (at_sequence (pos 2))))
      (revision_of (at_sequence (pos 1)).freshness)
    ≡ false
unfolding row_less state_row revision_of
older = refl

one_write :
    Writes
      (stored (pos 3) (pos 1))
      (compare_and_set_projection lost (pos 3) (at_sequence (pos 2)) (stored (pos 3) (pos 1))).0
one_write = write lost (pos 3) (at_sequence (pos 2)) idle

Writes-IsLater_example :
    IsLater
      (stored (pos 3) (pos 1))
      (compare_and_set_projection lost (pos 3) (at_sequence (pos 2)) (stored (pos 3) (pos 1))).0
Writes-IsLater_example = Writes-IsLater one_write
