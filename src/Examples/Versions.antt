-- ===== src/Examples/Versions.antt =====
-- Row versions of a stored projection.
use deterministic_identity_r.Postgres.Statements.{has_nul, any_nul}
use deterministic_identity_r.Postgres.Projections.{projection_has_nul}
use deterministic_identity_r.Prelude.{
  ◌≡◌, ◌≢◌, refl, subst, true, false, some, ok, inl, inr, Bool-cases, arith,
}
use deterministic_identity_r.Prelude.Int.{pos, ◌+ℤ◌}
use deterministic_identity_r.Prelude.Text.{text, text_eq}
use deterministic_identity_r.Prelude.Dict.{lookup}
use deterministic_identity_r.Reconcile.Model.{IdentityProjection}
use deterministic_identity_r.Postgres.Tables.{
  answered, lost, StateRow, Database, row_less, revision_of, max_bigint,
}
use deterministic_identity_r.Postgres.Projections.{
  state_row, compare_and_set_projection, load_projection, projection_of,
}
use deterministic_identity_r.Postgres.Projections.History.{Writes, idle, write}
use deterministic_identity_r.Postgres.Projections.Bounds.{
  RowInRange, InRange, Writes-InRange, compare_and_set_projection-full,
}
use deterministic_identity_r.Postgres.Projections.Progress.{as_stored, load_then_set}
use deterministic_identity_r.Examples.Store.{server, stored, at_sequence}

abbrev before_write : Database
before_write = stored (pos 4) (pos 2)

abbrev row : StateRow
row = state_row (pos 4) (at_sequence (pos 2))

row-InRange : RowInRange row
unfolding state_row
row-InRange = record {
  version_nonneg = ground arith;
  version_fits = ground arith;
  sequence_nonneg = ground arith;
  revision_nonneg = ground arith;
}

before_write-InRange : InRange before_write
unfolding lookup state_row
before_write-InRange s r found = elim (Bool-cases (text_eq (text "u") s)) [
  | inl same ↦ let is_row : row ≡ r = ground (arith) in subst RowInRange is_row row-InRange
  | inr apart ↦ absurd (ground (arith))
]

abbrev two_calls :
    Writes before_write
      (compare_and_set_projection lost
        (pos 5)
        (at_sequence (pos 7))
        (compare_and_set_projection answered (pos 4) (at_sequence (pos 5)) before_write).0).0
two_calls =
    write answered (pos 4) (at_sequence (pos 5)) (write lost (pos 5) (at_sequence (pos 7)) idle)

Writes-InRange_example :
    InRange
      (compare_and_set_projection lost
        (pos 5)
        (at_sequence (pos 7))
        (compare_and_set_projection answered (pos 4) (at_sequence (pos 5)) before_write).0).0
Writes-InRange_example = Writes-InRange before_write-InRange two_calls

there : lookup (text "u") before_write.canonical_state ≡ some row
unfolding lookup text_eq
there = refl

full_there :
    lookup (text "u") (stored max_bigint (pos 2)).canonical_state
    ≡ some (state_row max_bigint (at_sequence (pos 2)))
unfolding lookup text_eq
full_there = refl

compare_and_set_projection-full_example :
    ((compare_and_set_projection answered max_bigint
        (at_sequence (pos 5))
        (stored max_bigint (pos 2))).0
      ≡ stored max_bigint (pos 2))
    × ((compare_and_set_projection answered max_bigint
          (at_sequence (pos 5))
          (stored max_bigint (pos 2))).1
        ≢ ok true)
unfolding state_row
compare_and_set_projection-full_example =
    compare_and_set_projection-full answered max_bigint (at_sequence (pos 5))
      (stored max_bigint (pos 2)) (state_row max_bigint (at_sequence (pos 2))) full_there refl

abbrev read : IdentityProjection
read = projection_of (text "u") row

is_read : load_projection answered (text "u") before_write ≡ ok read
unfolding load_projection projection_has_nul has_nul any_nul
is_read = rw there refl

no_nul : projection_has_nul (at_sequence (pos 5)) ≡ false
unfolding projection_has_nul has_nul any_nul
no_nul = refl

load_then_set_example :
    ((compare_and_set_projection answered (pos 4) (at_sequence (pos 5)) before_write).1 ≡ ok true)
    × (load_projection answered
          (text "u")
          (compare_and_set_projection answered (pos 4) (at_sequence (pos 5)) before_write).0
        ≡ ok (as_stored (pos 5) (at_sequence (pos 5))))
unfolding projection_of state_row row_less revision_of ◌+ℤ◌
load_then_set_example =
    load_then_set (at_sequence (pos 5)) read before_write before_write-InRange no_nul is_read refl
      refl refl refl
