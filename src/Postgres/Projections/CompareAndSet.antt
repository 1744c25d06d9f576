-- ===== src/Postgres/Projections/CompareAndSet.antt =====
-- What CompareAndSetProjection does with an answered statement, and what it keeps on every
-- delivery.
use deterministic_identity_r.Prelude.{
  ◌≡◌, inl, inr, Bool, true, false, ◌&&◌, if◌then◌else◌, Option, none, some, Result, ok, err, arith,
  Option-cases,
}
use deterministic_identity_r.Prelude.Int.{ℤ, pos, ◌+ℤ◌, ltb_ℤ, leb_ℤ, eq_ℤ, +ℤ_parts}
use deterministic_identity_r.Prelude.Dict.{lookup, insert}
use deterministic_identity_r.Reconcile.Model.{IdentityProjection}
use deterministic_identity_r.Postgres.Tables.{
  Server, answered, StateRow, Database, StoreError, text_refused, max_bigint, row_less, revision_of,
}
use deterministic_identity_r.Postgres.Statements.{query_row}
use deterministic_identity_r.Postgres.Projections.{
  row_revision, row_allowed, state_row, put_row, update_row, upsert_onto, insert_or_update,
  update_onto, update_existing, projection_has_nul, compare_and_set_projection,
}
use deterministic_identity_r.Postgres.Projections.Guards.{any_column_less-eq-row_less}

module _ ⦃v : Server⦄ where
  -- Whether the caller's version and freshness let the projection in.
  abbrev pub may_set : ℤ → IdentityProjection → Option StateRow → Bool
  may_set expected p none = eq_ℤ expected (pos 0)
  may_set expected p (some old) =
      eq_ℤ old.row_version expected && row_less (row_revision old) (revision_of p.freshness)

  abbrev pub next_version : Option StateRow → ℤ
  next_version none = pos 0
  next_version (some old) = old.row_version +ℤ pos 1

  -- The version of a stored row lies in 0 .. max_bigint - 1, so that it can still grow.
  abbrev pub CanGrow : Option StateRow → Type 0
  CanGrow none = Unit {0}
  CanGrow (some old) =
      (leb_ℤ (pos 0) old.row_version ≡ true) × (ltb_ℤ old.row_version max_bigint ≡ true)

  abbrev pub set_row : IdentityProjection → Database → ℤ → Database
  set_row p db version = record db {
    canonical_state = insert p.subject_id (state_row version p) db.canonical_state;
  }

  abbrev pub set_result :
      IdentityProjection → Database → Option StateRow → Bool → Database × Result StoreError Bool
  set_result p db stored false = (db, ok false)
  set_result p db stored true = (set_row p db (next_version stored), ok true)

  pub update_row-ok :
      (old : StateRow) (p : IdentityProjection) (db : Database)
      → leb_ℤ (pos 0) p.freshness.source_sequence ≡ true
      → leb_ℤ (pos 0) p.freshness.revision_number ≡ true
      → CanGrow (some old)
      → update_row old p db
        ≡ ok (some (old.row_version +ℤ pos 1), set_row p db (old.row_version +ℤ pos 1))
  unfolding update_row put_row row_allowed state_row
  update_row-ok old p db hs hr (h, g) = ground (arith, +ℤ_parts old.row_version (pos 1))

  -- With a version and a freshness that are not negative, a stored version that can grow and an
  -- answered statement, CompareAndSetProjection sets the row and returns true exactly when the
  -- stored row has the expected version and an older revision, or there is no row and the
  -- expected version is 0; otherwise it changes nothing and returns false. A projection with
  -- U+0000 in a text is refused before that with an error, and changes nothing.
  pub compare_and_set_projection-answered :
      (expected : ℤ) (p : IdentityProjection) (db : Database)
      → leb_ℤ (pos 0) expected ≡ true
      → leb_ℤ (pos 0) p.freshness.source_sequence ≡ true
      → leb_ℤ (pos 0) p.freshness.revision_number ≡ true
      → CanGrow (lookup p.subject_id db.canonical_state)
      → compare_and_set_projection answered expected p db ≡ (
          if projection_has_nul p
          then (db, err text_refused)
          else set_result p db
              (lookup p.subject_id db.canonical_state)
              (may_set expected p (lookup p.subject_id db.canonical_state)))
  unfolding compare_and_set_projection query_row insert_or_update update_existing upsert_onto
      update_onto put_row row_allowed state_row
  compare_and_set_projection-answered expected p db h hs hr g =
      elim (Option-cases (lookup p.subject_id db.canonical_state)) [
        | inl absent ↦ ground (arith, absent)
        | inr (old, so) ↦ ground (
          arith,
          so,
          update_row-ok old p db,
          +ℤ_parts old.row_version (pos 1),
          any_column_less-eq-row_less (row_revision old) (revision_of p.freshness),
        )
      ]
