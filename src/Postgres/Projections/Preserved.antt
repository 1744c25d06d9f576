-- ===== src/Postgres/Projections/Preserved.antt =====
-- CompareAndSetProjection writes the row of its own subject, or nothing.
use deterministic_identity_r.Prelude.{
  ◌≡◌, refl, sym, ◌∙◌, if◌then◌else◌, and-eq-true, inl, inr, Bool, true, false, ◌&&◌, Option, none,
  some, Result, ok, err, Option-cases, if-cases,
}
use deterministic_identity_r.Prelude.Int.{ℤ, pos, ◌+ℤ◌, ltb_ℤ, eq_ℤ}
use deterministic_identity_r.Prelude.Text.{Text, text_eq}
use deterministic_identity_r.Prelude.Dict.{lookup, insert, lookup-insert}
use deterministic_identity_r.Reconcile.Model.{IdentityProjection}
use deterministic_identity_r.Postgres.Tables.{
  Server, Delivery, answered, refused, lost, StateRow, Database, StoreError, row_less, revision_of,
  max_bigint,
}
use deterministic_identity_r.Postgres.Statements.{Outcome, query_row}
use deterministic_identity_r.Postgres.Projections.{
  row_revision, row_allowed, state_row, put_row, update_row, upsert_onto, insert_or_update,
  update_onto, update_existing, and_version, projection_has_nul, compare_and_set_projection,
}
use deterministic_identity_r.Postgres.Projections.Guards.{any_column_less-eq-row_less}

module _ ⦃v : Server⦄ (p : IdentityProjection) (db : Database) where
  -- The rows that CompareAndSetProjection may write: the first one of a subject without a row, or
  -- the next version of a row that is older and whose version can grow.
  pub data Written : StateRow → Type 0 where
    first :
        lookup p.subject_id db.canonical_state ≡ none
        → row_allowed (state_row (pos 0) p) ≡ true
        → Written (state_row (pos 0) p)
    next :
        (old : StateRow)
        → lookup p.subject_id db.canonical_state ≡ some old
        → row_less (row_revision old) (revision_of p.freshness) ≡ true
        → eq_ℤ old.row_version max_bigint ≡ false
        → row_allowed (state_row (old.row_version +ℤ pos 1) p) ≡ true
        → Written (state_row (old.row_version +ℤ pos 1) p)

module _ ⦃v : Server⦄ (Q : Database → Type 0) (p : IdentityProjection) (db : Database) (now : Q db)
    (written : (row : StateRow)
      → Written p db row
      → Q (record db { canonical_state = insert p.subject_id row db.canonical_state })) where
  abbrev Keeps : Outcome ℤ → Type 0
  Keeps (ok (row, db')) = Q db'
  Keeps (err e) = Unit {0}

  put_row-Keeps :
      (row : StateRow)
      → (row_allowed row ≡ true → Written p db row)
      → Keeps (put_row p.subject_id row db)
  unfolding put_row
  put_row-Keeps row may =
      if-cases Keeps (row_allowed row) _ _ (λ allowed. written row (may allowed)) (λ refused. tt)

  update_row-Keeps :
      (old : StateRow)
      → lookup p.subject_id db.canonical_state ≡ some old
      → row_less (row_revision old) (revision_of p.freshness) ≡ true
      → Keeps (update_row old p db)
  unfolding update_row
  update_row-Keeps old stored newer =
      if-cases Keeps (eq_ℤ old.row_version max_bigint) _ _ (λ full. tt)
        λ free. put_row-Keeps (state_row (old.row_version +ℤ pos 1) p) (next old stored newer free)

  guarded-Keeps :
      (old : StateRow) (expected : ℤ) (test : Bool)
      → lookup p.subject_id db.canonical_state ≡ some old
      → test ≡ row_less (row_revision old) (revision_of p.freshness)
      → Keeps (if eq_ℤ old.row_version expected && test then update_row old p db else ok (none, db))
  guarded-Keeps old expected test stored same =
      if-cases Keeps (eq_ℤ old.row_version expected && test) _ _
        (λ both.
          update_row-Keeps old stored
            (sym same ∙ (and-eq-true (eq_ℤ old.row_version expected) test both).1))
        (λ not_both. now)

  insert_or_update-Keeps : (expected : ℤ) → Keeps (insert_or_update expected p db)
  unfolding insert_or_update upsert_onto
  insert_or_update-Keeps expected =
      if-cases Keeps (row_allowed (state_row (pos 0) p)) _ _
        (λ allowed. elim (Option-cases (lookup p.subject_id db.canonical_state)) [
          | inl absent ↦ rw absent (put_row-Keeps (state_row (pos 0) p) (first absent))
          | inr (old, stored) ↦ rw stored (
              guarded-Keeps old expected _ stored
                (any_column_less-eq-row_less (row_revision old) (revision_of p.freshness)))
        ])
        (λ refused. tt)

  update_existing-Keeps : (expected : ℤ) → Keeps (update_existing expected p db)
  unfolding update_existing update_onto
  update_existing-Keeps expected = elim (Option-cases (lookup p.subject_id db.canonical_state)) [
    | inl absent ↦ rw absent now
    | inr (old, stored) ↦ rw stored (guarded-Keeps old expected _ stored refl)
  ]

  query_row-Keeps :
      (d : Delivery) (outcome : Outcome ℤ) → Keeps outcome → Q (query_row d outcome db).0
  unfolding query_row
  query_row-Keeps answered (ok (row, db')) keeps = keeps
  query_row-Keeps answered (err e) keeps = now
  query_row-Keeps refused outcome keeps = now
  query_row-Keeps lost (ok (row, db')) keeps = keeps
  query_row-Keeps lost (err e) keeps = now

  and_version-Keeps : (r : Database × Result StoreError (Option ℤ)) → Q r.0 → Q (and_version r).0
  and_version-Keeps (db', ok row) keeps = keeps
  and_version-Keeps (db', err e) keeps = keeps

  -- What holds of a database, and goes on to hold whatever row is written, holds after
  -- CompareAndSetProjection.
  pub compare_and_set_projection-keeps :
      (d : Delivery) (expected : ℤ) → Q (compare_and_set_projection d expected p db).0
  unfolding compare_and_set_projection
  compare_and_set_projection-keeps d expected =
      if-cases (λ (r : Database × Result StoreError Bool). Q r.0) (ltb_ℤ expected (pos 0)) _ _
        (λ negative. now)
        (λ valid. and_version-Keeps (query_row d _ db) (
          query_row-Keeps d _ (
            if-cases Keeps (projection_has_nul p) _ _ (λ has_one. tt)
              (λ bindable.
                if-cases Keeps (ltb_ℤ (pos 0) expected) _ _
                  (λ positive. update_existing-Keeps expected)
                  (λ none_expected. insert_or_update-Keeps expected)))))

module _ ⦃v : Server⦄ where
  -- The rows of other subjects stay as they are.
  pub lookup-compare_and_set_projection :
      (d : Delivery) (expected : ℤ) (p : IdentityProjection) (db : Database) (s : Text)
      → text_eq p.subject_id s ≡ false
      → lookup s (compare_and_set_projection d expected p db).0.canonical_state
        ≡ lookup s db.canonical_state
  lookup-compare_and_set_projection d expected p db s apart =
      compare_and_set_projection-keeps
        (λ x. lookup s x.canonical_state ≡ lookup s db.canonical_state) p db refl
        (λ row w. lookup-insert p.subject_id s row db.canonical_state ∙ rw apart refl) d expected
