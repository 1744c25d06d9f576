-- ===== src/Postgres/Projections/Contention.antt =====
-- Two writers of one projection: who wins, and what a retry does.
use deterministic_identity_r.Prelude.{
  ◌≡◌, ◌≢◌, ◌⊎◌, inl, inr, refl, true, none, some, ok, arith, Option-cases,
}
use deterministic_identity_r.Prelude.Int.{ℤ, pos, ◌+ℤ◌, ltb_ℤ, ◌<ℤ◌, +ℤ_parts}
use deterministic_identity_r.Prelude.Text.{text_eq_refl}
use deterministic_identity_r.Prelude.Dict.{lookup, insert, lookup-insert}
use deterministic_identity_r.Reconcile.Model.{IdentityProjection}
use deterministic_identity_r.Postgres.Tables.{
  Server, Delivery, answered, refused, lost, StateRow, Database,
}
use deterministic_identity_r.Postgres.Statements.{query_row}
use deterministic_identity_r.Postgres.Projections.{
  state_row, put_row, update_row, update_onto, update_existing, compare_and_set_projection,
}
use deterministic_identity_r.Postgres.Projections.History.{Writes, Writes-IsLater, IsNewer}

module _ ⦃v : Server⦄ where
  -- No row is written under a positive version that the stored row does not have.
  stale-update_existing :
      (expected : ℤ) (p : IdentityProjection) (db : Database) (old : StateRow)
      → lookup p.subject_id db.canonical_state ≡ some old
      → expected <ℤ old.row_version
      → update_existing expected p db ≡ ok (none, db)
  unfolding update_existing update_onto
  stale-update_existing expected p db old so h = ground (arith, so, h)

  -- When a stored row has passed the expected positive version, CompareAndSetProjection changes
  -- nothing and does not return true, whatever becomes of the statement.
  pub compare_and_set_projection-stale :
      (d : Delivery) (expected : ℤ) (p : IdentityProjection) (db : Database) (old : StateRow)
      → ltb_ℤ (pos 0) expected ≡ true
      → lookup p.subject_id db.canonical_state ≡ some old
      → expected <ℤ old.row_version
      → ((compare_and_set_projection d expected p db).0 ≡ db)
        × ((compare_and_set_projection d expected p db).1 ≢ ok true)
  unfolding compare_and_set_projection query_row
  compare_and_set_projection-stale answered expected p db old hp so h =
      ground (arith, stale-update_existing expected p db old so h)
  compare_and_set_projection-stale refused expected p db old hp so h = ground arith
  compare_and_set_projection-stale lost expected p db old hp so h =
      ground (arith, stale-update_existing expected p db old so h)

  won-absent :
      (e : ℤ) (p : IdentityProjection) (db db' : Database)
      → ltb_ℤ (pos 0) e ≡ true
      → lookup p.subject_id db.canonical_state ≡ none
      → compare_and_set_projection answered e p db ≢ (db', ok true)
  unfolding compare_and_set_projection query_row update_existing update_onto
  won-absent e p db db' hp absent h = ground (arith, absent, h)

  won-state :
      (e : ℤ) (p : IdentityProjection) (db db' : Database) (old : StateRow)
      → ltb_ℤ (pos 0) e ≡ true
      → lookup p.subject_id db.canonical_state ≡ some old
      → compare_and_set_projection answered e p db ≡ (db', ok true)
      → (e <ℤ (state_row (old.row_version +ℤ pos 1) p).row_version)
        × (db'.canonical_state
            ≡ insert p.subject_id (state_row (old.row_version +ℤ pos 1) p) db.canonical_state)
  unfolding compare_and_set_projection query_row update_existing update_onto update_row put_row
      state_row
  won-state e p db db' old hp so h = ground (arith, so, h, +ℤ_parts old.row_version (pos 1))

  -- Success of the first writer leaves a row past the version it expected.
  won-row :
      (e : ℤ) (p : IdentityProjection) (db db' : Database)
      → ltb_ℤ (pos 0) e ≡ true
      → compare_and_set_projection answered e p db ≡ (db', ok true)
      → (r : StateRow) × (lookup p.subject_id db'.canonical_state ≡ some r) × (e <ℤ r.row_version)
  won-row e p db db' hp h = elim (Option-cases (lookup p.subject_id db.canonical_state)) [
    | inl absent ↦ absurd (won-absent e p db db' hp absent h)
    | inr (old, so) ↦
        let next = state_row (old.row_version +ℤ pos 1) p in
        let (past, e') = won-state e p db db' old hp so h in
        (
          next,
          rw e' (
              rw
                (
                  lookup-insert p.subject_id p.subject_id next db.canonical_state,
                  text_eq_refl p.subject_id,
                )
                refl),
          past,
        )
  ]

  newer_version :
      (e : ℤ) (r r' : StateRow) → e <ℤ r.row_version → (r' ≡ r) ⊎ IsNewer r r' → e <ℤ r'.row_version
  newer_version e r r' h (inl same) = rw same h
  newer_version e r r' h (inr (past, newer)) = ground arith

  -- Of two writers of a subject that expect the same positive version, one at most wins: once a
  -- call has returned true, a call that expects that version changes nothing and does not return
  -- true, whatever other calls any writers make in between.
  pub compare_and_set_projection-one_winner :
      (d : Delivery) (e : ℤ) (p q : IdentityProjection) (db db' db'' : Database)
      → ltb_ℤ (pos 0) e ≡ true
      → q.subject_id ≡ p.subject_id
      → compare_and_set_projection answered e p db ≡ (db', ok true)
      → Writes db' db''
      → ((compare_and_set_projection d e q db'').0 ≡ db'')
        × ((compare_and_set_projection d e q db'').1 ≢ ok true)
  compare_and_set_projection-one_winner d e p q db db' db'' hp same won run =
      let (r, er, hr) = won-row e p db db' hp won in
      let (r', er', dr) = Writes-IsLater run p.subject_id r er in
      compare_and_set_projection-stale d e q db'' r' hp (rw same er') (newer_version e r r' hr dr)
