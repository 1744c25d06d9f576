-- ===== src/Postgres/Projections/Retry.antt =====
-- Projections that are not newer than the stored one, and calls made again.
use deterministic_identity_r.Prelude.{
  ◌≡◌, ◌≢◌, ◌⊎◌, inl, inr, refl, subst, true, false, some, ok, arith, Option-cases,
}
use deterministic_identity_r.Prelude.Int.{ℤ, pos, ◌+ℤ◌}
use deterministic_identity_r.Prelude.Text.{text_eq_refl}
use deterministic_identity_r.Prelude.Dict.{lookup, insert, lookup-insert}
use deterministic_identity_r.Prelude.Comparison.{lt, cmp_refl}
use deterministic_identity_r.Reconcile.Model.{IdentityProjection}
use deterministic_identity_r.Postgres.Tables.{
  Server, Delivery, answered, refused, lost, StateRow, Database, row_less, revision_of, Revision,
}
use deterministic_identity_r.Postgres.Statements.{query_row}
use deterministic_identity_r.Postgres.Projections.{
  row_revision, state_row, put_row, update_row, upsert_onto, insert_or_update, update_onto,
  update_existing, compare_and_set_projection,
}
use deterministic_identity_r.Postgres.Projections.Guards.{
  any_column_less-eq-row_less, row_less-eq, compare_revision, compare_revision-IsComparison,
}
use deterministic_identity_r.Postgres.Projections.History.{Writes, Writes-IsLater, IsNewer}

module _ ⦃v : Server⦄ where
  -- When the stored row is not older than the projection, CompareAndSetProjection changes nothing
  -- and does not return true, whatever the expected version and whatever becomes of the statement.
  pub compare_and_set_projection-not_newer :
      (d : Delivery) (e : ℤ) (p : IdentityProjection) (db : Database) (old : StateRow)
      → lookup p.subject_id db.canonical_state ≡ some old
      → row_less (row_revision old) (revision_of p.freshness) ≡ false
      → ((compare_and_set_projection d e p db).0 ≡ db)
        × ((compare_and_set_projection d e p db).1 ≢ ok true)
  unfolding compare_and_set_projection query_row insert_or_update update_existing upsert_onto
      update_onto
  compare_and_set_projection-not_newer answered e p db old so h =
      ground
        (arith, so, h, any_column_less-eq-row_less (row_revision old) (revision_of p.freshness))
  compare_and_set_projection-not_newer refused e p db old so h = ground arith
  compare_and_set_projection-not_newer lost e p db old so h =
      ground
        (arith, so, h, any_column_less-eq-row_less (row_revision old) (revision_of p.freshness))

  won-insert :
      (e : ℤ) (p : IdentityProjection) (db db' : Database)
      → compare_and_set_projection answered e p db ≡ (db', ok true)
      → (version : ℤ) × (db'.canonical_state
          ≡ insert p.subject_id (state_row version p) db.canonical_state)
  unfolding compare_and_set_projection query_row insert_or_update update_existing upsert_onto
      update_onto update_row put_row
  won-insert e p db db' h = elim (Option-cases (lookup p.subject_id db.canonical_state)) [
    | inl absent ↦ (pos 0, ground (arith, absent))
    | inr (old, so) ↦ (old.row_version +ℤ pos 1, ground (arith, so))
  ]

  won-revision :
      (e : ℤ) (p : IdentityProjection) (db db' : Database)
      → compare_and_set_projection answered e p db ≡ (db', ok true)
      → (r : StateRow) × (lookup p.subject_id db'.canonical_state ≡ some r)
        × (row_revision r ≡ revision_of p.freshness)
  won-revision e p db db' h =
      let (version, e') = won-insert e p db db' h in
      let row = state_row version p in
      (
        row,
        rw e' (
            rw
              (
                lookup-insert p.subject_id p.subject_id row db.canonical_state,
                text_eq_refl p.subject_id,
              )
              refl),
        unfold state_row revision_of in refl,
      )

  row_less_refl : (a : Revision) → row_less a a ≡ false
  row_less_refl a = rw (row_less-eq a a, cmp_refl compare_revision-IsComparison a) refl

  row_less_asym : (a b : Revision) → compare_revision a b ≡ lt → row_less b a ≡ false
  row_less_asym a b h = rw (row_less-eq b a, compare_revision-IsComparison.flips a b, h) refl

  not_below :
      (f : Revision) (r r' : StateRow)
      → row_revision r ≡ f
      → (r' ≡ r) ⊎ IsNewer r r'
      → row_less (row_revision r') f ≡ false
  not_below f r r' e (inl same) =
      subst (λ g. row_less (row_revision r') g ≡ false) e
        (subst (λ x. row_less (row_revision r') (row_revision x) ≡ false) same
          (row_less_refl (row_revision r')))
  not_below f r r' e (inr (past, newer)) =
      subst (λ g. row_less (row_revision r') g ≡ false) e
        (row_less_asym (row_revision r) (row_revision r') newer)

  -- A projection is set once: after a call has returned true, a second call with the same
  -- projection changes nothing and does not return true, under any expected version, whatever
  -- calls any writers make in between.
  pub compare_and_set_projection-once :
      (d : Delivery) (e e' : ℤ) (p : IdentityProjection) (db db' db'' : Database)
      → compare_and_set_projection answered e p db ≡ (db', ok true)
      → Writes db' db''
      → ((compare_and_set_projection d e' p db'').0 ≡ db'')
        × ((compare_and_set_projection d e' p db'').1 ≢ ok true)
  compare_and_set_projection-once d e e' p db db' db'' won run =
      let (r, er, hr) = won-revision e p db db' won in
      let (r', er', dr) = Writes-IsLater run p.subject_id r er in
      compare_and_set_projection-not_newer d e' p db'' r' er'
        (not_below (revision_of p.freshness) r r' hr dr)
