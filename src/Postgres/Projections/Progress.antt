-- ===== src/Postgres/Projections/Progress.antt =====
-- A writer that reads a projection and sets a newer one.
use deterministic_identity_r.Prelude.{
  ◌≡◌, refl, sym, ap, ◌∙◌, inl, inr, true, false, some, ok, arith, Option-cases,
}
use deterministic_identity_r.Prelude.Int.{ℤ, pos, ◌+ℤ◌, ltb_ℤ, leb_ℤ}
use deterministic_identity_r.Prelude.Text.{Text, text_eq_refl}
use deterministic_identity_r.Prelude.Dict.{lookup, lookup-insert}
use deterministic_identity_r.Reconcile.Model.{IdentityProjection, FreshnessTuple}
use deterministic_identity_r.Postgres.Tables.{
  Server, answered, StateRow, Database, row_less, revision_of, max_bigint, Revision,
}
use deterministic_identity_r.Postgres.Statements.{has_nul}
use deterministic_identity_r.Postgres.Projections.{
  row_revision, state_row, projection_has_nul, compare_and_set_projection, load_projection,
  projection_of,
}
use deterministic_identity_r.Postgres.Projections.Bounds.{InRange}
use deterministic_identity_r.Postgres.Projections.CompareAndSet.{
  set_row, may_set, CanGrow, compare_and_set_projection-answered,
}

-- The columns of a freshness that has been read.
abbrev pub columns : FreshnessTuple → Revision
columns f = record {
  sequence = f.source_sequence;
  modification = f.modification_time;
  number = f.revision_number;
  key = f.physical_event_key;
}

loaded_row :
    (id : Text) (q : IdentityProjection) (db : Database)
    → load_projection answered id db ≡ ok q
    → (r : StateRow) × (lookup id db.canonical_state ≡ some r) × (projection_of id r ≡ q)
unfolding load_projection
loaded_row id q db h = elim (Option-cases (lookup id db.canonical_state)) [
  | inl absent ↦ absurd (ground (arith, absent))
  | inr (r, stored) ↦ (r, stored, ground (arith, stored))
]

version-projection_of :
    (id : Text) (r : StateRow) → (projection_of id r).row_version ≡ r.row_version
unfolding projection_of
version-projection_of id r = refl

columns-projection_of :
    (id : Text) (r : StateRow) → columns (projection_of id r).freshness ≡ row_revision r
unfolding projection_of
columns-projection_of id r = refl

module _ ⦃v : Server⦄ where
  -- The projection at a version, with its times as the server keeps them.
  abbrev pub as_stored : ℤ → IdentityProjection → IdentityProjection
  as_stored version p = record p {
    effective_time = v.stored_time p.effective_time;
    freshness = record p.freshness {
      modification_time = v.stored_time p.freshness.modification_time;
    };
    row_version = version;
  }

  projection_of-state_row :
      (version : ℤ) (p : IdentityProjection)
      → projection_of p.subject_id (state_row version p) ≡ as_stored version p
  unfolding projection_of state_row
  projection_of-state_row version p = refl

  subject-clean :
      (p : IdentityProjection) → projection_has_nul p ≡ false → has_nul p.subject_id ≡ false
  unfolding projection_has_nul
  subject-clean p h = ground arith

  pub reads_back :
      (p : IdentityProjection) (version : ℤ) (db : Database)
      → projection_has_nul p ≡ false
      → load_projection answered p.subject_id (set_row p db version) ≡ ok (as_stored version p)
  unfolding load_projection
  reads_back p version db clean =
      rw
        (
          subject-clean p clean,
          lookup-insert p.subject_id p.subject_id (state_row version p) db.canonical_state,
          text_eq_refl p.subject_id,
        )
        (ap ok (projection_of-state_row version p))

  -- A writer that reads a projection and then, before anyone else writes, sets one that is newer
  -- with the version that it has read succeeds, and the next read gives what it has set, in every
  -- field, at the next version and with the times that the server keeps. The stored columns are in
  -- range, the version is not the greatest BIGINT, the new freshness is not negative, and no text
  -- of the projection has U+0000.
  pub load_then_set :
      (p q : IdentityProjection) (db : Database)
      → InRange db
      → projection_has_nul p ≡ false
      → load_projection answered p.subject_id db ≡ ok q
      → ltb_ℤ q.row_version max_bigint ≡ true
      → leb_ℤ (pos 0) p.freshness.source_sequence ≡ true
      → leb_ℤ (pos 0) p.freshness.revision_number ≡ true
      → row_less (columns q.freshness) (revision_of p.freshness) ≡ true
      → ((compare_and_set_projection answered q.row_version p db).1 ≡ ok true)
        × (load_projection answered p.subject_id
              (compare_and_set_projection answered q.row_version p db).0
            ≡ ok (as_stored (q.row_version +ℤ pos 1) p))
  load_then_set p q db range clean loaded grows sequence number newer =
      let (r, stored, read) = loaded_row p.subject_id q db loaded in
      let version : r.row_version ≡ q.row_version =
        sym (version-projection_of p.subject_id r) ∙ ap (λ x. x.row_version) read in
      let revision : columns q.freshness ≡ row_revision r =
        sym (ap (λ x. columns x.freshness) read) ∙ columns-projection_of p.subject_id r in
      let nonneg : leb_ℤ (pos 0) r.row_version ≡ true =
        ground (arith, (range p.subject_id r stored).version_nonneg) in
      let may : may_set q.row_version p (some r) ≡ true =
        ground (arith, version, rw revision at newer) in
      let can_grow : CanGrow (some r) = (nonneg, rw (← version) at grows) in
      let set : compare_and_set_projection answered q.row_version p db
          ≡ (set_row p db (q.row_version +ℤ pos 1), ok true) =
        compare_and_set_projection-answered q.row_version p db (rw version at nonneg) sequence
          number (rw stored can_grow)
        ∙ rw (clean, stored, may, version) refl in
      (ap (λ x. x.1) set, rw set (reads_back p (q.row_version +ℤ pos 1) db clean))
