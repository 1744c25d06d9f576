-- ===== src/Postgres/Projections/Bounds.antt =====
-- The columns of a stored projection stay in the range of BIGINT and of their CHECK constraints.
use deterministic_identity_r.Prelude.{◌≡◌, ◌≢◌, subst, inl, inr, true, some, ok, arith, Bool-cases}
use Prim.Native.Nat.{◌^◌}
use deterministic_identity_r.Prelude.{◌-◌}
use deterministic_identity_r.Prelude.Int.{ℤ, pos, ◌≤ℤ◌, ◌+ℤ◌, eq_ℤ, +ℤ_parts}
use deterministic_identity_r.Prelude.Text.{Text, text_eq}
use deterministic_identity_r.Prelude.Dict.{lookup, insert, lookup-insert}
use deterministic_identity_r.Reconcile.Model.{IdentityProjection}
use deterministic_identity_r.Postgres.Tables.{
  Server, Delivery, answered, refused, lost, StateRow, Database, max_bigint,
}
use deterministic_identity_r.Postgres.Statements.{query_row}
use deterministic_identity_r.Postgres.Projections.{
  row_allowed, state_row, update_row, upsert_onto, insert_or_update, update_onto, update_existing,
  compare_and_set_projection,
}
use deterministic_identity_r.Postgres.Projections.Preserved.{
  Written, first, next, compare_and_set_projection-keeps,
}
use deterministic_identity_r.Postgres.Projections.History.{Writes, idle, write}

-- The version is a BIGINT, and it, the sequence and the revision number are not negative.
pub record RowInRange (r : StateRow) : Type 0 where
  pub version_nonneg : pos 0 ≤ℤ r.row_version
  pub version_fits : r.row_version ≤ℤ pos (2 ^ 63 - 1)
  pub sequence_nonneg : pos 0 ≤ℤ r.source_sequence
  pub revision_nonneg : pos 0 ≤ℤ r.source_revision_number

abbrev pub InRange : Database → Type 0
InRange db = (s : Text) (r : StateRow) → lookup s db.canonical_state ≡ some r → RowInRange r

RowInRange-of_allowed :
    (r : StateRow) → row_allowed r ≡ true → r.row_version ≤ℤ pos (2 ^ 63 - 1) → RowInRange r
unfolding row_allowed
RowInRange-of_allowed r h fits = record {
  version_nonneg = ground arith;
  version_fits = fits;
  sequence_nonneg = ground arith;
  revision_nonneg = ground arith;
}

module _ ⦃v : Server⦄ where
  -- A row that is written is in range, if the row before it is.
  Written-RowInRange :
      (p : IdentityProjection) (db : Database) (row : StateRow)
      → InRange db
      → Written p db row
      → RowInRange row
  unfolding state_row
  Written-RowInRange p db (_) range (first absent allowed) =
      RowInRange-of_allowed (state_row (pos 0) p) allowed (ground arith)
  Written-RowInRange p db (_) range (next old stored newer grows allowed) =
      let small = (range p.subject_id old stored).version_fits in
      RowInRange-of_allowed (state_row (old.row_version +ℤ pos 1) p) allowed
        (ground (arith, +ℤ_parts old.row_version (pos 1)))

  insert-InRange :
      (id : Text) (row : StateRow) (db : Database)
      → InRange db
      → RowInRange row
      → InRange (record db { canonical_state = insert id row db.canonical_state })
  insert-InRange id row db range fits s r found = elim (Bool-cases (text_eq id s)) [
    | inl same ↦
        let is_row : row ≡ r = ground (arith, lookup-insert id s row db.canonical_state) in
        subst RowInRange is_row fits
    | inr apart ↦ range s r (ground (arith, lookup-insert id s row db.canonical_state))
  ]

  compare_and_set_projection-InRange :
      (d : Delivery) (expected : ℤ) (p : IdentityProjection) (db : Database)
      → InRange db
      → InRange (compare_and_set_projection d expected p db).0
  compare_and_set_projection-InRange d expected p db range =
      compare_and_set_projection-keeps InRange p db range
        (λ row w. insert-InRange p.subject_id row db range (Written-RowInRange p db row range w)) d
        expected

  -- Along any run of CompareAndSetProjection, whatever becomes of its statements and whatever
  -- versions and projections the callers pass, the version, the sequence and the revision number
  -- of each stored row stay nonnegative and the version stays a BIGINT.
  pub Writes-InRange : {db db' : Database} → InRange db → Writes db db' → InRange db'
  Writes-InRange range idle = range
  Writes-InRange {db} range (write d expected p rest) =
      Writes-InRange (compare_and_set_projection-InRange d expected p db range) rest

  -- A row whose version is the greatest BIGINT is not changed any more: CompareAndSetProjection
  -- leaves the database as it is, and does not return true.
  pub compare_and_set_projection-full :
      (d : Delivery) (expected : ℤ) (p : IdentityProjection) (db : Database) (old : StateRow)
      → lookup p.subject_id db.canonical_state ≡ some old
      → eq_ℤ old.row_version max_bigint ≡ true
      → ((compare_and_set_projection d expected p db).0 ≡ db)
        × ((compare_and_set_projection d expected p db).1 ≢ ok true)
  unfolding compare_and_set_projection query_row insert_or_update update_existing upsert_onto
      update_onto update_row
  compare_and_set_projection-full answered e p db old so full = ground (arith, so, full)
  compare_and_set_projection-full refused e p db old so full = ground arith
  compare_and_set_projection-full lost e p db old so full = ground (arith, so, full)
