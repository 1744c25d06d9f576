-- ===== src/Postgres/Projections.antt =====
-- CompareAndSetProjection and LoadProjection of postgres.go, with their SQL.
pub mod Guards
pub mod CompareAndSet
pub mod History
pub mod Preserved
pub mod Bounds
pub mod Contention
pub mod Progress
pub mod Batch
pub mod Retry
use deterministic_identity_r.Prelude.{
  Bool, true, false, ◌&&◌, ◌||◌, if◌then◌else◌, Option, none, some, Result, ok, err,
}
use deterministic_identity_r.Prelude.Int.{ℤ, pos, ◌+ℤ◌, ltb_ℤ, leb_ℤ, eq_ℤ}
use deterministic_identity_r.Prelude.Text.{Text}
use deterministic_identity_r.Prelude.Dict.{lookup, insert}
use deterministic_identity_r.Reconcile.Model.{IdentityProjection}
use deterministic_identity_r.Postgres.Tables.{
  Server, Delivery, StateRow, Database, StoreError, statement_failed, check_violated,
  bigint_overflow, text_refused, negative_row_version, no_rows, callback_required, begin_failed,
  commit_failed, Revision, any_column_less, row_less, revision_of, max_bigint,
}
use deterministic_identity_r.Postgres.Statements.{Outcome, query_row, has_nul, any_nul, bound}

-- The revision that a row carries.
abbrev pub row_revision : StateRow → Revision
row_revision r = record {
  sequence = r.source_sequence;
  modification = r.source_modification_time;
  number = r.source_revision_number;
  key = r.source_physical_event_key;
}

-- The CHECK constraints on the values of a row.
unfoldable pub row_allowed : StateRow → Bool
row_allowed r =
    leb_ℤ (pos 0) r.row_version
    && leb_ℤ (pos 0) r.source_sequence
    && leb_ℤ (pos 0) r.source_revision_number

module _ ⦃v : Server⦄ where
  -- The row of a projection, at a given version.
  unfoldable pub state_row : ℤ → IdentityProjection → StateRow
  unfolding revision_of
  state_row version p = record {
    row_version = version;
    exists_flag = p.exists;
    enabled = p.enabled;
    lifecycle_state = p.lifecycle_state;
    attributes = p.attributes;
    source_fact_key = p.source_fact_key;
    source_event_key = p.source_event_key;
    effective_time = v.stored_time p.effective_time;
    source_sequence = p.freshness.source_sequence;
    source_modification_time = v.stored_time p.freshness.modification_time;
    source_revision_number = p.freshness.revision_number;
    source_physical_event_key = p.freshness.physical_event_key;
  }

  -- `RETURNING row_version` of a statement that writes one row. Its texts have no U+0000: a statement
  -- with such an argument has failed before, by projection_has_nul.
  unfoldable pub put_row : Text → StateRow → Database → Outcome ℤ
  unfolding row_allowed
  put_row id row db =
      if row_allowed row
      then ok
          (some row.row_version, record db { canonical_state = insert id row db.canonical_state })
      else err check_violated

  -- `SET row_version = row_version + 1, ...` of a row, which BIGINT bounds.
  unfoldable pub update_row : StateRow → IdentityProjection → Database → Outcome ℤ
  unfolding put_row state_row
  update_row old p db =
      if eq_ℤ old.row_version max_bigint
      then err bigint_overflow
      else put_row p.subject_id (state_row (old.row_version +ℤ pos 1) p) db

  -- `WHERE canonical_state.row_version = $13 AND (...)`, on the row that the INSERT meets.
  unfoldable pub upsert_onto : ℤ → IdentityProjection → Database → Option StateRow → Outcome ℤ
  unfolding update_row put_row state_row any_column_less revision_of
  upsert_onto expected p db none = put_row p.subject_id (state_row (pos 0) p) db
  upsert_onto expected p db (some old) =
      if eq_ℤ old.row_version expected
        && any_column_less (row_revision old) (revision_of p.freshness)
      then update_row old p db
      else ok (none, db)

  -- compareAndSetProjectionSQL. The row to insert is checked before a conflict is looked for.
  unfoldable pub insert_or_update : ℤ → IdentityProjection → Database → Outcome ℤ
  unfolding upsert_onto state_row row_allowed
  insert_or_update expected p db =
      if row_allowed (state_row (pos 0) p)
      then upsert_onto expected p db (lookup p.subject_id db.canonical_state)
      else err check_violated

  unfoldable pub update_onto : ℤ → IdentityProjection → Database → Option StateRow → Outcome ℤ
  unfolding update_row row_less revision_of
  update_onto expected p db none = ok (none, db)
  update_onto expected p db (some old) =
      if eq_ℤ old.row_version expected && row_less (row_revision old) (revision_of p.freshness)
      then update_row old p db
      else ok (none, db)

  -- updateProjectionSQL.
  unfoldable pub update_existing : ℤ → IdentityProjection → Database → Outcome ℤ
  unfolding update_onto
  update_existing expected p db = update_onto expected p db (lookup p.subject_id db.canonical_state)

  -- An argument of either statement has U+0000.
  unfoldable pub projection_has_nul : IdentityProjection → Bool
  projection_has_nul p =
      has_nul p.subject_id
      || any_nul p.attributes
      || has_nul p.source_fact_key
      || has_nul p.source_event_key
      || has_nul p.freshness.physical_event_key

  -- What CompareAndSetProjection returns of the row version it read.
  abbrev pub version_seen : Option ℤ → Bool
  version_seen none = false
  version_seen (some version) = leb_ℤ (pos 0) version

  abbrev pub and_version :
      Database × Result StoreError (Option ℤ) → Database × Result StoreError Bool
  and_version (db, ok row) = (db, ok (version_seen row))
  and_version (db, err e) = (db, err e)

  -- CompareAndSetProjection. Attributes are a map of strings, which always has an encoding.
  unfoldable pub compare_and_set_projection :
      Delivery → ℤ → IdentityProjection → Database → Database × Result StoreError Bool
  unfolding insert_or_update update_existing query_row
  compare_and_set_projection delivery expected p db =
      if ltb_ℤ expected (pos 0)
      then (db, err negative_row_version)
      else and_version (
          query_row delivery
            (bound (projection_has_nul p) (
              if ltb_ℤ (pos 0) expected
              then update_existing expected p db
              else insert_or_update expected p db))
            db)

-- The projection that loadProjection scans from a row. The columns of the lifecycle state and the
-- attributes hold what state_row wrote.
unfoldable pub projection_of : Text → StateRow → IdentityProjection
projection_of id r = record {
  subject_id = id;
  exists = r.exists_flag;
  enabled = r.enabled;
  lifecycle_state = r.lifecycle_state;
  attributes = r.attributes;
  source_fact_key = r.source_fact_key;
  source_event_key = r.source_event_key;
  effective_time = r.effective_time;
  freshness = record {
    source_sequence = r.source_sequence;
    modification_time = r.source_modification_time;
    revision_number = r.source_revision_number;
    physical_event_key = r.source_physical_event_key;
  };
  row_version = r.row_version;
}

abbrev pub or_no_rows : Text → Option StateRow → Result StoreError IdentityProjection
or_no_rows id none = err no_rows
or_no_rows id (some r) = ok (projection_of id r)

-- loadProjection, as LoadProjection and WithLockedProjection call it. The statement reads, so a
-- delivery that is refused and one whose answer is lost look the same.
unfoldable pub load_projection : Delivery → Text → Database → Result StoreError IdentityProjection
load_projection Delivery.answered id db =
    if has_nul id then err text_refused else or_no_rows id (lookup id db.canonical_state)
load_projection Delivery.refused id db = err statement_failed
load_projection Delivery.lost id db = err statement_failed
