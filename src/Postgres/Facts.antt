-- ===== src/Postgres/Facts.antt =====
-- UpsertCanonicalFact of postgres.go.
pub mod Answered
pub mod Freshest
pub mod Winners
pub mod Selection
use deterministic_identity_r.Prelude.{
  Bool, true, false, not, ◌&&◌, ◌||◌, if◌then◌else◌, Option, none, some, List, [], ◌∷◌, Result, ok,
  err,
}
use deterministic_identity_r.Prelude.Int.{pos, leb_ℤ, eq_ℤ}
use deterministic_identity_r.Prelude.Text.{Text, text_eq}
use deterministic_identity_r.Prelude.Dict.{Dict, lookup, insert, has_key}
use deterministic_identity_r.Reconcile.Model.{CanonicalFact, event_type_name, source_scope_name}
use deterministic_identity_r.Postgres.Tables.{
  Server, Delivery, FactRow, Database, StoreError, marshal_failed, check_violated, unique_violated,
  reference_missing, Revision, any_column_less,
}
use deterministic_identity_r.Postgres.Statements.{Outcome, query_row, has_nul, any_nul, bound}
use deterministic_identity_r.Postgres.Physical.{stored_end}

abbrev pub fact_revision : FactRow → Revision
fact_revision r = record {
  sequence = r.source_sequence;
  modification = r.modification_time;
  number = r.revision_number;
  key = r.event_key;
}

-- UNIQUE (subject_id, source_scope, event_type, effective_time)
unfoldable pub same_slot : FactRow → FactRow → Bool
same_slot a b =
    text_eq a.subject_id b.subject_id
    && text_eq (source_scope_name a.source_scope) (source_scope_name b.source_scope)
    && text_eq (event_type_name a.event_type) (event_type_name b.event_type)
    && eq_ℤ a.effective_time.wall b.effective_time.wall

unfoldable pub slot_taken : FactRow → Dict FactRow → Bool
slot_taken row [] = false
slot_taken row ((k, stored) ∷ rows) = same_slot stored row || slot_taken row rows

-- The CHECK constraints.
unfoldable pub fact_allowed : FactRow → Bool
fact_allowed row = leb_ℤ (pos 0) row.source_sequence && leb_ℤ (pos 0) row.revision_number

module _ ⦃v : Server⦄ where
  -- The row of a fact, each time as its column keeps it.
  unfoldable pub fact_row : CanonicalFact → FactRow
  fact_row fact = record {
    event_key = fact.event_key;
    subject_id = fact.subject_id;
    event_type = fact.event_type;
    source_scope = fact.source_scope;
    effective_time = v.stored_time fact.effective_time;
    end_time = stored_end fact.end_time;
    modification_time = v.stored_time fact.modification_time;
    source_sequence = fact.freshness.source_sequence;
    revision_number = fact.freshness.revision_number;
    payload = fact.payload;
    attributes = fact.attributes;
    payload_hash = fact.payload_hash;
    received_at = v.stored_time fact.received_at;
  }

  -- `SET event_key = EXCLUDED.event_key, ...`; the columns of the slot stay.
  abbrev pub revised : FactRow → FactRow → FactRow
  revised stored row = record row {
    subject_id = stored.subject_id;
    event_type = stored.event_type;
    source_scope = stored.source_scope;
    effective_time = stored.effective_time;
  }

  -- REFERENCES physical_events(event_key), which is tested after the row is written.
  unfoldable pub write_fact : Text → FactRow → Database → Outcome Text
  write_fact key row db =
      if has_key row.event_key db.physical_events
      then ok (some key, record db { canonical_facts = insert key row db.canonical_facts })
      else err reference_missing

  unfoldable pub upsert_onto_fact : Text → FactRow → Database → Option FactRow → Outcome Text
  upsert_onto_fact key row db none =
      if slot_taken row db.canonical_facts then err unique_violated else write_fact key row db
  upsert_onto_fact key row db (some stored) =
      if any_column_less (fact_revision stored) (fact_revision row)
      then write_fact key (revised stored row) db
      else ok (none, db)

  -- upsertCanonicalFactSQL. The row to insert is checked before a conflict is looked for.
  unfoldable pub upsert_fact : Text → FactRow → Database → Outcome Text
  upsert_fact key row db =
      if fact_allowed row
      then upsert_onto_fact key row db (lookup key db.canonical_facts)
      else err check_violated

  -- An argument of the statement has U+0000.
  unfoldable pub fact_has_nul : CanonicalFact → Bool
  fact_has_nul fact =
      has_nul fact.fact_key
      || has_nul fact.event_key
      || has_nul fact.subject_id
      || not (v.accepts fact.payload)
      || any_nul fact.attributes
      || has_nul fact.payload_hash

  -- What UpsertCanonicalFact returns of the key it read.
  abbrev pub stored_as :
      Text → Database × Result StoreError (Option Text) → Database × Result StoreError Bool
  stored_as key (db, ok none) = (db, ok false)
  stored_as key (db, ok (some k)) = (db, ok (text_eq k key))
  stored_as key (db, err e) = (db, err e)

  -- UpsertCanonicalFact. Attributes are a map of strings, which always has an encoding.
  unfoldable pub upsert_canonical_fact :
      Delivery → CanonicalFact → Database → Database × Result StoreError Bool
  upsert_canonical_fact delivery fact db =
      if not (v.encodes fact.payload)
      then (db, err marshal_failed)
      else stored_as fact.fact_key (
          query_row delivery
            (bound (fact_has_nul fact) (upsert_fact fact.fact_key (fact_row fact) db)) db)
