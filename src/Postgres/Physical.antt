-- ===== src/Postgres/Physical.antt =====
-- InsertPhysicalEvent of postgres.go.
pub mod Replay
pub mod Acceptance
use deterministic_identity_r.Prelude.{
  Bool, true, false, not, ◌&&◌, ◌||◌, if◌then◌else◌, Option, none, some, Result, ok, err,
}
use deterministic_identity_r.Prelude.Int.{pos, leb_ℤ, eq_ℤ}
use deterministic_identity_r.Prelude.Text.{Text, text_eq}
use deterministic_identity_r.Prelude.Dict.{lookup, insert}
use deterministic_identity_r.Reconcile.Clock.{Time}
use deterministic_identity_r.Reconcile.Model.{CanonicalFact, event_type_name, source_scope_name}
use deterministic_identity_r.Postgres.Tables.{
  Server, Delivery, answered, refused, lost, PhysicalRow, Database, StoreError, marshal_failed,
  statement_failed, check_violated, event_key_conflict, no_rows,
}
use deterministic_identity_r.Postgres.Statements.{Outcome, query_row, has_nul, bound}

-- `end_time IS NOT DISTINCT FROM $6`
abbrev pub not_distinct : Option Time → Option Time → Bool
not_distinct none none = true
not_distinct none (some u) = false
not_distinct (some t) none = false
not_distinct (some t) (some u) = eq_ℤ t.wall u.wall

module _ ⦃v : Server⦄ where
  abbrev pub stored_end : Option Time → Option Time
  stored_end none = none
  stored_end (some t) = some (v.stored_time t)

  -- The row of a fact, each time as its column keeps it.
  unfoldable pub physical_row : CanonicalFact → PhysicalRow
  physical_row fact = record {
    subject_id = fact.subject_id;
    event_type = fact.event_type;
    source_scope = fact.source_scope;
    effective_time = v.stored_time fact.effective_time;
    end_time = stored_end fact.end_time;
    modification_time = v.stored_time fact.modification_time;
    source_sequence = fact.freshness.source_sequence;
    revision_number = fact.freshness.revision_number;
    payload = fact.payload;
    payload_hash = fact.payload_hash;
    received_at = v.stored_time fact.received_at;
  }

  -- The columns that physicalEventMatchesSQL compares, which leaves out received_at.
  unfoldable pub row_matches : PhysicalRow → PhysicalRow → Bool
  row_matches stored row =
      text_eq stored.subject_id row.subject_id
      && text_eq (event_type_name stored.event_type) (event_type_name row.event_type)
      && text_eq (source_scope_name stored.source_scope) (source_scope_name row.source_scope)
      && eq_ℤ stored.effective_time.wall row.effective_time.wall
      && not_distinct stored.end_time row.end_time
      && eq_ℤ stored.modification_time.wall row.modification_time.wall
      && eq_ℤ stored.source_sequence row.source_sequence
      && eq_ℤ stored.revision_number row.revision_number
      && v.same_json stored.payload row.payload
      && text_eq stored.payload_hash row.payload_hash

  abbrev pub insert_absent : Text → PhysicalRow → Database → Option PhysicalRow → Outcome (Unit {0})
  insert_absent key row db none =
      ok (some tt, record db { physical_events = insert key row db.physical_events })
  insert_absent key row db (some stored) = ok (none, db)

  -- insertPhysicalEventSQL: `some` for one row affected, `none` for a conflict.
  unfoldable pub insert_row : Text → PhysicalRow → Database → Outcome (Unit {0})
  insert_row key row db =
      if leb_ℤ (pos 0) row.source_sequence && leb_ℤ (pos 0) row.revision_number
      then insert_absent key row db (lookup key db.physical_events)
      else err check_violated

  abbrev pub replay_of : Text → PhysicalRow → Option PhysicalRow → Result StoreError Bool
  replay_of key row none = err no_rows
  replay_of key row (some stored) =
      if row_matches stored row then ok false else err (event_key_conflict key)

  -- The statement physicalEventMatchesSQL and what is made of its answer.
  unfoldable pub verify_replay : Delivery → Text → PhysicalRow → Database → Result StoreError Bool
  verify_replay answered key row db = replay_of key row (lookup key db.physical_events)
  verify_replay refused key row db = err statement_failed
  verify_replay lost key row db = err statement_failed

  -- An argument of the statements has U+0000.
  unfoldable pub event_has_nul : CanonicalFact → Bool
  event_has_nul fact =
      has_nul fact.event_key
      || has_nul fact.subject_id
      || not (v.accepts fact.payload)
      || has_nul fact.payload_hash

  -- What other connections do between the two statements is a change of the database.
  abbrev pub after_insert :
      Delivery
      → (Database → Database)
      → Text
      → PhysicalRow
      → Database × Result StoreError (Option (Unit {0}))
      → Database × Result StoreError Bool
  after_insert second between key row (db, err e) = (db, err e)
  after_insert second between key row (db, ok (some _)) = (db, ok true)
  after_insert second between key row (db, ok none) =
      (between db, verify_replay second key row (between db))

  -- InsertPhysicalEvent. A driver that cannot count the rows gives an error like a lost answer.
  unfoldable pub insert_physical_event :
      Delivery
      → Delivery
      → (Database → Database)
      → CanonicalFact
      → Database
      → Database × Result StoreError Bool
  insert_physical_event first second between fact db =
      if not (v.encodes fact.payload)
      then (db, err marshal_failed)
      else after_insert second between fact.event_key (physical_row fact) (
          query_row first
            (bound (event_has_nul fact) (insert_row fact.event_key (physical_row fact) db)) db)
