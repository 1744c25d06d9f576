-- ===== src/Postgres/Tables.antt =====
-- The tables of schema/postgres.sql, and what the server decides about their columns.
use deterministic_identity_r.Prelude.{Bool, ◌&&◌, ◌||◌, if◌then◌else◌, Option, Ordering}
use deterministic_identity_r.Prelude.Int.{ℤ, pos, ltb_ℤ, eq_ℤ}
use deterministic_identity_r.Prelude.Comparison.{is_lt, IsComparison}
use deterministic_identity_r.Prelude.Text.{Text}
use deterministic_identity_r.Prelude.Dict.{Dict}
use Prim.Native.Nat.{◌^◌}
use deterministic_identity_r.Prelude.{◌-◌}
use deterministic_identity_r.Reconcile.Clock.{Time}
use deterministic_identity_r.Reconcile.Model.{
  EventType, SourceScope, LifecycleState, Fields, FreshnessTuple,
}

-- What PostgreSQL decides: `stored_time` is the value that a TIMESTAMPTZ column keeps of a time (it
-- counts whole microseconds), `collate` the order of TEXT under the collation of the database,
-- `same_json` equality of JSONB, `encodes` whether a payload has a JSON encoding, and `accepts`
-- whether JSONB takes that encoding.
pub record Server : Type 0 where
  pub stored_time : Time → Time
  pub collate : Text → Text → Ordering
  pub collate-IsComparison : IsComparison collate
  pub same_json : Fields → Fields → Bool
  pub encodes : Fields → Bool
  pub accepts : Fields → Bool

-- How a statement fares on its way: it runs, it does not reach the server, or it runs and its
-- answer is lost.
pub data Delivery : Type 0 where
  answered refused lost : Delivery

pub record PhysicalRow : Type 0 where
  pub subject_id : Text
  pub event_type : EventType
  pub source_scope : SourceScope
  pub effective_time : Time
  pub end_time : Option Time
  pub modification_time : Time
  pub source_sequence : ℤ
  pub revision_number : ℤ
  pub payload : Fields
  pub payload_hash : Text
  pub received_at : Time

pub record FactRow : Type 0 where
  pub event_key : Text
  pub subject_id : Text
  pub event_type : EventType
  pub source_scope : SourceScope
  pub effective_time : Time
  pub end_time : Option Time
  pub modification_time : Time
  pub source_sequence : ℤ
  pub revision_number : ℤ
  pub payload : Fields
  pub attributes : Dict Text
  pub payload_hash : Text
  pub received_at : Time

pub record StateRow : Type 0 where
  pub row_version : ℤ
  pub exists_flag : Bool
  pub enabled : Bool
  pub lifecycle_state : LifecycleState
  pub attributes : Dict Text
  pub source_fact_key : Text
  pub source_event_key : Text
  pub effective_time : Time
  pub source_sequence : ℤ
  pub source_modification_time : Time
  pub source_revision_number : ℤ
  pub source_physical_event_key : Text

-- Each table under its primary key.
pub record Database : Type 0 where
  pub physical_events : Dict PhysicalRow
  pub canonical_facts : Dict FactRow
  pub canonical_state : Dict StateRow

pub data StoreError : Type 0 where
  marshal_failed statement_failed : StoreError
  check_violated unique_violated reference_missing bigint_overflow text_refused : StoreError
  event_key_conflict : Text → StoreError
  negative_row_version no_rows callback_required begin_failed commit_failed : StoreError

abbrev pub max_bigint : ℤ
max_bigint = pos (2 ^ 63 - 1)

-- The four columns that order revisions.
pub record Revision : Type 0 where
  pub sequence : ℤ
  pub modification : Time
  pub number : ℤ
  pub key : Text

module _ ⦃v : Server⦄ where
  -- The disjunction of upsertCanonicalFactSQL and compareAndSetProjectionSQL: the first revision
  -- is below the second.
  unfoldable pub any_column_less : Revision → Revision → Bool
  any_column_less old new =
      ltb_ℤ old.sequence new.sequence
      || (eq_ℤ old.sequence new.sequence && ltb_ℤ old.modification.wall new.modification.wall)
      || (eq_ℤ old.sequence new.sequence
          && eq_ℤ old.modification.wall new.modification.wall
          && ltb_ℤ old.number new.number)
      || (eq_ℤ old.sequence new.sequence
          && eq_ℤ old.modification.wall new.modification.wall
          && eq_ℤ old.number new.number
          && is_lt (v.collate old.key new.key))

  -- The row comparison of updateProjectionSQL, which goes by the first columns that differ.
  unfoldable pub row_less : Revision → Revision → Bool
  row_less old new =
      if eq_ℤ old.sequence new.sequence
      then (if eq_ℤ old.modification.wall new.modification.wall
          then (if eq_ℤ old.number new.number
              then is_lt (v.collate old.key new.key)
              else ltb_ℤ old.number new.number)
          else ltb_ℤ old.modification.wall new.modification.wall)
      else ltb_ℤ old.sequence new.sequence

  -- A freshness tuple as the columns keep it.
  unfoldable pub revision_of : FreshnessTuple → Revision
  revision_of f = record {
    sequence = f.source_sequence;
    modification = v.stored_time f.modification_time;
    number = f.revision_number;
    key = f.physical_event_key;
  }
