-- ===== src/Postgres/Physical/Replay.antt =====
-- Physical events are immutable, and deliveries of one event again are recognized.
use deterministic_identity_r.Prelude.{
  ◌≡◌, refl, Bool, true, false, if◌then◌else◌, Option, none, some, Result, ok, err, arith,
  Option-cases, inl, inr,
}
use deterministic_identity_r.Prelude.Int.{pos, leb_ℤ}
use deterministic_identity_r.Prelude.Text.{Text, text_eq_refl, text_eq→≡}
use deterministic_identity_r.Prelude.Dict.{lookup, insert, lookup-insert}
use deterministic_identity_r.Reconcile.Clock.{Time}
use deterministic_identity_r.Reconcile.Model.{CanonicalFact, event_type_name, source_scope_name}
use deterministic_identity_r.Postgres.Tables.{
  Server, Delivery, answered, PhysicalRow, Database, StoreError, event_key_conflict,
}
use deterministic_identity_r.Postgres.Statements.{query_row}
use deterministic_identity_r.Postgres.Physical.{
  physical_row, row_matches, not_distinct, insert_row, verify_replay, insert_physical_event,
  stored_end, event_has_nul,
}

-- The fact of the same event, delivered at another time.
abbrev pub redelivered : Time → CanonicalFact → CanonicalFact
redelivered r fact = record fact { received_at = r }

module _ ⦃v : Server⦄ where
  not_distinct_refl : (t : Option Time) → not_distinct t t ≡ true
  not_distinct_refl none = refl
  not_distinct_refl (some t) = ground arith

  row_matches-redelivered :
      (fact : CanonicalFact) (r : Time)
      → v.same_json fact.payload fact.payload ≡ true
      → row_matches (physical_row fact) (physical_row (redelivered r fact)) ≡ true
  unfolding row_matches physical_row
  row_matches-redelivered fact r same = ground (
    arith,
    text_eq_refl fact.subject_id,
    text_eq_refl fact.payload_hash,
    text_eq_refl (event_type_name fact.event_type),
    text_eq_refl (source_scope_name fact.source_scope),
    not_distinct_refl (stored_end fact.end_time),
  )

  -- The values of the event can be stored: the payload has an encoding, no text has U+0000, and
  -- sequence and revision are not negative.
  abbrev pub Storable : CanonicalFact → Type 0
  Storable fact =
      (v.encodes fact.payload ≡ true)
      × (event_has_nul fact ≡ false)
      × (leb_ℤ (pos 0) fact.freshness.source_sequence ≡ true)
      × (leb_ℤ (pos 0) fact.freshness.revision_number ≡ true)

  inserted :
      (fact : CanonicalFact) (d : Delivery) (b : Database → Database) (db db' : Database)
      → insert_physical_event answered d b fact db ≡ (db', ok true)
      → (v.encodes fact.payload ≡ true)
        × (event_has_nul fact ≡ false)
        × (leb_ℤ (pos 0) fact.freshness.source_sequence ≡ true)
        × (leb_ℤ (pos 0) fact.freshness.revision_number ≡ true)
        × (lookup fact.event_key db'.physical_events ≡ some (physical_row fact))
  unfolding insert_physical_event query_row insert_row verify_replay physical_row
  inserted fact d b db db' h = ground (
    arith,
    lookup-insert fact.event_key fact.event_key (physical_row fact) db.physical_events,
    text_eq_refl fact.event_key,
  )

  has_nul-redelivered :
      (fact : CanonicalFact) (r : Time) → event_has_nul (redelivered r fact) ≡ event_has_nul fact
  unfolding event_has_nul
  has_nul-redelivered fact r = refl

  -- An event that has been stored and is delivered again, at whatever time, is an exact replay: the
  -- call returns false and changes nothing, if JSONB equality holds of the payload with itself.
  pub insert_physical_event-replay :
      (fact : CanonicalFact) (r : Time) (d : Delivery) (b : Database → Database) (db db' : Database)
      → v.same_json fact.payload fact.payload ≡ true
      → insert_physical_event answered d b fact db ≡ (db', ok true)
      → insert_physical_event answered answered (λ x. x) (redelivered r fact) db' ≡ (db', ok false)
  unfolding insert_physical_event query_row insert_row verify_replay physical_row
  insert_physical_event-replay fact r d b db db' same h =
      let (encoded, clean, sequence, revision, there) = inserted fact d b db db' h in
      ground (
        arith,
        encoded,
        clean,
        has_nul-redelivered fact r,
        sequence,
        revision,
        there,
        row_matches-redelivered fact r same,
      )

  abbrev pub first_or_replay :
      CanonicalFact → Database → Option PhysicalRow → Database × Result StoreError Bool
  first_or_replay fact db none = (
    record db { physical_events = insert fact.event_key (physical_row fact) db.physical_events },
    ok true,
  )
  first_or_replay fact db (some stored) = (
    db,
    if row_matches stored (physical_row fact)
        then ok false
        else err (event_key_conflict fact.event_key),
  )

  pub stored_or_replayed :
      (fact : CanonicalFact) (db : Database)
      → Storable fact
      → insert_physical_event answered answered (λ x. x) fact db
        ≡ first_or_replay fact db (lookup fact.event_key db.physical_events)
  unfolding insert_physical_event query_row insert_row verify_replay physical_row
  stored_or_replayed fact db (encoded, clean, sequence, revision) =
      elim (Option-cases (lookup fact.event_key db.physical_events)) [
        | inl absent ↦ ground (arith, absent)
        | inr (stored, found) ↦ ground (arith, found)
      ]

  pub ok-Storable :
      (fact : CanonicalFact) (db db' : Database) (b : Bool)
      → insert_physical_event answered answered (λ x. x) fact db ≡ (db', ok b)
      → Storable fact
  unfolding insert_physical_event query_row insert_row physical_row
  ok-Storable fact db db' b h = ground arith

  pub conflict-Storable :
      (fact : CanonicalFact) (db db' : Database)
      → insert_physical_event answered answered (λ x. x) fact db
        ≡ (db', err (event_key_conflict fact.event_key))
      → Storable fact
  unfolding insert_physical_event query_row insert_row physical_row
  conflict-Storable fact db db' h = ground arith

  -- Every stored event is still there, unchanged.
  abbrev pub KeepsEvents : Database → Database → Type 0
  KeepsEvents db db' =
      (k : Text) (r : PhysicalRow)
      → lookup k db.physical_events ≡ some r
      → lookup k db'.physical_events ≡ some r

  -- InsertPhysicalEvent never changes or removes a stored event, whatever becomes of its two
  -- statements, if the other connections do not in between.
  pub insert_physical_event-KeepsEvents :
      (first second : Delivery) (between : Database → Database) (fact : CanonicalFact)
      (db : Database)
      → ((x : Database) → KeepsEvents x (between x))
      → (k : Text) (r : PhysicalRow) → lookup k db.physical_events ≡ some r
      → lookup k (insert_physical_event first second between fact db).0.physical_events ≡ some r
  unfolding insert_physical_event query_row insert_row
  insert_physical_event-KeepsEvents first second between fact db others k r found = ground (
    arith,
    found,
    others db k r,
    lookup-insert fact.event_key k (physical_row fact) db.physical_events,
    text_eq→≡ fact.event_key k,
  )
