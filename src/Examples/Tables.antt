-- ===== src/Examples/Tables.antt =====
-- Events and facts in the tables of the store.
use deterministic_identity_r.Postgres.Statements.{has_nul, any_nul}
use deterministic_identity_r.Postgres.Facts.{fact_has_nul}
use deterministic_identity_r.Postgres.Physical.{event_has_nul}
use deterministic_identity_r.Prelude.{◌≡◌, ◌↔◌, Bool, err, refl, true, some, [], ◌∷◌, ok}
use deterministic_identity_r.Prelude.Text.{text, text_eq}
use deterministic_identity_r.Prelude.Dict.{lookup, insert, has_key}
use deterministic_identity_r.Reconcile.Model.{source_scope_name, event_type_name}
use deterministic_identity_r.Postgres.Tables.{answered, refused, lost, FactRow, Database}
use deterministic_identity_r.Postgres.Statements.{query_row}
use deterministic_identity_r.Postgres.Physical.{physical_row, insert_row, insert_physical_event}
use deterministic_identity_r.Postgres.Physical.Replay.{
  redelivered, Storable, insert_physical_event-KeepsEvents,
}
use deterministic_identity_r.Postgres.Physical.Acceptance.{
  IsAccepted, IsConflict, insert_physical_event-ok_iff,
}
use deterministic_identity_r.Examples.{utc}
use deterministic_identity_r.Postgres.Tables.{event_key_conflict}
use deterministic_identity_r.Postgres.Facts.{
  fact_revision, fact_allowed, fact_row, write_fact, upsert_onto_fact, upsert_fact, slot_taken,
  upsert_canonical_fact,
}
use deterministic_identity_r.Postgres.Facts.Answered.{NoOlder}
use deterministic_identity_r.Postgres.Facts.Freshest.{
  KeepsFacts, upsert_canonical_fact-KeepsFacts, Upserts, done, upsert_canonical_fact-freshest,
}
use deterministic_identity_r.Examples.Engine.{hired_fact}
use deterministic_identity_r.Examples.Store.{server, empty}

abbrev with_event : Database
with_event = record empty { physical_events = (text "e1", physical_row hired_fact) ∷ [] }

first_delivery :
    insert_physical_event answered answered (λ x. x) hired_fact empty ≡ (with_event, ok true)
unfolding insert_physical_event query_row insert_row physical_row lookup insert event_has_nul
    has_nul any_nul
first_delivery = refl

there : lookup (text "e1") with_event.physical_events ≡ some (physical_row hired_fact)
unfolding lookup text_eq
there = refl

insert_physical_event-ok_iff_example :
    ((b : Bool)
      → (insert_physical_event answered answered
            (λ x. x)
            (redelivered (utc 5000) hired_fact)
            with_event
          ≡ (with_event, ok b))
        ↔ (Storable (redelivered (utc 5000) hired_fact)
            × IsAccepted (redelivered (utc 5000) hired_fact) with_event with_event b))
    × ((insert_physical_event answered answered
            (λ x. x)
            (redelivered (utc 5000) hired_fact)
            with_event
          ≡ (with_event, err (event_key_conflict (text "e1"))))
        ↔ (Storable (redelivered (utc 5000) hired_fact)
            × IsConflict (redelivered (utc 5000) hired_fact) with_event with_event))
insert_physical_event-ok_iff_example =
    insert_physical_event-ok_iff (redelivered (utc 5000) hired_fact) with_event with_event

insert_physical_event-KeepsEvents_example :
    lookup
      (text "e1")
      (insert_physical_event lost refused (λ x. x) hired_fact with_event).0.physical_events
    ≡ some (physical_row hired_fact)
insert_physical_event-KeepsEvents_example =
    insert_physical_event-KeepsEvents lost refused (λ x. x) hired_fact with_event (λ x k r h. h)
      (text "e1") (physical_row hired_fact) there

abbrev with_fact : Database
with_fact = record with_event { canonical_facts = (hired_fact.fact_key, fact_row hired_fact) ∷ [] }

first_fact : upsert_canonical_fact answered hired_fact with_event ≡ (with_fact, ok true)
unfolding upsert_canonical_fact query_row upsert_fact upsert_onto_fact write_fact slot_taken
    fact_allowed fact_row lookup insert has_key text_eq source_scope_name event_type_name
    fact_has_nul has_nul any_nul
first_fact = refl

upsert_canonical_fact-KeepsFacts_example :
    KeepsFacts with_fact (upsert_canonical_fact lost hired_fact with_fact).0
upsert_canonical_fact-KeepsFacts_example =
    upsert_canonical_fact-KeepsFacts lost hired_fact with_fact

abbrev quiet_facts : Upserts with_fact with_fact
quiet_facts = done

upsert_canonical_fact-freshest_example :
    (r : FactRow) × (lookup hired_fact.fact_key with_fact.canonical_facts ≡ some r)
    × NoOlder (fact_revision (fact_row hired_fact)) r
upsert_canonical_fact-freshest_example =
    upsert_canonical_fact-freshest true hired_fact with_event with_fact with_fact first_fact
      quiet_facts
