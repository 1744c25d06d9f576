-- ===== src/Postgres/Physical/Acceptance.antt =====
-- When InsertPhysicalEvent accepts a delivery, and as what.
use deterministic_identity_r.Prelude.{
  ◌≡◌, ◌↔◌, refl, sym, subst, ap, ◌∙◌, Bool, true, false, Option, none, some, ok, err, arith,
  Bool-cases, inl, inr,
}
use deterministic_identity_r.Prelude.Text.{text_eq_iff}
use deterministic_identity_r.Prelude.Dict.{lookup, insert}
use deterministic_identity_r.Reconcile.Clock.{Time}
use deterministic_identity_r.Reconcile.Model.{CanonicalFact, event_type_name, source_scope_name}
use deterministic_identity_r.Reconcile.Canonicalize.Keys.{
  event_type_name_inj, source_scope_name_inj,
}
use deterministic_identity_r.Postgres.Tables.{
  Server, answered, PhysicalRow, Database, event_key_conflict,
}
use deterministic_identity_r.Postgres.Physical.{
  physical_row, row_matches, not_distinct, insert_physical_event, stored_end,
}
use deterministic_identity_r.Postgres.Physical.Replay.{
  Storable, first_or_replay, stored_or_replayed, ok-Storable, conflict-Storable,
}

-- Both ends are missing, or they are one instant.
abbrev pub SameEnd : Option Time → Option Time → Type 0
SameEnd none none = Unit {0}
SameEnd (some t) (some u) = t.wall ≡ u.wall
SameEnd _ _ = ⊥

module _ ⦃v : Server⦄ where
  -- The row has what the delivery says, but for the time of receipt.
  pub record IsReplay (stored : PhysicalRow) (fact : CanonicalFact) : Type 0 where
    pub subject_id : stored.subject_id ≡ fact.subject_id
    pub event_type : stored.event_type ≡ fact.event_type
    pub source_scope : stored.source_scope ≡ fact.source_scope
    pub effective_time : stored.effective_time.wall ≡ (v.stored_time fact.effective_time).wall
    pub end_time : SameEnd stored.end_time (stored_end fact.end_time)
    pub modification_time :
        stored.modification_time.wall ≡ (v.stored_time fact.modification_time).wall
    pub source_sequence : stored.source_sequence ≡ fact.freshness.source_sequence
    pub revision_number : stored.revision_number ≡ fact.freshness.revision_number
    pub payload : v.same_json stored.payload fact.payload ≡ true
    pub payload_hash : stored.payload_hash ≡ fact.payload_hash

  not_distinct_iff : (t u : Option Time) → (not_distinct t u ≡ true) ↔ SameEnd t u
  not_distinct_iff none none = ground arith
  not_distinct_iff none (some u) = ground arith
  not_distinct_iff (some t) none = ground arith
  not_distinct_iff (some t) (some u) = ground arith

  row_matches_iff :
      (stored : PhysicalRow) (fact : CanonicalFact)
      → (row_matches stored (physical_row fact) ≡ true) ↔ IsReplay stored fact
  unfolding row_matches physical_row
  row_matches_iff stored fact = (
    λ h. record {
      subject_id = (text_eq_iff _ _).0 (ground arith);
      event_type = event_type_name_inj _ _ ((text_eq_iff _ _).0 (ground arith));
      source_scope = source_scope_name_inj _ _ ((text_eq_iff _ _).0 (ground arith));
      effective_time = ground arith;
      end_time = (not_distinct_iff stored.end_time (stored_end fact.end_time)).0 (ground arith);
      modification_time = ground arith;
      source_sequence = ground arith;
      revision_number = ground arith;
      payload = ground arith;
      payload_hash = (text_eq_iff _ _).0 (ground arith);
    },
    λ r. ground (
      arith,
      r.subject_id,
      r.event_type,
      r.source_scope,
      r.effective_time,
      r.modification_time,
      r.source_sequence,
      r.revision_number,
      r.payload,
      r.payload_hash,
      text_eq_iff stored.subject_id fact.subject_id,
      text_eq_iff (event_type_name stored.event_type) (event_type_name fact.event_type),
      text_eq_iff (source_scope_name stored.source_scope) (source_scope_name fact.source_scope),
      text_eq_iff stored.payload_hash fact.payload_hash,
      (not_distinct_iff stored.end_time (stored_end fact.end_time)).1 r.end_time,
    ),
  )

  -- What a delivery finds and leaves that is accepted as the first one, or as a replay.
  abbrev pub IsAccepted : CanonicalFact → Database → Database → Bool → Type 0
  IsAccepted fact db db' true =
      (lookup fact.event_key db.physical_events ≡ none)
      × (db' ≡ record db {
        physical_events = insert fact.event_key (physical_row fact) db.physical_events;
      })
  IsAccepted fact db db' false =
      (db' ≡ db)
      × (stored : PhysicalRow) × (lookup fact.event_key db.physical_events ≡ some stored)
      × IsReplay stored fact

  -- What it finds and leaves otherwise.
  abbrev pub IsConflict : CanonicalFact → Database → Database → Type 0
  IsConflict fact db db' =
      (db' ≡ db)
      × (stored : PhysicalRow) × (lookup fact.event_key db.physical_events ≡ some stored)
      × (IsReplay stored fact → ⊥)

  some_inj : (a b : PhysicalRow) → ◌≡◌ {A = Option PhysicalRow} (some a) (some b) → a ≡ b
  some_inj a b e = ground arith

  first_or_replay-IsAccepted :
      (fact : CanonicalFact) (db db' : Database) (o : Option PhysicalRow)
      → lookup fact.event_key db.physical_events ≡ o
      → (b : Bool) → (first_or_replay fact db o ≡ (db', ok b)) ↔ IsAccepted fact db db' b
  first_or_replay-IsAccepted fact db db' none found true =
      (λ e. (found, sym (ap (λ r. r.0) e)), λ (absent, d). rw d refl)
  first_or_replay-IsAccepted fact db db' none found false =
      (λ e. absurd (ground arith), λ (d, stored, there, r). absurd (ground arith))
  first_or_replay-IsAccepted fact db db' (some row) found true =
      (λ e. absurd (ground arith), λ (absent, d). absurd (ground arith))
  first_or_replay-IsAccepted fact db db' (some row) found false = (
    λ e. (sym (ap (λ r. r.0) e), row, found, (row_matches_iff row fact).0 (ground arith)),
    λ (d, stored, there, r).
        let same : row_matches row (physical_row fact) ≡ true =
          (row_matches_iff row fact).1
            (subst (λ x. IsReplay x fact) (some_inj stored row (sym there ∙ found)) r) in
        rw (d, same) refl,
  )

  first_or_replay-IsConflict :
      (fact : CanonicalFact) (db db' : Database) (o : Option PhysicalRow)
      → lookup fact.event_key db.physical_events ≡ o
      → (first_or_replay fact db o ≡ (db', err (event_key_conflict fact.event_key)))
        ↔ IsConflict fact db db'
  first_or_replay-IsConflict fact db db' none found =
      (λ e. absurd (ground arith), λ (d, stored, there, r). absurd (ground arith))
  first_or_replay-IsConflict fact db db' (some row) found = (
    λ e. (
      sym (ap (λ r. r.0) e),
      row,
      found,
      λ r. absurd (ground (arith, (row_matches_iff row fact).1 r)),
    ),
    λ (d, stored, there, other). elim (Bool-cases (row_matches row (physical_row fact))) [
      | inl same ↦ absurd (
          other (
            subst (λ x. IsReplay x fact) (some_inj row stored (sym found ∙ there))
              ((row_matches_iff row fact).0 same)))
      | inr differs ↦ rw (d, differs) refl
    ],
  )

  -- With answered statements and nothing in between, InsertPhysicalEvent accepts a delivery exactly
  -- if its values can be stored and either its key is new, and then it returns true and adds the
  -- row, or the row under its key has all that the delivery says, but for the time of receipt, and
  -- then it returns false and changes nothing. It returns the conflict exactly if the values can
  -- be stored and the row under the key says something else, and then it changes nothing.
  pub insert_physical_event-ok_iff :
      (fact : CanonicalFact) (db db' : Database)
      → ((b : Bool)
          → (insert_physical_event answered answered (λ x. x) fact db ≡ (db', ok b))
            ↔ (Storable fact × IsAccepted fact db db' b))
        × ((insert_physical_event answered answered (λ x. x) fact db
              ≡ (db', err (event_key_conflict fact.event_key)))
            ↔ (Storable fact × IsConflict fact db db'))
  insert_physical_event-ok_iff fact db db' =
      let o = lookup fact.event_key db.physical_events in
      (
        λ b. (
          λ h.
              let fits = ok-Storable fact db db' b h in
              (
                fits,
                (first_or_replay-IsAccepted fact db db' o refl b).0
                    (sym (stored_or_replayed fact db fits) ∙ h),
              ),
          λ (fits, accepted).
              stored_or_replayed fact db fits
              ∙ (first_or_replay-IsAccepted fact db db' o refl b).1 accepted,
        ),
        (
          λ h.
              let fits = conflict-Storable fact db db' h in
              (
                fits,
                (first_or_replay-IsConflict fact db db' o refl).0
                    (sym (stored_or_replayed fact db fits) ∙ h),
              ),
          λ (fits, conflict).
              stored_or_replayed fact db fits
              ∙ (first_or_replay-IsConflict fact db db' o refl).1 conflict,
        ),
      )
