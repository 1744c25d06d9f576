-- ===== src/Reconcile/Canonicalize/Facts.antt =====
-- What a canonical fact has in common with its event.
use deterministic_identity_r.Prelude.{
  ◌≡◌, ◌≢◌, refl, false, Option, none, some, List, [], Result, ok, err, ◌>>=◌, arith, >>=-eq-ok,
  refuse_if-eq-ok,
}
use deterministic_identity_r.Prelude.Int.{ℤ, pos, ltb_ℤ, ◌≤ℤ◌}
use deterministic_identity_r.Prelude.Text.{Text, text_eq, text_eq_refl, trim_space}
use deterministic_identity_r.Prelude.Text.Case.{Unicode, to_lower}
use deterministic_identity_r.Prelude.Sort.{Sorter}
use deterministic_identity_r.Reconcile.Clock.{Time, is_zero, normalize_time, zone-normalize_time}
use deterministic_identity_r.Reconcile.Model.{
  EventType, SourceScope, PhysicalEvent, CanonicalFact, Error,
}
use deterministic_identity_r.Reconcile.Platform.{Platform}
use deterministic_identity_r.Reconcile.Canonicalize.{
  canonicalize, build_fact, make_fact_key, hash_envelope, parse_event_type, parse_source_scope,
  or_fail, or_empty, or_modified,
}
use deterministic_identity_r.Reconcile.Canonicalize.Attributes.{attributes_from_payload}

or_fail-eq-ok :
    {A B : Type 0} (o : Option A) (e : Error) (k : A → Result Error B) {b : B}
    → (or_fail o e >>= k) ≡ ok b
    → (a : A) × (o ≡ some a) × (k a ≡ ok b)
or_fail-eq-ok none e k h = cc
or_fail-eq-ok (some a) e k h = (a, refl, h)

module _ ⦃p : Platform⦄ ⦃s : Sorter⦄ ⦃u : Unicode⦄ where
  -- The checks that an accepted event has passed, and the fact that it became.
  pub record Accepted (event : PhysicalEvent) (received_at : Time) (fact : CanonicalFact)
      : Type 0 where
    pub subject_id : text_eq (trim_space event.subject_id) [] ≡ false
    pub event_key : text_eq (trim_space event.event_key) [] ≡ false
    pub event_type : EventType
    pub source_scope : SourceScope
    pub event_type_parsed :
        parse_event_type (to_lower (trim_space event.event_type)) ≡ some event_type
    pub source_scope_parsed :
        parse_source_scope (to_lower (trim_space event.source_scope)) ≡ some source_scope
    pub effective_time : is_zero event.effective_time ≡ false
    pub modification_time : is_zero event.modification_time ≡ false
    pub source_sequence : ltb_ℤ event.source_sequence (pos 0) ≡ false
    pub revision_number : ltb_ℤ event.revision_number (pos 0) ≡ false
    pub attributes : List (Text × Text)
    pub attributes_read : attributes_from_payload (or_empty event.payload) ≡ ok attributes
    pub hash : Text
    pub hash_made :
        p.digest (hash_envelope event (trim_space event.subject_id) event_type source_scope)
        ≡ some hash
    pub built :
        build_fact event received_at
          (trim_space event.subject_id)
          (trim_space event.event_key)
          event_type
          source_scope
          attributes
          hash
        ≡ fact

  pub canonicalize-Accepted :
      (event : PhysicalEvent) (received_at : Time) {fact : CanonicalFact}
      → canonicalize event received_at ≡ ok fact
      → Accepted event received_at fact
  unfolding canonicalize
  canonicalize-Accepted event received_at h =
      let (h1, k1) = refuse_if-eq-ok _ _ _ h in
      let (h2, k2) = refuse_if-eq-ok _ _ _ k1 in
      let (t, ht, k3) = or_fail-eq-ok _ _ _ k2 in
      let (c, hc, k4) = or_fail-eq-ok _ _ _ k3 in
      let (h5, k5) = refuse_if-eq-ok _ _ _ k4 in
      let (h6, k6) = refuse_if-eq-ok _ _ _ k5 in
      let (h7, k7) = refuse_if-eq-ok _ _ _ k6 in
      let (h8, k8) = refuse_if-eq-ok _ _ _ k7 in
      let (attributes, ha, k9) = >>=-eq-ok _ _ k8 in
      let (hash, hh, k10) = or_fail-eq-ok _ _ _ k9 in
      record {
        subject_id = h1;
        event_key = h2;
        event_type = t;
        source_scope = c;
        event_type_parsed = ht;
        source_scope_parsed = hc;
        effective_time = h5;
        modification_time = h6;
        source_sequence = h7;
        revision_number = h8;
        attributes = attributes;
        attributes_read = ha;
        hash = hash;
        hash_made = hh;
        built = cc;
      }

  -- What the rest of the engine relies on.
  pub record IsCanonical (f : CanonicalFact) : Type 0 where
    pub subject_id-ne-nil : f.subject_id ≢ []
    pub event_key-ne-nil : f.event_key ≢ []
    pub fact_key :
        f.fact_key ≡ make_fact_key f.subject_id f.source_scope f.event_type f.effective_time
    pub physical_event_key : f.freshness.physical_event_key ≡ f.event_key
    pub freshness_time : f.freshness.modification_time ≡ f.modification_time
    pub sequence_nonneg : pos 0 ≤ℤ f.freshness.source_sequence
    pub revision_nonneg : pos 0 ≤ℤ f.freshness.revision_number
    pub effective_utc : f.effective_time.zone ≡ pos 0
    pub modification_utc : f.modification_time.zone ≡ pos 0

  ne-nil_of_text_eq : (t : Text) → text_eq t [] ≡ false → t ≢ []
  ne-nil_of_text_eq t h e = ground (arith, text_eq_refl [])

  build_fact-IsCanonical :
      (event : PhysicalEvent) (received_at : Time) (subject_id event_key : Text) (t : EventType)
      (c : SourceScope) (attributes : List (Text × Text)) (hash : Text)
      → text_eq subject_id [] ≡ false
      → text_eq event_key [] ≡ false
      → ltb_ℤ event.source_sequence (pos 0) ≡ false
      → ltb_ℤ event.revision_number (pos 0) ≡ false
      → IsCanonical (build_fact event received_at subject_id event_key t c attributes hash)
  unfolding build_fact
  build_fact-IsCanonical event received_at subject_id event_key t c attributes hash h k m n =
      record {
        subject_id-ne-nil = ne-nil_of_text_eq subject_id h;
        event_key-ne-nil = ne-nil_of_text_eq event_key k;
        fact_key = refl;
        physical_event_key = refl;
        freshness_time = refl;
        sequence_nonneg = ground arith;
        revision_nonneg = ground arith;
        effective_utc = zone-normalize_time event.effective_time;
        modification_utc = zone-normalize_time event.modification_time;
      }

  -- A fact that Canonicalize returns is canonical: its subject and event key are not empty, its
  -- fact key is made of its subject, scope, type and effective time, its freshness tuple carries
  -- its event key and modification time, sequence and revision are not negative, and the times
  -- are in UTC.
  pub canonicalize-IsCanonical :
      (event : PhysicalEvent) (received_at : Time) {fact : CanonicalFact}
      → canonicalize event received_at ≡ ok fact
      → IsCanonical fact
  canonicalize-IsCanonical event received_at h =
      let a = canonicalize-Accepted event received_at h in
      rw a.built at (
        build_fact-IsCanonical event received_at (trim_space event.subject_id)
          (trim_space event.event_key) a.event_type a.source_scope a.attributes a.hash a.subject_id
          a.event_key a.source_sequence a.revision_number)

  -- The fact of the same event, delivered at another time.
  abbrev pub delivered_at : Time → CanonicalFact → CanonicalFact
  delivered_at q f = record f { received_at = or_modified (normalize_time q) f.modification_time }

  abbrev pub map_ok :
      (CanonicalFact → CanonicalFact) → Result Error CanonicalFact → Result Error CanonicalFact
  map_ok g (ok a) = ok (g a)
  map_ok g (err e) = err e

  -- The delivery time decides neither the verdict nor anything of the fact but its received_at.
  pub canonicalize-delivered_at :
      (event : PhysicalEvent) (r q : Time)
      → canonicalize event q ≡ map_ok (delivered_at q) (canonicalize event r)
  unfolding canonicalize build_fact
  canonicalize-delivered_at event r q = ground arith

  abbrev pub rezone_end : ℤ → Option Time → Option Time
  rezone_end zone none = none
  rezone_end zone (some t) = some (record t { zone = zone })

  -- The event with its times written in other zones.
  abbrev pub rezone : ℤ → ℤ → ℤ → PhysicalEvent → PhysicalEvent
  rezone effective modification last event = record event {
    effective_time = record event.effective_time { zone = effective };
    modification_time = record event.modification_time { zone = modification };
    end_time = rezone_end last event.end_time;
  }

  -- An event with its times written in other zones gives the same fact, hash and keys included, or
  -- the same error.
  pub canonicalize-rezone :
      (effective modification last : ℤ) (event : PhysicalEvent) (r : Time)
      → canonicalize (rezone effective modification last event) r ≡ canonicalize event r
  unfolding canonicalize build_fact hash_envelope is_zero normalize_time
  canonicalize-rezone effective modification last event r = ground arith
