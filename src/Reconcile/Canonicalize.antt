-- ===== src/Reconcile/Canonicalize.antt =====
-- canonicalize.go: an event becomes a fact, or an error.
pub mod Attributes
pub mod Facts
pub mod Checks
pub mod Keys
pub mod AttributeOrder
use deterministic_identity_r.Prelude.{
  Bool, true, false, if◌then◌else◌, Option, none, some, List, [], ◌∷◌, Result, ok, err, ◌>>=◌, ◌>>◌,
  refuse_if,
}
use mathlib.Core.Option
use deterministic_identity_r.Prelude.Int.{pos, ltb_ℤ}
use deterministic_identity_r.Prelude.Text.{Text, text, text_eq, trim_space, join}
use deterministic_identity_r.Prelude.Text.Case.{Unicode, to_lower}
use deterministic_identity_r.Prelude.Sort.{Sorter}
use deterministic_identity_r.Reconcile.Clock.{Time, is_zero, normalize_time}
use deterministic_identity_r.Reconcile.Model.{
  EventType, hire, rehire, data_update, leave, return_from_leave, conversion, transfer, termination,
  event_type_name, SourceScope, hire_snapshot, lifecycle, source_scope_name, Fields, end,
  PhysicalEvent, CanonicalFact, Error, subject_id_required, event_key_required,
  unsupported_event_type, unsupported_source_scope, effective_time_required,
  modification_time_required, source_sequence_negative, revision_number_negative, marshal_failed,
}
use deterministic_identity_r.Reconcile.Platform.{Platform, HashEnvelope}
use Attributes.{attributes_from_payload}

-- validEventType: the event type of a known name.
unfoldable pub parse_event_type : Text → Option EventType
parse_event_type t =
    if text_eq t (event_type_name hire)
    then some hire
    else if text_eq t (event_type_name rehire)
    then some rehire
    else if text_eq t (event_type_name data_update)
    then some data_update
    else if text_eq t (event_type_name leave)
    then some leave
    else if text_eq t (event_type_name return_from_leave)
    then some return_from_leave
    else if text_eq t (event_type_name conversion)
    then some conversion
    else if text_eq t (event_type_name transfer)
    then some transfer
    else if text_eq t (event_type_name termination)
    then some termination
    else none

unfoldable pub parse_source_scope : Text → Option SourceScope
parse_source_scope t =
    if text_eq t (source_scope_name hire_snapshot)
    then some hire_snapshot
    else if text_eq t (source_scope_name lifecycle)
    then some lifecycle
    else none

abbrev pub or_fail : {A : Type 0} → Option A → Error → Result Error A
or_fail none e = err e
or_fail (some a) e = ok a

-- A nil payload becomes an empty one.
abbrev pub or_empty : Option Fields → Fields
or_empty none = end
or_empty (some fields) = fields

abbrev pub unit_separator : Text
unit_separator = 0x1f ∷ []

abbrev pub normalize_end : Option Time → Option Time
normalize_end none = none
normalize_end (some t) = some (normalize_time t)

-- A zero delivery time is replaced by the modification time.
abbrev pub or_modified : Time → Time → Time
or_modified received modified = if is_zero received then modified else received

module _ ⦃p : Platform⦄ where
  unfoldable pub make_fact_key : Text → SourceScope → EventType → Time → Text
  make_fact_key subject_id source_scope event_type effective_time =
      join
        (subject_id
          ∷ source_scope_name source_scope
          ∷ event_type_name event_type
          ∷ p.format_time effective_time
          ∷ [])
        unit_separator

  abbrev pub format_end : Option Time → Option Text
  format_end none = none
  format_end (some t) = some (p.format_time t)

  -- The envelope of an event whose identifiers and times are normalized.
  unfoldable pub hash_envelope : PhysicalEvent → Text → EventType → SourceScope → HashEnvelope
  hash_envelope event subject_id event_type source_scope = record {
    subject_id = subject_id;
    event_type = event_type;
    source_scope = source_scope;
    effective_time = p.format_time (normalize_time event.effective_time);
    end_time = format_end (normalize_end event.end_time);
    modification_time = p.format_time (normalize_time event.modification_time);
    source_sequence = event.source_sequence;
    revision_number = event.revision_number;
    payload = or_empty event.payload;
  }

  -- The record that Canonicalize returns in the end.
  unfoldable pub build_fact :
      PhysicalEvent
      → Time
      → Text
      → Text
      → EventType
      → SourceScope
      → List (Text × Text)
      → Text
      → CanonicalFact
  build_fact event received_at subject_id event_key event_type source_scope attributes hash =
      record {
        fact_key =
            make_fact_key subject_id source_scope event_type (normalize_time event.effective_time);
        event_key = event_key;
        subject_id = subject_id;
        event_type = event_type;
        source_scope = source_scope;
        effective_time = normalize_time event.effective_time;
        end_time = normalize_end event.end_time;
        modification_time = normalize_time event.modification_time;
        received_at =
            or_modified (normalize_time received_at) (normalize_time event.modification_time);
        freshness = record {
          source_sequence = event.source_sequence;
          modification_time = normalize_time event.modification_time;
          revision_number = event.revision_number;
          physical_event_key = event_key;
        };
        payload_hash = hash;
        payload = or_empty event.payload;
        attributes = attributes;
      }

  module _ ⦃s : Sorter⦄ ⦃u : Unicode⦄ where
    unfoldable pub canonicalize : PhysicalEvent → Time → Result Error CanonicalFact
    canonicalize event received_at = do
      let subject_id = trim_space event.subject_id
      refuse_if (text_eq subject_id []) subject_id_required
      let event_key = trim_space event.event_key
      refuse_if (text_eq event_key []) event_key_required
      event_type ←
          or_fail (parse_event_type (to_lower (trim_space event.event_type)))
            (unsupported_event_type event.event_type)
      source_scope ←
          or_fail (parse_source_scope (to_lower (trim_space event.source_scope)))
            (unsupported_source_scope event.source_scope)
      refuse_if (is_zero event.effective_time) effective_time_required
      refuse_if (is_zero event.modification_time) modification_time_required
      refuse_if (ltb_ℤ event.source_sequence (pos 0)) source_sequence_negative
      refuse_if (ltb_ℤ event.revision_number (pos 0)) revision_number_negative
      attributes ← attributes_from_payload (or_empty event.payload)
      hash ←
          or_fail (p.digest (hash_envelope event subject_id event_type source_scope)) marshal_failed
      ok (build_fact event received_at subject_id event_key event_type source_scope attributes hash)
