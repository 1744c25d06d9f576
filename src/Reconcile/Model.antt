-- ===== src/Reconcile/Model.antt =====
-- model.go: the types of the engine. Strings that canonicalization has checked are enumerations.
pub mod Payload
use deterministic_identity_r.Prelude.{Bool, true, false, Option, List}
use deterministic_identity_r.Prelude.Int.{ℤ}
use deterministic_identity_r.Prelude.Text.{Text, text}
use deterministic_identity_r.Prelude.Dict.{Dict}
use deterministic_identity_r.Reconcile.Clock.{Time}
pub use Payload.{
  Value, Fields, Items, null, bool, string, number, float, array, object, string_map, nil, cons,
  end, field,
}
unfoldable pub use Payload.{entries}

pub data EventType : Type 0 where
  hire rehire data_update leave return_from_leave conversion transfer termination : EventType

unfoldable pub event_type_name : EventType → Text
event_type_name hire = text "hire"
event_type_name rehire = text "rehire"
event_type_name data_update = text "data_update"
event_type_name leave = text "leave"
event_type_name return_from_leave = text "return_from_leave"
event_type_name conversion = text "conversion"
event_type_name transfer = text "transfer"
event_type_name termination = text "termination"

-- Whether the event creates or restores an identity.
unfoldable pub is_hire : EventType → Bool
is_hire hire = true
is_hire rehire = true
is_hire _ = false

pub data SourceScope : Type 0 where
  hire_snapshot lifecycle : SourceScope

unfoldable pub source_scope_name : SourceScope → Text
source_scope_name hire_snapshot = text "hire_snapshot"
source_scope_name lifecycle = text "lifecycle"

pub data DecisionAction : Type 0 where
  process_now schedule skip no_op : DecisionAction

pub data ReasonCode : Type 0 where
  accepted accepted_retroactive scheduled_future_hire future_lifecycle : ReasonCode
  duplicate_delivery duplicate_or_older pre_cutoff past_end_time scope_mismatch : ReasonCode

-- `unset` is the empty string, the zero value of the Go type.
pub data LifecycleState : Type 0 where
  unset unknown active on_leave terminated : LifecycleState

-- A record as it comes from a source system, nothing of it checked.
pub record PhysicalEvent : Type 0 where
  pub event_key : Text
  pub subject_id : Text
  pub event_type : Text
  pub source_scope : Text
  pub effective_time : Time
  pub end_time : Option Time
  pub modification_time : Time
  pub source_sequence : ℤ
  pub revision_number : ℤ
  pub payload : Option Fields

pub record FreshnessTuple : Type 0 where
  pub source_sequence : ℤ
  pub modification_time : Time
  pub revision_number : ℤ
  pub physical_event_key : Text

pub record CanonicalFact : Type 0 where
  pub fact_key : Text
  pub event_key : Text
  pub subject_id : Text
  pub event_type : EventType
  pub source_scope : SourceScope
  pub effective_time : Time
  pub end_time : Option Time
  pub modification_time : Time
  pub received_at : Time
  pub freshness : FreshnessTuple
  pub payload_hash : Text
  pub payload : Fields
  pub attributes : Dict Text

pub record IdentityProjection : Type 0 where
  pub subject_id : Text
  pub exists : Bool
  pub enabled : Bool
  pub lifecycle_state : LifecycleState
  pub attributes : Dict Text
  pub source_fact_key : Text
  pub source_event_key : Text
  pub effective_time : Time
  pub freshness : FreshnessTuple
  pub row_version : ℤ

abbrev pub DesiredState : Type 0
DesiredState = IdentityProjection

pub record ObservedState : Type 0 where
  pub exists : Bool
  pub enabled : Bool
  pub attributes : Dict Text

pub data ConvergenceAction : Type 0 where
  unchanged updated : ConvergenceAction

pub record ConvergenceResult : Type 0 where
  pub action : ConvergenceAction
  pub observed : ObservedState

pub record EventResolution : Type 0 where
  pub event_key : Text
  pub fact_key : Text
  pub action : DecisionAction
  pub reason : ReasonCode
  pub fact : CanonicalFact

pub record BatchResult : Type 0 where
  pub decisions : List EventResolution
  pub projections : Dict IdentityProjection

-- The errors of the engine, one for each place that returns one.
pub data Error : Type 0 where
  policy_now_required retroactive_window_negative hire_window_negative : Error
  past_end_grace_negative : Error
  subject_id_required event_key_required : Error
  unsupported_event_type : Text → Error
  unsupported_source_scope : Text → Error
  effective_time_required modification_time_required : Error
  source_sequence_negative revision_number_negative : Error
  attribute_name_empty : Text → Error
  attribute_names_collide : Text → Text → Text → Error
  marshal_failed : Error
  canonicalize_failed : Text → Error → Error
  event_key_reused : Text → Error
  evaluate_failed : Text → Error → Error
