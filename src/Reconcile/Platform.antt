-- ===== src/Reconcile/Platform.antt =====
-- What canonicalize.go takes from the standard library and this development leaves open: the text
-- of a time and of a float64, and the digest of an envelope.
use deterministic_identity_r.Prelude.{ℕ, Option}
use deterministic_identity_r.Prelude.Int.{ℤ}
use deterministic_identity_r.Prelude.Text.{Text}
use deterministic_identity_r.Reconcile.Clock.{Time}
use deterministic_identity_r.Reconcile.Model.{EventType, SourceScope, Fields}

-- The content that the payload hash covers.
pub record HashEnvelope : Type 0 where
  pub subject_id : Text
  pub event_type : EventType
  pub source_scope : SourceScope
  pub effective_time : Text
  pub end_time : Option Text
  pub modification_time : Text
  pub source_sequence : ℤ
  pub revision_number : ℤ
  pub payload : Fields

-- `format_time` is Format(time.RFC3339Nano), `format_float` is FormatFloat(x, 'f', -1, 64) on the
-- bits of x, and `digest` is the hexadecimal SHA-256 of the JSON encoding, `none` if the payload
-- has no encoding.
pub record Platform : Type 0 where
  pub format_time : Time → Text
  pub format_float : ℕ → Text
  pub digest : HashEnvelope → Option Text
