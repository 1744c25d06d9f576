-- ===== src/Command.antt =====
-- cmd/converge/main.go: what `run` does with a persisted projection; `Invocation` has the flags
-- and the configuration before that.
pub mod Invocation
pub mod Preview
use deterministic_identity_r.Prelude.{
  Bool, true, false, if◌then◌else◌, ◌||◌, Option, none, some, List, [], ◌∷◌, Result, ok, err, ◌>>=◌,
}
use deterministic_identity_r.Prelude.Int.{ℤ}
use deterministic_identity_r.Prelude.Text.{Text, text_eq}
use deterministic_identity_r.Prelude.Dict.{Dict}
use deterministic_identity_r.Reconcile.Model.{
  IdentityProjection, ObservedState, DesiredState, ConvergenceResult, ConvergenceAction, unchanged,
  updated,
}
use deterministic_identity_r.Reconcile.Converge.{TargetAdapter, ConvergeError, converge, equivalent}
use deterministic_identity_r.Postgres.Tables.{Delivery, Database, StoreError}
use deterministic_identity_r.Postgres.Projections.{load_projection}
use deterministic_identity_r.Postgres.Locked.{
  LockedError, store_error, callback_error, Transaction, with_locked_projection, run_callback,
}

pub data Action : Type 0 where
  nothing_to_do updated_target would_update : Action

pub record Report : Type 0 where
  pub subject_id : Text
  pub row_version : ℤ
  pub applied : Bool
  pub action : Action

pub data ProcessError (E : Type 0) : Type 0 where
  not_managed : Text → ProcessError E
  converge_failed : ConvergeError E → ProcessError E
  observe_failed : E → ProcessError E

abbrev pub member : Text → List Text → Bool
member key [] = false
member key (name ∷ names) = text_eq key name || member key names

-- `for key := range desired.Attributes { if !allowed[key] ... }`: a key that is not allowed.
unfoldable pub not_allowed : List Text → Dict Text → Option Text
not_allowed allowed [] = none
not_allowed allowed ((key, value) ∷ attributes) =
    if member key allowed then not_allowed allowed attributes else some key

module _ {S E : Type 0} (a : TargetAdapter S E) (subject : Text) (allowed : List Text) where
  abbrev pub report_of : Bool → DesiredState → Action → Report
  report_of applied desired action = record {
    subject_id = subject;
    row_version = desired.row_version;
    applied = applied;
    action = action;
  }

  abbrev pub action_of : ConvergenceAction → Action
  action_of unchanged = nothing_to_do
  action_of updated = updated_target

  abbrev pub applied_report :
      DesiredState
      → Result (ConvergeError E) ConvergenceResult × S
      → Result (ProcessError E) Report × S
  applied_report desired (err e, s) = (err (converge_failed e), s)
  applied_report desired (ok r, s) = (ok (report_of true desired (action_of r.action)), s)

  abbrev pub preview_report :
      DesiredState → Result E ObservedState × S → Result (ProcessError E) Report × S
  preview_report desired (err e, s) = (err (observe_failed e), s)
  preview_report desired (ok observed, s) = (
    ok (
        report_of false desired
          (if equivalent a observed desired then nothing_to_do else would_update)),
    s,
  )

  abbrev pub act : Bool → DesiredState → Option Text → S → Result (ProcessError E) Report × S
  act apply desired (some key) s = (err (not_managed key), s)
  act true desired none s = applied_report desired (converge (some a) desired s)
  act false desired none s = preview_report desired (a.observe desired.subject_id s)

  -- The callback of `run`.
  unfoldable pub process : Bool → DesiredState → S → Result (ProcessError E) Report × S
  process apply desired s = act apply desired (not_allowed allowed desired.attributes) s

  -- The end of `run`: under the lock with -apply, without it in preview.
  unfoldable pub run :
      Bool → Transaction → Database → S → Result (LockedError (ProcessError E)) Report × S
  run true transaction db s = with_locked_projection transaction subject (some (process true)) db s
  run false transaction db s =
      run_callback true (process false) (load_projection transaction.loads subject db) s
