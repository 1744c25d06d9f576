-- ===== src/Postgres/Locked.antt =====
-- WithLockedProjection of postgres.go. While the transaction lasts no other writer changes the
-- locked row, so the database is a constant of the call.
use deterministic_identity_r.Prelude.{
  Bool, true, false, if◌then◌else◌, Option, none, some, Result, ok, err,
}
use deterministic_identity_r.Prelude.Text.{Text}
use deterministic_identity_r.Reconcile.Model.{IdentityProjection}
use deterministic_identity_r.Postgres.Tables.{
  Delivery, Database, StoreError, callback_required, begin_failed, commit_failed,
}
use deterministic_identity_r.Postgres.Projections.{load_projection}

pub data LockedError (E : Type 0) : Type 0 where
  store_error : StoreError → LockedError E
  callback_error : E → LockedError E

-- How the statements of the transaction fare.
pub record Transaction : Type 0 where
  pub begins : Bool
  pub loads : Delivery
  pub commits : Bool

module _ {E A S : Type 0} where
  -- What is returned once the callback has run on a state that it changes.
  abbrev pub commit : Bool → Result E A × S → Result (LockedError E) A × S
  commit commits (err e, s) = (err (callback_error e), s)
  commit true (ok a, s) = (ok a, s)
  commit false (ok a, s) = (err (store_error commit_failed), s)

  abbrev pub run_callback :
      Bool
      → (IdentityProjection → S → Result E A × S)
      → Result StoreError IdentityProjection
      → S
      → Result (LockedError E) A × S
  run_callback commits callback (err e) s = (err (store_error e), s)
  run_callback commits callback (ok projection) s = commit commits (callback projection s)

  unfoldable pub with_locked_projection :
      Transaction
      → Text
      → Option (IdentityProjection → S → Result E A × S)
      → Database
      → S
      → Result (LockedError E) A × S
  with_locked_projection transaction subject_id none db s = (err (store_error callback_required), s)
  with_locked_projection transaction subject_id (some callback) db s =
      if transaction.begins
      then run_callback transaction.commits callback
          (load_projection transaction.loads subject_id db) s
      else (err (store_error begin_failed), s)
