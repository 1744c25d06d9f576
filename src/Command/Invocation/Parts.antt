-- ===== src/Command/Invocation/Parts.antt =====
-- What stands behind a success of `run`.
use deterministic_identity_r.Prelude.{
  ◌≡◌, ◌≢◌, refl, ap, subst, inl, inr, Bool, true, false, not, ◌||◌, ◌==◌, none, List, [], Result,
  ok, err, ok_inj, >>=-eq-ok, refuse_if-eq-ok, Bool-cases, Option-cases, arith,
}
use deterministic_identity_r.Prelude.Int.{pos, ltb_ℤ}
use deterministic_identity_r.Prelude.Text.{Text, text, text_eq, trim_space}
use deterministic_identity_r.Prelude.Text.Case.{Unicode}
use deterministic_identity_r.Scim.Config.{Adapter, ConfigError, new}
use deterministic_identity_r.Reconcile.Model.{IdentityProjection, DesiredState}
use deterministic_identity_r.Reconcile.Converge.{TargetAdapter}
use deterministic_identity_r.Postgres.Tables.{Database, StoreError, no_rows}
use deterministic_identity_r.Postgres.Projections.{load_projection}
use deterministic_identity_r.Postgres.Locked.{
  LockedError, store_error, callback_error, Transaction, run_callback, with_locked_projection,
}
use deterministic_identity_r.Scim.Responses.{ScimError}
use deterministic_identity_r.Command.{Report, ProcessError, not_allowed, process, run}
use deterministic_identity_r.Command.Invocation.{
  Flags, Environment, or_invalid, configured, config_of, configure, reported,
}

module _ {S E : Type 0} (target : TargetAdapter S E) (subject : Text) (allowed : List Text) where
  -- A callback that has ended well was given a projection whose attributes are allowed.
  callback_allowed :
      (apply commits : Bool) (v : Result StoreError IdentityProjection) (s t : S) (r : Report)
      → run_callback commits (process target subject allowed apply) v s ≡ (ok r, t)
      → (d : DesiredState) × (v ≡ ok d) × (not_allowed allowed d.attributes ≡ none)
  unfolding process
  callback_allowed apply commits (err x) s t r e = absurd (ground (arith))
  callback_allowed apply commits (ok d) s t r e =
      elim (Option-cases (not_allowed allowed d.attributes)) [
        | inl all ↦ (d, refl, all)
        | inr (key, refused) ↦ absurd (ground (arith, refused))
      ]

  pub run_allowed :
      (apply : Bool) (x : Transaction) (db : Database) (s t : S) (r : Report)
      → run target subject allowed apply x db s ≡ (ok r, t)
      → (d : DesiredState) × (load_projection x.loads subject db ≡ ok d)
        × (not_allowed allowed d.attributes ≡ none)
  unfolding run with_locked_projection
  run_allowed false x db s t r e =
      callback_allowed false true (load_projection x.loads subject db) s t r e
  run_allowed true x db s t r e = elim (Bool-cases x.begins) [
    | inl begun ↦
        callback_allowed true x.commits (load_projection x.loads subject db) s t r (rw begun at e)
    | inr failed ↦ absurd (ground (arith))
  ]

reported_error :
    {S : Type 0} (x : LockedError (ProcessError ScimError)) (s t : S) (r : Report)
    → reported (err x, s) ≢ (ok r, t)
reported_error (store_error no_rows) s t r e = ground arith
reported_error (store_error x) s t r e = ground arith
reported_error (callback_error x) s t r e = ground arith

pub reported_ok :
    {S : Type 0} (v : Result (LockedError (ProcessError ScimError)) Report × S) (r : Report) (t : S)
    → reported v ≡ (ok r, t)
    → v ≡ (ok r, t)
reported_ok (ok q, s) r t e = ground (arith)
reported_ok (err x, s) r t e = absurd (reported_error x s t r e)

module _ ⦃u : Unicode⦄ (env : Environment) where
  configured_ok : (v : Result ConfigError Adapter) (a : Adapter) → configured v ≡ ok a → v ≡ ok a
  configured_ok (ok b) a e = ap ok (ok_inj _ b a refl e)
  configured_ok (err x) a e = absurd (ground (arith))

  pub configure-parts :
      (arguments : List Text) (flags : Flags) (a : Adapter)
      → configure env arguments ≡ ok (flags, a)
      → (or_invalid (env.parse arguments) ≡ ok flags)
        × (new env.parse_url (config_of env flags) ≡ ok a)
  unfolding configure
  configure-parts arguments flags a e =
      let (f, ef, e1) = >>=-eq-ok (or_invalid (env.parse arguments)) _ e in
      let dsn = env.getenv (text "IDENTITY_DATABASE_URL") in
      let (_, e2) =
        refuse_if-eq-ok (text_eq (trim_space f.subject) [] || not (f.remaining == 0)) _ _ e1 in
      let (_, e3) = refuse_if-eq-ok (not (ltb_ℤ (pos 0) f.timeout)) _ _ e2 in
      let (_, e4) = refuse_if-eq-ok (text_eq dsn []) _ _ e3 in
      let (b, eb, e5) = >>=-eq-ok (configured (new env.parse_url (config_of env f))) _ e4 in
      let (_, e6) = refuse_if-eq-ok (not (env.opens dsn)) _ _ e5 in
      subst
        (λ p.
          (or_invalid (env.parse arguments) ≡ ok p.0)
          × (new env.parse_url (config_of env p.0) ≡ ok p.1))
        (ok_inj _ (f, b) (flags, a) refl e6)
        (ef, configured_ok (new env.parse_url (config_of env f)) b eb)
