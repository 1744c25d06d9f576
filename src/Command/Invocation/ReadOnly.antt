-- ===== src/Command/Invocation/ReadOnly.antt =====
-- A run without -apply.
use deterministic_identity_r.Prelude.{◌≡◌, refl, ◌∙◌, false, some, List, Result, ok, err, ok_inj}
use deterministic_identity_r.Prelude.Text.{Text, text}
use deterministic_identity_r.Prelude.Text.Case.{Unicode}
use deterministic_identity_r.Postgres.Tables.{Database, no_rows}
use deterministic_identity_r.Postgres.Locked.{LockedError, store_error, callback_error, Transaction}
use deterministic_identity_r.Scim.Config.{Adapter}
use deterministic_identity_r.Scim.Responses.{ScimError}
use deterministic_identity_r.Scim.Service.{scim_target}
use deterministic_identity_r.Scim.Web.{Web, HttpRequest}
use deterministic_identity_r.Scim.Http.{http_service}
use deterministic_identity_r.Scim.Http.Searches.{observe_keeps}
use deterministic_identity_r.Command.{Report, ProcessError, run}
use deterministic_identity_r.Command.Preview.{run-preview}
use deterministic_identity_r.Command.Invocation.{
  Flags, Given, flags_of, Environment, CommandError, managed_names, configure, reported,
  run_configured, run_command,
}
use deterministic_identity_r.Command.Invocation.Parts.{configure-parts}

reported_keeps :
    {S : Type 0} (v : Result (LockedError (ProcessError ScimError)) Report × S)
    → (reported v).1 ≡ v.1
reported_keeps (ok r, s) = refl
reported_keeps (err (store_error no_rows), s) = refl
reported_keeps (err (store_error x), s) = refl
reported_keeps (err (callback_error x), s) = refl

module _ ⦃u : Unicode⦄ (env : Environment) {S : Type 0} (web : Web S) where
  configured_keeps :
      (arguments : List Text) (given : Given) (c : Result CommandError (Flags × Adapter))
      (x : Transaction) (db : Database) (s : S)
      → ((h : HttpRequest) (t : S) → h.method ≡ text "GET" → (web.exchange h t).1 ≡ t)
      → env.parse arguments ≡ some given
      → (flags_of given).apply ≡ false
      → configure env arguments ≡ c
      → (run_configured env (http_service web) c x db s).1 ≡ s
  unfolding scim_target
  configured_keeps arguments given (err e) x db s reads_only parsed preview configures = refl
  configured_keeps arguments given (ok (f, a)) x db s reads_only parsed preview configures =
      let (read, _) = configure-parts env arguments f a configures in
      let same : flags_of given ≡ f = ok_inj _ (flags_of given) f refl (rw parsed at read) in
      let f_preview : f.apply ≡ false = rw same at preview in
      let target = scim_target (http_service web a) a in
      let names = managed_names f.managed in
      let ran : (run target f.subject names f.apply x db s).1 ≡ s =
        rw f_preview (run-preview target f.subject names x db s (observe_keeps web a reads_only)) in
      reported_keeps (run target f.subject names f.apply x db s) ∙ ran

  -- Where the service changes nothing on a GET request, a run without -apply leaves it as it was,
  -- whatever the other flags, the database and the service answer.
  pub run_command-preview :
      (arguments : List Text) (given : Given) (x : Transaction) (db : Database) (s : S)
      → ((h : HttpRequest) (t : S) → h.method ≡ text "GET" → (web.exchange h t).1 ≡ t)
      → env.parse arguments ≡ some given
      → (flags_of given).apply ≡ false
      → (run_command env (http_service web) arguments x db s).1 ≡ s
  unfolding run_command
  run_command-preview arguments given x db s reads_only parsed preview =
      configured_keeps arguments given (configure env arguments) x db s reads_only parsed preview
        refl
