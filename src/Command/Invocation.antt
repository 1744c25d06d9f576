-- ===== src/Command/Invocation.antt =====
-- `run` of cmd/converge/main.go from its arguments to its report.
pub mod Parts
pub mod Ownership
pub mod ReadOnly
use deterministic_identity_r.Prelude.{
  ℕ, zero, suc, ◌≡◌, Bool, true, false, not, ◌||◌, if◌then◌else◌, Option, none, some, List, [], ◌∷◌,
  map, Result, ok, err, ◌>>=◌, ◌>>◌, refuse_if, ◌==◌, ◌*◌,
}
use deterministic_identity_r.Prelude.Int.{ℤ, pos, ltb_ℤ}
use deterministic_identity_r.Prelude.Text.{Text, text, text_eq, trim_space, split}
use deterministic_identity_r.Prelude.Text.Case.{Unicode}
use deterministic_identity_r.Postgres.Tables.{Database, StoreError, no_rows}
use deterministic_identity_r.Postgres.Locked.{LockedError, store_error, callback_error, Transaction}
use deterministic_identity_r.Scim.Config.{Url, Config, ConfigError, Adapter, new}
use deterministic_identity_r.Scim.Responses.{ScimError}
use deterministic_identity_r.Scim.Service.{Service, scim_target}
use deterministic_identity_r.Scim.Web.{Web}
use deterministic_identity_r.Scim.Http.{http_service}
use deterministic_identity_r.Command.{Report, ProcessError, run}

-- The values of the flags, and the number of arguments that are left.
pub record Flags : Type 0 where
  pub subject : Text
  pub subject_attribute : Text
  pub apply : Bool
  pub managed : Text
  pub mode : Text
  pub timeout : ℤ
  pub remaining : ℕ

-- What FlagSet.Parse finds: the flags that are given, and the number of arguments that are left.
pub record Given : Type 0 where
  pub subject : Option Text
  pub subject_attribute : Option Text
  pub apply : Option Bool
  pub managed : Option Text
  pub mode : Option Text
  pub timeout : Option ℤ
  pub remaining : ℕ

abbrev pub or_else_default : {A : Type 0} → Option A → A → A
or_else_default none value = value
or_else_default (some given) value = given

-- 30 seconds in nanoseconds.
abbrev pub default_timeout : ℤ
default_timeout = pos (30 * 1000000000)

-- The flags with their defaults.
unfoldable pub flags_of : Given → Flags
flags_of given = record {
  subject = or_else_default given.subject [];
  subject_attribute = or_else_default given.subject_attribute (text "externalId");
  apply = or_else_default given.apply false;
  managed = or_else_default given.managed [];
  mode = or_else_default given.mode (text "disable");
  timeout = or_else_default given.timeout default_timeout;
  remaining = given.remaining;
}

-- What `run` takes from packages flag, os, net/url and database/sql: FlagSet.Parse, os.Getenv,
-- url.Parse and whether sql.Open succeeds.
pub record Environment : Type 0 where
  pub parse : List Text → Option Given
  pub getenv : Text → Text
  pub parse_url : Text → Option Url
  pub opens : Text → Bool

pub data CommandError : Type 0 where
  flags_invalid subject_missing timeout_not_positive database_url_missing : CommandError
  config_invalid : ConfigError → CommandError
  open_failed no_projection : CommandError
  run_failed : LockedError (ProcessError ScimError) → CommandError

-- The names of -managed-attributes, which are both configured and allowed.
unfoldable pub managed_names : Text → List Text
managed_names managed =
    if text_eq (trim_space managed) [] then [] else map trim_space (split b',' managed)

abbrev pub or_invalid : Option Given → Result CommandError Flags
or_invalid none = err flags_invalid
or_invalid (some given) = ok (flags_of given)

abbrev pub configured : Result ConfigError Adapter → Result CommandError Adapter
configured (err e) = err (config_invalid e)
configured (ok a) = ok a

-- What is reported of the error of a run: a subject without a projection has a message of its own.
abbrev pub reported :
    {S : Type 0}
    → Result (LockedError (ProcessError ScimError)) Report × S
    → Result CommandError Report × S
reported (ok r, s) = (ok r, s)
reported (err (store_error no_rows), s) = (err no_projection, s)
reported (err e, s) = (err (run_failed e), s)

module _ ⦃u : Unicode⦄ (env : Environment) where
  -- The configuration of the adapter.
  abbrev pub config_of : Flags → Config
  config_of flags = record {
    base_url = env.getenv (text "IDENTITY_SCIM_URL");
    token = env.getenv (text "IDENTITY_SCIM_TOKEN");
    subject_attribute = flags.subject_attribute;
    managed_attributes = managed_names flags.managed;
    deprovision_mode = flags.mode;
  }

  -- `run` up to the database: the flags and the adapter.
  unfoldable pub configure : List Text → Result CommandError (Flags × Adapter)
  configure arguments = do
    flags ← or_invalid (env.parse arguments)
    refuse_if (text_eq (trim_space flags.subject) [] || not (flags.remaining == 0)) subject_missing
    refuse_if (not (ltb_ℤ (pos 0) flags.timeout)) timeout_not_positive
    let dsn = env.getenv (text "IDENTITY_DATABASE_URL")
    refuse_if (text_eq dsn []) database_url_missing
    adapter ← configured (new env.parse_url (config_of flags))
    refuse_if (not (env.opens dsn)) open_failed
    ok (flags, adapter)

  module _ {S : Type 0} (service : Adapter → Service S) where
    abbrev pub run_configured :
        Result CommandError (Flags × Adapter)
        → Transaction
        → Database
        → S
        → Result CommandError Report × S
    run_configured (err e) transaction db s = (err e, s)
    run_configured (ok (flags, a)) transaction db s = reported (
        run (scim_target (service a) a) flags.subject (managed_names flags.managed) flags.apply
          transaction db s)

    -- `run`, which prints the report.
    unfoldable pub run_command :
        List Text → Transaction → Database → S → Result CommandError Report × S
    run_command arguments transaction db s = run_configured (configure arguments) transaction db s
