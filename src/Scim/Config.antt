-- ===== src/Scim/Config.antt =====
-- The configuration checks of New.
pub mod Managed
use deterministic_identity_r.Prelude.{
  Bool, true, false, not, ◌&&◌, ◌||◌, if◌then◌else◌, Option, none, some, List, [], ◌∷◌, Result, ok,
  err, ◌>>=◌, ◌>>◌, refuse_if,
}
use deterministic_identity_r.Prelude.Text.{Text, text, text_eq, trim_space}
use deterministic_identity_r.Prelude.Text.Case.{Unicode, to_lower, equal_fold}
use deterministic_identity_r.Prelude.Dict.{Dict, lookup, insert, has_key}
use deterministic_identity_r.Scim.Names.{
  valid_attribute_name, adapter_owns_attribute, unsafe_subject_attribute,
}

pub data DeprovisionMode : Type 0 where
  disable delete : DeprovisionMode

-- The parts of a url.URL that New and the requests look at or change. url.Parse is a parameter of
-- `new`.
pub record Url : Type 0 where
  pub scheme : Text
  pub host : Text
  pub raw_query : Text
  pub fragment : Text
  pub path : Text
  pub raw_path : Text

pub record Config : Type 0 where
  pub base_url : Text
  pub token : Text
  pub subject_attribute : Text
  pub managed_attributes : List Text
  pub deprovision_mode : Text

pub record Adapter : Type 0 where
  pub base_url : Url
  pub token : Text
  pub subject_attribute : Text
  pub managed_attributes : Dict Text
  pub deprovision_mode : DeprovisionMode

pub data ConfigError : Type 0 where
  url_not_absolute url_not_http url_has_query : ConfigError
  invalid_subject subject_owned : Text → ConfigError
  unsupported_mode : Text → ConfigError
  invalid_managed managed_is_subject managed_owned managed_twice : Text → ConfigError

abbrev pub absolute : Option Url → Result ConfigError Url
absolute none = err url_not_absolute
absolute (some u) = if text_eq u.scheme [] || text_eq u.host [] then err url_not_absolute else ok u

abbrev pub or_default : Text → Text → Text
or_default value other = if text_eq value [] then other else value

unfoldable pub parse_mode : Text → Result ConfigError DeprovisionMode
parse_mode mode =
    if text_eq mode []
    then ok disable
    else if text_eq mode (text "disable")
    then ok disable
    else if text_eq mode (text "delete")
    then ok delete
    else err (unsupported_mode mode)

module _ ⦃u : Unicode⦄ where
  -- The loop over ManagedAttributes.
  unfoldable pub add_managed : Text → List Text → Dict Text → Result ConfigError (Dict Text)
  add_managed subject [] managed = ok managed
  add_managed subject (name ∷ names) managed = do
    let attribute = trim_space name
    refuse_if (not (valid_attribute_name attribute)) (invalid_managed attribute)
    refuse_if (equal_fold attribute subject) (managed_is_subject subject)
    refuse_if (adapter_owns_attribute attribute) (managed_owned attribute)
    refuse_if (has_key (to_lower attribute) managed) (managed_twice attribute)
    add_managed subject names (insert (to_lower attribute) attribute managed)

  -- New. The HTTP client is not part of the model.
  unfoldable pub new : (Text → Option Url) → Config → Result ConfigError Adapter
  new parse_url config = do
    parsed ← absolute (parse_url (trim_space config.base_url))
    refuse_if
        (not (text_eq parsed.scheme (text "http")) && not (text_eq parsed.scheme (text "https")))
        url_not_http
    refuse_if (not (text_eq parsed.raw_query []) || not (text_eq parsed.fragment [])) url_has_query
    let subject = or_default (trim_space config.subject_attribute) (text "externalId")
    refuse_if (not (valid_attribute_name subject)) (invalid_subject subject)
    refuse_if (unsafe_subject_attribute subject) (subject_owned subject)
    mode ← parse_mode config.deprovision_mode
    managed ← add_managed subject config.managed_attributes []
    ok (record {
      base_url = parsed;
      token = config.token;
      subject_attribute = subject;
      managed_attributes = managed;
      deprovision_mode = mode;
    })
