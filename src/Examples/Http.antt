-- ===== src/Examples/Http.antt =====
-- A SCIM service over HTTP that keeps a log of its requests.
use deterministic_identity_r.Prelude.{
  ◌≡◌, refl, true, false, List, none, Option, some, ℕ, if◌then◌else◌, [], ◌∷◌, ok, err,
}
use deterministic_identity_r.Prelude.Int.{pos}
use deterministic_identity_r.Prelude.Text.{Text, text, text_eq, trim_space}
use deterministic_identity_r.Prelude.Text.Case.{equal_fold, fold_rune}
use deterministic_identity_r.Prelude.Dict.{insert, lookup}
use deterministic_identity_r.Reconcile.Model.{
  bool, string, object, field, end, entries, DesiredState,
}
use deterministic_identity_r.Reconcile.Projection.{new_projection}
use deterministic_identity_r.Scim.Config.{Adapter, disable}
use deterministic_identity_r.Scim.Responses.{
  Resource, ScimError, response_attribute, response_attribute_from, resource_id, resource_version,
  found_resource,
}
use deterministic_identity_r.Scim.Desired.{
  Request, patch_user, request_of, patch, managed_desired_values, desired_values, replacements,
}
use deterministic_identity_r.Scim.Service.{find, apply, filter_of, send_request}
use deterministic_identity_r.Scim.Web.{
  Web, HttpRequest, HttpResponse, user_url, resource_url, trim_right_slashes, trim_left_slashes,
  search_url, limited,
}
use deterministic_identity_r.Scim.Http.{
  prepare, headers_of, http_service, request, read_response, send_change,
}
use deterministic_identity_r.Scim.Http.Stale.{HonoursVersions, send_request-stale}
use deterministic_identity_r.Scim.Http.Exchanges.{Conditional, Accepted, apply-Conditional}
use deterministic_identity_r.Examples.{ascii}

abbrev adapter : Adapter
adapter = record {
  base_url = record {
    scheme = text "https";
    host = text "h";
    raw_query = [];
    fragment = [];
    path = text "/v2/";
    raw_path = [];
  };
  token = text "t";
  subject_attribute = text "externalId";
  managed_attributes = [];
  deprovision_mode = disable;
}

-- A user with the version 5.
abbrev user : Resource
user =
    (text "id", string (text "7"))
    ∷ (text "active", bool true)
    ∷ (text "meta", object (field (text "version") (string (text "5")) end))
    ∷ []

-- The service answers a search with the user and a change with `status`.
abbrev web_with : ℕ → Web (List HttpRequest)
web_with status = record {
  url_string = λ u. u.path;
  escaped_path = λ u. u.path;
  path_escape = λ s. s;
  query_of = λ u. [];
  encode_query = λ q. [];
  marshal = λ body. some [];
  decode_list = λ body. some (record { total_results = some (pos 1); resources = user ∷ [] });
  builds = λ method endpoint. true;
  exchange = λ r log. (
    some (record { status = if text_eq r.method (text "GET") then 200 else status; body = [] }),
    r ∷ log,
  );
}

abbrev unwanted : DesiredState
unwanted = new_projection (text "u")

-- What the adapter sends.
abbrev search : HttpRequest
search = record {
  method = text "GET";
  endpoint = text "/v2/Users";
  headers =
      (text "Accept", text "application/scim+json") ∷ (text "Authorization", text "Bearer t") ∷ [];
  body = none;
}

abbrev disabling : HttpRequest
disabling = record {
  method = text "PATCH";
  endpoint = text "/v2/Users/7";
  headers =
      (text "Accept", text "application/scim+json")
      ∷ (text "If-Match", text "5")
      ∷ (text "Content-Type", text "application/scim+json")
      ∷ (text "Authorization", text "Bearer t")
      ∷ [];
  body = some [];
}

finds :
    (status : ℕ)
    → find (http_service (web_with status) adapter) adapter (text "u") []
      ≡ (ok (some user), search ∷ [])
unfolding find http_service request prepare headers_of search_url resource_url trim_right_slashes
    trim_left_slashes read_response found_resource resource_id response_attribute
    response_attribute_from trim_space equal_fold fold_rune text_eq insert limited filter_of
finds status = refl

named : resource_id user ≡ ok (text "7")
unfolding resource_id response_attribute response_attribute_from trim_space equal_fold fold_rune
    text_eq
named = refl

versioned : resource_version user ≡ ok (text "5")
unfolding resource_version response_attribute response_attribute_from trim_space equal_fold
    fold_rune text_eq entries
versioned = refl

abbrev disable_user : Request
disable_user =
    patch_user (text "7") (record { path = text "active"; value = bool false } ∷ []) (text "5")

asks : request_of adapter unwanted (some user) ≡ ok (some disable_user)
unfolding request_of patch managed_desired_values desired_values replacements resource_id
    resource_version response_attribute response_attribute_from trim_space equal_fold fold_rune
    text_eq entries
asks = refl

applied :
    apply (http_service (web_with 200) adapter) adapter unwanted []
    ≡ (ok tt, disabling ∷ search ∷ [])
unfolding apply http_service send_change request read_response prepare headers_of user_url
    resource_url trim_right_slashes trim_left_slashes text_eq insert
applied = rw (finds 200, asks) refl

apply-Conditional_example :
    (h : HttpRequest) × Conditional (web_with 200) adapter (text "7") (text "5") h
    × Accepted (web_with 200) adapter h (search ∷ []) (disabling ∷ search ∷ [])
apply-Conditional_example =
    apply-Conditional (web_with 200) adapter unwanted user (text "7") (text "5") [] (search ∷ [])
      (disabling ∷ search ∷ []) (finds 200) named versioned applied

-- A server whose state is the version of the user, and that honours If-Match.
abbrev answer : Option Text → Text → Option HttpResponse × Text
answer none s = (some (record { status = 200; body = [] }), s)
answer (some v) s = (some (record { status = if text_eq v s then 200 else 412; body = [] }), s)

abbrev versioned_web : Web Text
versioned_web = record {
  url_string = λ u. u.path;
  escaped_path = λ u. u.path;
  path_escape = λ s. s;
  query_of = λ u. [];
  encode_query = λ q. [];
  marshal = λ body. some [];
  decode_list = λ body. some (record { total_results = some (pos 1); resources = user ∷ [] });
  builds = λ method endpoint. true;
  exchange = λ h s. answer (lookup (text "If-Match") h.headers) s;
}

abbrev honours : HonoursVersions versioned_web
honours = record {
  version_at = λ endpoint s. s;
  refusal = [];
  refuses = λ h s v matching stale. rw (matching, stale) refl;
}

send_request-stale_example :
    (e : ScimError) × (send_request
        (http_service versioned_web adapter)
        adapter
        (request_of adapter unwanted (some user))
        (text "6")
      ≡ (err e, text "6"))
unfolding text_eq
send_request-stale_example =
    send_request-stale versioned_web adapter honours unwanted user (text "7") (text "5") (text "6")
      named versioned refl refl
