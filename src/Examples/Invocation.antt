-- ===== src/Examples/Invocation.antt =====
-- The converge command on a stored projection with one attribute.
use deterministic_identity_r.Postgres.Statements.{has_nul, any_nul}
use deterministic_identity_r.Postgres.Projections.{projection_has_nul}
use deterministic_identity_r.Prelude.{
  ◌≡◌, refl, ℕ, suc, if◌then◌else◌, true, false, none, some, [], ◌∷◌, ok, ◌*◌,
}
use deterministic_identity_r.Prelude.Int.{pos}
use deterministic_identity_r.Prelude.Text.{text, text_eq, trim_space, split}
use deterministic_identity_r.Prelude.Text.Case.{
  to_lower, lower_rune, lower_ascii, equal_fold, fold_rune,
}
use deterministic_identity_r.Prelude.Dict.{lookup, insert, has_key}
use deterministic_identity_r.Reconcile.Model.{bool, string}
use deterministic_identity_r.Reconcile.Projection.{new_projection}
use deterministic_identity_r.Reconcile.Converge.{
  state_equivalent, string_maps_equal, all_entries_in,
}
use deterministic_identity_r.Postgres.Tables.{Database, answered}
use deterministic_identity_r.Postgres.Projections.{state_row, projection_of, load_projection}
use deterministic_identity_r.Postgres.Locked.{Transaction}
use deterministic_identity_r.Scim.Names.{
  valid_attribute_name, adapter_owns_attribute, unsafe_subject_attribute,
}
use deterministic_identity_r.Scim.Config.{Url, Adapter, disable, new, add_managed, parse_mode}
use deterministic_identity_r.Scim.Responses.{
  Resource, response_attribute, response_attribute_from, resource_id, scim_active, managed_values,
  scalar_string, found_resource, observed_of,
}
use deterministic_identity_r.Scim.Desired.{
  managed_desired_values, desired_values, scim_state_equivalent,
}
use deterministic_identity_r.Scim.Service.{find, observe, filter_of, scim_target}
use deterministic_identity_r.Scim.Web.{
  Web, HttpRequest, resource_url, trim_right_slashes, trim_left_slashes, search_url, limited,
}
use deterministic_identity_r.Scim.Http.{prepare, headers_of, http_service, request, read_response}
use deterministic_identity_r.Command.{Report, process, run, not_allowed, nothing_to_do}
use deterministic_identity_r.Command.Invocation.{
  Flags, Given, flags_of, Environment, managed_names, configure, run_command,
}
use deterministic_identity_r.Command.Invocation.Ownership.{Owned, run_command-Owned}
use deterministic_identity_r.Command.Invocation.ReadOnly.{run_command-preview}
use deterministic_identity_r.Examples.{ascii}
use deterministic_identity_r.Examples.Store.{server, empty}

abbrev target_url : Url
target_url = record {
  scheme = text "https";
  host = text "h";
  raw_query = [];
  fragment = [];
  path = [];
  raw_path = [];
}

abbrev given : Given
given = record {
  subject = some (text "u");
  subject_attribute = none;
  apply = none;
  managed = some (text "Title, site");
  mode = none;
  timeout = none;
  remaining = 0;
}

abbrev flags : Flags
flags = record {
  subject = text "u";
  subject_attribute = text "externalId";
  apply = false;
  managed = text "Title, site";
  mode = text "disable";
  timeout = pos (30 * 1000000000);
  remaining = 0;
}

abbrev env : Environment
env = record {
  parse = λ arguments. some given;
  getenv = λ name. text "x";
  parse_url = λ t. some target_url;
  opens = λ dsn. true;
}

abbrev user : Resource
user =
    (text "id", string (text "7"))
    ∷ (text "active", bool true)
    ∷ (text "title", string (text "t"))
    ∷ []

-- Every request is answered with the user; the service counts those that are not a GET.
abbrev web : Web ℕ
web = record {
  url_string = λ u. u.path;
  escaped_path = λ u. u.path;
  path_escape = λ s. s;
  query_of = λ u. [];
  encode_query = λ q. [];
  marshal = λ body. some [];
  decode_list = λ body. some (record { total_results = some (pos 1); resources = user ∷ [] });
  builds = λ method endpoint. true;
  exchange = λ r s. (
    some (record { status = 200; body = [] }),
    if text_eq r.method (text "GET") then s else suc s,
  );
}

abbrev database : Database
database = record empty {
  canonical_state =
      (
        text "u",
        state_row (pos 1) (record (new_projection (text "u")) {
          exists = true;
          enabled = true;
          attributes = (text "Title", text "t") ∷ [];
        }),
      )
      ∷ [];
}

abbrev smooth : Transaction
smooth = record { begins = true; loads = answered; commits = true }

abbrev adapter : Adapter
adapter = record {
  base_url = target_url;
  token = text "x";
  subject_attribute = text "externalId";
  managed_attributes = (text "title", text "Title") ∷ (text "site", text "site") ∷ [];
  deprovision_mode = disable;
}

names : managed_names flags.managed ≡ text "Title" ∷ text "site" ∷ []
unfolding managed_names split trim_space text_eq
names = refl

configures : configure env [] ≡ ok (flags, adapter)
unfolding configure flags_of managed_names split new parse_mode add_managed trim_space text_eq
    valid_attribute_name equal_fold fold_rune adapter_owns_attribute unsafe_subject_attribute
    to_lower lower_rune lower_ascii has_key insert
configures = refl

abbrev report : Report
report = record {
  subject_id = text "u";
  row_version = pos 1;
  applied = false;
  action = nothing_to_do;
}

runs : run_command env (http_service web) [] smooth database 7 ≡ (ok report, 7)
unfolding run_command run load_projection process not_allowed lookup text_eq projection_of state_row
    scim_target observe find http_service request prepare headers_of search_url resource_url
    trim_right_slashes trim_left_slashes read_response limited filter_of found_resource resource_id
    response_attribute response_attribute_from trim_space equal_fold fold_rune observed_of
    scim_active managed_values scalar_string scim_state_equivalent managed_desired_values
    desired_values state_equivalent string_maps_equal all_entries_in to_lower lower_rune lower_ascii
    insert projection_has_nul has_nul any_nul
runs = rw (configures, names) refl

run_command-Owned_example : Owned env [] smooth database
run_command-Owned_example =
    run_command-Owned env (http_service web) [] smooth database 7 7 report runs

-- The counter tells a GET from a change.
reads_only : (h : HttpRequest) (s : ℕ) (m : h.method ≡ text "GET") → (web.exchange h s).1 ≡ s
unfolding text_eq
reads_only h s m = rw m refl

run_command-preview_example : (run_command env (http_service web) [] smooth database 7).1 ≡ 7
unfolding flags_of
run_command-preview_example =
    run_command-preview env web [] given smooth database 7 reads_only refl refl
