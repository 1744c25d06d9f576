-- ===== src/Scim/Http.antt =====
-- request of scim.go, and the SCIM service that it makes of an HTTP client.
pub mod Endpoints
pub mod Exchanges
pub mod Searches
pub mod Stale
use deterministic_identity_r.Prelude.{
  ℕ, zero, suc, ◌||◌, not, Bool, true, false, if◌then◌else◌, ltb, leb, ◌==◌, Option, none, some,
  List, [], ◌∷◌, ◌++◌, Result, ok, err, ◌>>=◌, ◌>>◌, refuse_if,
}
use deterministic_identity_r.Prelude.Text.{Text, text, text_eq}
use deterministic_identity_r.Prelude.Dict.{Dict, insert}
use deterministic_identity_r.Reconcile.Model.{
  Value, Fields, Items, field, end, string, array, object, cons, nil,
}
use deterministic_identity_r.Scim.Config.{Url, Adapter}
use deterministic_identity_r.Scim.Responses.{
  Resource, ScimError, encode_failed, build_failed, send_failed, decode_failed, status_error,
  ListResponse,
}
use deterministic_identity_r.Scim.Desired.{Operation, Request, post_user, patch_user, delete_user}
use deterministic_identity_r.Scim.Service.{Service}
use deterministic_identity_r.Scim.Web.{
  HttpRequest, HttpResponse, Web, limited, resource_url, user_url, search_url,
}

-- `if value != "" { header.Set(name, value) }`
abbrev pub set_unless_empty : Text → Text → Text → Dict Text → Dict Text
set_unless_empty name value written headers =
    if text_eq value [] then headers else insert name written headers

abbrev pub first_version : List Text → Text
first_version [] = []
first_version (version ∷ _) = version

abbrev pub content_type : Option Resource → Dict Text → Dict Text
content_type none headers = headers
content_type (some body) headers =
    insert (text "Content-Type") (text "application/scim+json") headers

-- The headers that request sets.
unfoldable pub headers_of : Adapter → Option Resource → List Text → Dict Text
headers_of a body versions =
    let accept = insert (text "Accept") (text "application/scim+json") [] in
    let matching =
      set_unless_empty (text "If-Match") (first_version versions) (first_version versions) accept in
    set_unless_empty (text "Authorization") a.token (text "Bearer " ++ a.token)
      (content_type body matching)

-- `resp.StatusCode < http.StatusOK || resp.StatusCode >= http.StatusMultipleChoices`
abbrev pub is_failure : ℕ → Bool
is_failure status = ltb status 200 || leb 300 status

abbrev pub replace_value : Operation → Value
replace_value operation = object (
    field (text "op") (string (text "replace"))
      (field (text "path") (string operation.path) (field (text "value") operation.value end)))

abbrev pub operation_values : List Operation → Items
operation_values [] = nil
operation_values (operation ∷ operations) =
    cons (replace_value operation) (operation_values operations)

-- The body of a patch.
unfoldable pub patch_body : List Operation → Resource
patch_body operations =
    (
      text "schemas",
      array (cons (string (text "urn:ietf:params:scim:api:messages:2.0:PatchOp")) nil),
    )
    ∷ (text "Operations", array (operation_values operations))
    ∷ []

module _ {S : Type 0} (web : Web S) (a : Adapter) where
  abbrev pub encoded : Option Resource → Result ScimError (Option Text)
  encoded none = ok none
  encoded (some body) = elim (web.marshal body) [
    | none ↦ err encode_failed
    | some written ↦ ok (some written)
  ]

  -- The first half of request.
  unfoldable pub prepare : Text → Text → Option Resource → List Text → Result ScimError HttpRequest
  prepare method endpoint body versions = do
    written ← encoded body
    refuse_if (not (web.builds method endpoint)) build_failed
    ok (record {
      method = method;
      endpoint = endpoint;
      headers = headers_of a body versions;
      body = written;
    })

  module _ {R : Type 0} where
    abbrev pub decoded : (List ℕ → Option R) → List ℕ → Result ScimError (Option R)
    decoded decode body = elim (decode (limited 4194304 body)) [
      | none ↦ err decode_failed
      | some response ↦ ok (some response)
    ]

    -- The second half of request: a response is decoded unless the caller wants none or the server
    -- has sent none.
    unfoldable pub read_response :
        Option (List ℕ → Option R) → HttpResponse → Result ScimError (Option R)
    read_response decoder response = do
      refuse_if (is_failure response.status) (status_error response.status)
      elim decoder [
        | none ↦ ok none
        | some decode ↦ if response.status == 204 then ok none else decoded decode response.body
      ]

    abbrev pub answer_of :
        Option (List ℕ → Option R) → Option HttpResponse × S → Result ScimError (Option R) × S
    answer_of decoder (none, s) = (err send_failed, s)
    answer_of decoder (some response, s) = (read_response decoder response, s)

    abbrev pub send_prepared :
        Option (List ℕ → Option R)
        → Result ScimError HttpRequest
        → S
        → Result ScimError (Option R) × S
    send_prepared decoder (err e) s = (err e, s)
    send_prepared decoder (ok r) s = answer_of decoder (web.exchange r s)

    -- request
    unfoldable pub request :
        Text
        → Text
        → Option Resource
        → Option (List ℕ → Option R)
        → List Text
        → S
        → Result ScimError (Option R) × S
    request method endpoint body decoder versions s =
        send_prepared decoder (prepare method endpoint body versions) s

  -- The variable `response` of find, which keeps its zero value if nothing is decoded.
  abbrev pub response_or_zero : Option ListResponse → ListResponse
  response_or_zero none = record { total_results = none; resources = [] }
  response_or_zero (some response) = response

  abbrev pub listed : Result ScimError (Option ListResponse) × S → Result ScimError ListResponse × S
  listed (r, s) = (r >>= λ response. ok (response_or_zero response), s)

  abbrev pub changed : Result ScimError (Option (Unit {0})) × S → Result ScimError (Unit {0}) × S
  changed (r, s) = (r >>= λ response. ok tt, s)

  -- The call of request in create, in patch and in Apply.
  unfoldable pub send_change : Request → S → Result ScimError (Unit {0}) × S
  send_change (post_user user) s =
      changed (
        request (text "POST") (web.url_string (resource_url a (text "Users"))) (some user) none []
          s)
  send_change (patch_user id operations version) s = changed (
      request (text "PATCH") (user_url web a id) (some (patch_body operations)) none (version ∷ [])
        s)
  send_change (delete_user id version) s =
      changed (request (text "DELETE") (user_url web a id) none none (version ∷ []) s)

  -- The service that the adapter talks to.
  unfoldable pub http_service : Service S
  http_service = record {
    list_users = λ filter s.
        listed (request (text "GET") (search_url web a filter) none (some web.decode_list) [] s);
    send = send_change;
  }
