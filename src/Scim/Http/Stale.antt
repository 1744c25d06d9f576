-- ===== src/Scim/Http/Stale.antt =====
-- Changes that the server refuses, and those that come too late.
use deterministic_identity_r.Prelude.{
  ◌≡◌, refl, ◌∙◌, true, false, Option, none, some, List, [], Result, ok, err, ℕ,
}
use deterministic_identity_r.Prelude.Text.{Text, text, text_eq}
use deterministic_identity_r.Prelude.Text.Case.{Unicode}
use deterministic_identity_r.Prelude.Dict.{lookup}
use deterministic_identity_r.Reconcile.Model.{DesiredState}
use deterministic_identity_r.Scim.Config.{Adapter}
use deterministic_identity_r.Scim.Responses.{
  Resource, ScimError, status_error, resource_id, resource_version,
}
use deterministic_identity_r.Scim.Desired.{Request, request_of}
use deterministic_identity_r.Scim.Service.{find, apply, send_request}
use deterministic_identity_r.Scim.Web.{HttpResponse, Web, HttpRequest, user_url}
use deterministic_identity_r.Scim.Http.{
  is_failure, read_response, send_prepared, changed, http_service,
}
use deterministic_identity_r.Scim.Http.Exchanges.{
  prepare_change, send_change_lem, Changes, request_of-Changes, Conditional, Changes-Conditional,
}

-- A server that honours If-Match: a request whose version is not the current one of the resource
-- at its address is answered with 412 Precondition Failed and changes nothing.
pub record HonoursVersions {S : Type 0} (web : Web S) : Type 0 where
  pub version_at : Text → S → Text
  pub refusal : List ℕ
  pub refuses :
      (h : HttpRequest) (s : S) (v : Text)
      → lookup (text "If-Match") h.headers ≡ some v
      → text_eq v (version_at h.endpoint s) ≡ false
      → web.exchange h s ≡ (some (record { status = 412; body = refusal }), s)

module _ {S : Type 0} (web : Web S) (a : Adapter) (server : HonoursVersions web) where
  refused_exchange :
      (h : HttpRequest) (s : S) (v : Text)
      → lookup (text "If-Match") h.headers ≡ some v
      → text_eq v (server.version_at h.endpoint s) ≡ false
      → changed web a (send_prepared web a none (ok h) s) ≡ (err (status_error 412), s)
  unfolding read_response
  refused_exchange h s v matching stale = rw (server.refuses h s v matching stale) refl

  module _ ⦃u : Unicode⦄ where
    refused_change :
        (p : Result ScimError HttpRequest) (id version : Text) (s : S)
        → ((h : HttpRequest) → p ≡ ok h → Conditional web a id version h)
        → text_eq version [] ≡ false
        → text_eq version (server.version_at (user_url web a id) s) ≡ false
        → (e : ScimError) × (changed web a (send_prepared web a none p s) ≡ (err e, s))
    refused_change (err e) id version s conditional versioned stale = (e, refl)
    refused_change (ok h) id version s conditional versioned stale =
        let c = conditional h refl in
        (
          status_error 412,
          refused_exchange h s version (c.matching ∙ rw versioned refl) (rw c.addressed stale),
        )

    refused_request :
        (p : Result ScimError (Option Request)) (id version : Text) (s : S)
        → ((q : Option Request)
            → p ≡ ok q
            → (r : Request) × (q ≡ some r) × Changes web a id version r)
        → text_eq version [] ≡ false
        → text_eq version (server.version_at (user_url web a id) s) ≡ false
        → (e : ScimError) × (send_request (http_service web a) a p s ≡ (err e, s))
    unfolding http_service
    refused_request (err e) id version s changes versioned stale = (e, refl)
    refused_request (ok q) id version s changes versioned stale =
        let (r, is_some, change) = changes q refl in
        let (e, refused) =
          refused_change (prepare_change web a r) id version s
            (λ h made. Changes-Conditional web a id version r h change made) versioned stale in
        (e, rw is_some (send_change_lem web a r s ∙ refused))

    -- No change is lost: when a user that Apply has found is changed by others before the request of
    -- Apply arrives, so that its version is not the one that was read, a server that honours If-Match
    -- leaves the user as the others have made it, and Apply returns an error.
    pub send_request-stale :
        (d : DesiredState) (resource : Resource) (id version : Text) (s : S)
        → resource_id resource ≡ ok id
        → resource_version resource ≡ ok version
        → text_eq version [] ≡ false
        → text_eq version (server.version_at (user_url web a id) s) ≡ false
        → (e : ScimError) × (send_request (http_service web a) a (request_of a d (some resource)) s
            ≡ (err e, s))
    send_request-stale d resource id version s named read versioned stale =
        refused_request (request_of a d (some resource)) id version s
          (λ q asked. request_of-Changes web a d resource q id version named read asked) versioned
          stale

module _ ⦃u : Unicode⦄ {S : Type 0} (web : Web S) (a : Adapter) where
  -- When the server refuses a change with a status that is not a success, such as 412 for a user
  -- that has another version by then, Apply returns an error with that status, whatever the
  -- change was.
  pub apply-refused :
      (d : DesiredState) (resource : Option Resource) (r : Request) (h : HttpRequest)
      (response : HttpResponse) (s found t : S)
      → find (http_service web a) a d.subject_id s ≡ (ok resource, found)
      → request_of a d resource ≡ ok (some r)
      → prepare_change web a r ≡ ok h
      → web.exchange h found ≡ (some response, t)
      → is_failure response.status ≡ true
      → apply (http_service web a) a d s ≡ (err (status_error response.status), t)
  unfolding apply http_service read_response
  apply-refused d resource r h response s found t search asked prepared sent failure =
      rw (search, asked, send_change_lem web a r found, prepared, sent, failure) refl
