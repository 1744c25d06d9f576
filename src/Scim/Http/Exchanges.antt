-- ===== src/Scim/Http/Exchanges.antt =====
-- What stands behind a success of Apply over HTTP.
use deterministic_identity_r.Prelude.{
  ◌≡◌, refl, sym, ap, subst, ◌∙◌, inl, inr, Bool, false, not, Option, none, some, List, [], ◌∷◌,
  Result, ok, err, ◌>>=◌, ok_inj, >>=-eq-ok, refuse_if-eq-ok, Bool-cases, arith,
}
use deterministic_identity_r.Prelude.Text.{Text, text, text_eq}
use deterministic_identity_r.Prelude.Text.Case.{Unicode}
use deterministic_identity_r.Prelude.Dict.{lookup}
use deterministic_identity_r.Reconcile.Model.{DesiredState}
use deterministic_identity_r.Scim.Config.{Adapter}
use deterministic_identity_r.Scim.Responses.{Resource, ScimError, resource_id, resource_version}
use deterministic_identity_r.Scim.Desired.{
  is_disable, Request, post_user, patch_user, delete_user, patch, request_of,
  managed_desired_values,
}
use deterministic_identity_r.Scim.Service.{find, apply, send_request}
use deterministic_identity_r.Scim.Web.{Web, HttpRequest, HttpResponse, resource_url, user_url}
use deterministic_identity_r.Scim.Http.{
  headers_of, is_failure, patch_body, encoded, prepare, read_response, answer_of, send_prepared,
  request, changed, send_change, http_service,
}
use deterministic_identity_r.Scim.Http.Endpoints.{unless_empty, headers_of-if_match}

module _ {S : Type 0} (web : Web S) (a : Adapter) where
  -- What request is called with for a change.
  abbrev pub prepare_change : Request → Result ScimError HttpRequest
  prepare_change (post_user user) =
      prepare web a (text "POST") (web.url_string (resource_url a (text "Users"))) (some user) []
  prepare_change (patch_user id operations version) =
      prepare web a (text "PATCH") (user_url web a id) (some (patch_body operations)) (version ∷ [])
  prepare_change (delete_user id version) =
      prepare web a (text "DELETE") (user_url web a id) none (version ∷ [])

  pub send_change_lem :
      (r : Request) (s : S)
      → send_change web a r s ≡ changed web a (send_prepared web a none (prepare_change r) s)
  unfolding send_change request
  send_change_lem (post_user user) s = refl
  send_change_lem (patch_user id operations version) s = refl
  send_change_lem (delete_user id version) s = refl

  -- A request that has been built keeps its address and has the headers for its version.
  pub prepare_lem :
      (method endpoint : Text) (body : Option Resource) (versions : List Text) (h : HttpRequest)
      → prepare web a method endpoint body versions ≡ ok h
      → (h.method ≡ method) × (h.endpoint ≡ endpoint) × (h.headers ≡ headers_of a body versions)
  unfolding prepare
  prepare_lem method endpoint body versions h e =
      let (written, ew, e1) = >>=-eq-ok (encoded web a body) _ e in
      let (built, e2) = refuse_if-eq-ok (not (web.builds method endpoint)) _ _ e1 in
      let same = ok_inj _ _ h refl e2 in
      (
        ap (λ r. r.method) (sym same),
        ap (λ r. r.endpoint) (sym same),
        ap (λ r. r.headers) (sym same),
      )

  -- An exchange that the server has answered with success.
  pub record Accepted (h : HttpRequest) (s t : S) : Type 0 where
    pub response : HttpResponse
    pub sent : web.exchange h s ≡ (some response, t)
    pub success : is_failure response.status ≡ false

  answered-Accepted :
      (h : HttpRequest) (s t : S) (v : Option HttpResponse × S)
      → web.exchange h s ≡ v
      → changed web a (answer_of web a none v) ≡ (ok tt, t)
      → Accepted h s t
  unfolding read_response
  answered-Accepted h s t (none, u) seen e = absurd (ground arith)
  answered-Accepted h s t (some response, u) seen e =
      elim (Bool-cases (is_failure response.status)) [
        | inl failure ↦ absurd (ground arith)
        | inr success ↦ record {
          response = response;
          sent = seen ∙ ap (λ state. (some response, state)) (ground arith);
          success = success;
        }
      ]

  sent-Accepted :
      (p : Result ScimError HttpRequest) (s t : S)
      → changed web a (send_prepared web a none p s) ≡ (ok tt, t)
      → (h : HttpRequest) × (p ≡ ok h) × Accepted h s t
  sent-Accepted (err x) s t e = absurd (ground arith)
  sent-Accepted (ok h) s t e = (h, refl, answered-Accepted h s t (web.exchange h s) refl e)

  module _ ⦃u : Unicode⦄ where
    -- The request changes the user of this id, and states this version.
    pub data Changes (id version : Text) : Request → Type 0 where
      patches : (operations : _) → Changes id version (patch_user id operations version)
      deletes : Changes id version (delete_user id version)

    patch-Changes :
        (id : Text) (enabled : Bool) (attributes : _) (version : Text) (q : Option Request)
        → (patch a id enabled attributes version >>= λ r. ok (some r)) ≡ ok q
        → (r : Request) × (q ≡ some r) × Changes id version r
    unfolding patch
    patch-Changes id enabled attributes version q e =
        let (r, made, e1) = >>=-eq-ok (patch a id enabled attributes version) _ e in
        let (named, e2) = refuse_if-eq-ok (text_eq id []) _ _ made in
        let (values, ev, e3) = >>=-eq-ok (managed_desired_values a attributes) _ e2 in
        (
          r,
          ok_inj _ q (some r) refl (sym e1),
          subst (Changes id version) (ok_inj _ _ r refl e3) (patches _),
        )

    pub request_of-Changes :
        (d : DesiredState) (resource : Resource) (q : Option Request) (id version : Text)
        → resource_id resource ≡ ok id
        → resource_version resource ≡ ok version
        → request_of a d (some resource) ≡ ok q
        → (r : Request) × (q ≡ some r) × Changes id version r
    unfolding request_of
    request_of-Changes d resource q id version named versioned e = elim (Bool-cases d.exists) [
      | inl wanted ↦
          patch-Changes id d.enabled d.attributes version q
            (rw (request_of, named, versioned, wanted) at e)
      | inr unwanted ↦ elim (Bool-cases (is_disable a.deprovision_mode)) [
        | inl disabling ↦
            patch-Changes id false [] version q
              (rw (request_of, named, versioned, unwanted, disabling) at e)
        | inr deleting ↦ (
          delete_user id version,
          ok_inj _ q (some (delete_user id version)) refl
              (sym (rw (request_of, named, versioned, unwanted, deleting) at e)),
          deletes,
        )
      ]
    ]

    -- A request that is sent to the address of this user, on condition of this version.
    pub record Conditional (id version : Text) (h : HttpRequest) : Type 0 where
      pub addressed : h.endpoint ≡ user_url web a id
      pub matching : lookup (text "If-Match") h.headers ≡ unless_empty version

    prepared-Conditional :
        (method id version : Text) (body : Option Resource) (h : HttpRequest)
        → prepare web a method (user_url web a id) body (version ∷ []) ≡ ok h
        → Conditional id version h
    prepared-Conditional method id version body h e =
        let (_, addressed, headers) =
          prepare_lem method (user_url web a id) body (version ∷ []) h e in
        record {
          addressed = addressed;
          matching =
              ap (lookup (text "If-Match")) headers ∙ headers_of-if_match a body (version ∷ []);
        }

    pub Changes-Conditional :
        (id version : Text) (r : Request) (h : HttpRequest)
        → Changes id version r
        → prepare_change r ≡ ok h
        → Conditional id version h
    Changes-Conditional id version (_) h (patches operations) e =
        prepared-Conditional (text "PATCH") id version (some (patch_body operations)) h e
    Changes-Conditional id version (_) h deletes e =
        prepared-Conditional (text "DELETE") id version none h e

    sent_request :
        (p : Result ScimError (Option Request)) (s t : S)
        → send_request (http_service web a) a p s ≡ (ok tt, t)
        → (q : Option Request) × (p ≡ ok q)
    sent_request (err x) s t e = absurd (ground arith)
    sent_request (ok q) s t e = (q, refl)

    -- When Apply succeeds for a user that its search has found, it has made exactly one exchange
    -- after the search: the server has answered it with success, it was addressed to the user by
    -- its id, and it had the version that the search has read as If-Match, unless there is none.
    pub apply-Conditional :
        (d : DesiredState) (resource : Resource) (id version : Text) (s found t : S)
        → find (http_service web a) a d.subject_id s ≡ (ok (some resource), found)
        → resource_id resource ≡ ok id
        → resource_version resource ≡ ok version
        → apply (http_service web a) a d s ≡ (ok tt, t)
        → (h : HttpRequest) × Conditional id version h × Accepted h found t
    unfolding apply http_service
    apply-Conditional d resource id version s found t search named versioned e =
        let sent = rw search at e in
        let (q, asked) = sent_request (request_of a d (some resource)) found t sent in
        let (r, is_some, changes) =
          request_of-Changes d resource q id version named versioned asked in
        let change : send_change web a r found ≡ (ok tt, t) = rw (asked ∙ ap ok is_some) at sent in
        let (h, prepared, accepted) =
          sent-Accepted (prepare_change r) found t (sym (send_change_lem r found) ∙ change) in
        (h, Changes-Conditional id version r h changes prepared, accepted)
