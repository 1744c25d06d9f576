-- ===== src/Scim/Http/Searches.antt =====
-- Reading the service over HTTP.
use deterministic_identity_r.Prelude.{
  ◌≡◌, refl, ◌∙◌, inl, inr, Option, none, some, [], Result, ok, err, Bool-cases,
}
use deterministic_identity_r.Prelude.Text.{Text, text, text_eq, trim_space}
use deterministic_identity_r.Prelude.Text.Case.{Unicode}
use deterministic_identity_r.Scim.Config.{Adapter}
use deterministic_identity_r.Scim.Responses.{ScimError}
use deterministic_identity_r.Scim.Service.{find, observe, filter_of}
use deterministic_identity_r.Scim.Web.{Web, HttpRequest, HttpResponse, search_url}
use deterministic_identity_r.Scim.Http.{prepare, answer_of, send_prepared, request, http_service}
use deterministic_identity_r.Scim.Http.Exchanges.{prepare_lem}

module _ {S : Type 0} (web : Web S) (a : Adapter)
    (reads_only : (h : HttpRequest) (s : S)
      → h.method ≡ text "GET"
      → (web.exchange h s).1 ≡ s) where
  answer_keeps :
      {R : Type 0} (decoder : Option (_ → Option R)) (v : Option HttpResponse × S)
      → (answer_of web a decoder v).1 ≡ v.1
  answer_keeps decoder (none, s) = refl
  answer_keeps decoder (some response, s) = refl

  sent_keeps :
      {R : Type 0} (decoder : Option (_ → Option R)) (endpoint : Text) (s : S)
      (p : Result ScimError HttpRequest)
      → prepare web a (text "GET") endpoint none [] ≡ p
      → (send_prepared web a decoder p s).1 ≡ s
  sent_keeps decoder endpoint s (err e) made = refl
  sent_keeps decoder endpoint s (ok h) made =
      answer_keeps decoder (web.exchange h s)
      ∙ reads_only h s (prepare_lem web a (text "GET") endpoint none [] h made).0

  module _ ⦃u : Unicode⦄ where
    find_keeps : (id : Text) (s : S) → (find (http_service web a) a id s).1 ≡ s
    unfolding find http_service request
    find_keeps id s = elim (Bool-cases (text_eq (trim_space id) [])) [
      | inl blank ↦ rw blank refl
      | inr given ↦ rw given (
          sent_keeps (some web.decode_list) (search_url web a (filter_of a id)) s
            (prepare web a (text "GET") (search_url web a (filter_of a id)) none []) refl)
    ]

    -- An observation makes one search at most, so it leaves the service as it is.
    pub observe_keeps : (id : Text) (s : S) → (observe (http_service web a) a id s).1 ≡ s
    unfolding observe
    observe_keeps id s = find_keeps id s
