-- ===== src/Scim/Web.antt =====
-- The HTTP client that the adapter is given, and the addresses of scim.go: resourceURL, userURL and
-- the search of find.
use deterministic_identity_r.Prelude.{
  ℕ, zero, suc, Bool, if◌then◌else◌, ◌==◌, Option, List, [], ◌∷◌, ◌++◌,
}
use deterministic_identity_r.Prelude.Text.{Text, text}
use deterministic_identity_r.Prelude.Dict.{Dict, insert}
use deterministic_identity_r.Scim.Config.{Url, Adapter}
use deterministic_identity_r.Scim.Responses.{Resource, ListResponse}

pub record HttpRequest : Type 0 where
  pub method : Text
  pub endpoint : Text
  pub headers : Dict Text
  pub body : Option Text

pub record HttpResponse : Type 0 where
  pub status : ℕ
  pub body : List ℕ

-- What the adapter takes from net/url, encoding/json and net/http: URL.String, URL.EscapedPath,
-- url.PathEscape, URL.Query, Values.Encode; json.Marshal and the decoding of a list response;
-- whether http.NewRequest accepts a method and an endpoint; and Client.Do, where `none` is an
-- error.
pub record Web (S : Type 0) : Type 0 where
  pub url_string : Url → Text
  pub escaped_path : Url → Text
  pub path_escape : Text → Text
  pub query_of : Url → Dict (List Text)
  pub encode_query : Dict (List Text) → Text
  pub marshal : Resource → Option Text
  pub decode_list : List ℕ → Option ListResponse
  pub builds : Text → Text → Bool
  pub exchange : HttpRequest → S → Option HttpResponse × S

-- strings.TrimLeft(s, "/")
unfoldable pub trim_left_slashes : Text → Text
trim_left_slashes [] = []
trim_left_slashes (c ∷ s) = if c == b'/' then trim_left_slashes s else c ∷ s

-- A character in front of what is left of the rest: a slash goes if nothing is left.
abbrev pub keep_unless_slash : ℕ → Text → Text
keep_unless_slash c [] = if c == b'/' then [] else c ∷ []
keep_unless_slash c (d ∷ s) = c ∷ d ∷ s

-- strings.TrimRight(s, "/")
unfoldable pub trim_right_slashes : Text → Text
trim_right_slashes [] = []
trim_right_slashes (c ∷ s) = keep_unless_slash c (trim_right_slashes s)

-- io.LimitReader, on what has been read to the end.
unfoldable pub limited : ℕ → List ℕ → List ℕ
limited zero body = []
limited (suc n) [] = []
limited (suc n) (byte ∷ body) = byte ∷ limited n body

-- resourceURL
unfoldable pub resource_url : Adapter → Text → Url
resource_url a resource = record a.base_url {
  path = trim_right_slashes a.base_url.path ++ (text "/" ++ trim_left_slashes resource);
}

module _ {S : Type 0} (web : Web S) (a : Adapter) where
  -- userURL
  unfoldable pub user_url : Text → Text
  user_url id =
      let result = resource_url a (text "Users") in
      web.url_string (record result {
        path = trim_right_slashes result.path ++ (text "/" ++ id);
        raw_path = trim_right_slashes (web.escaped_path result) ++ (text "/" ++ web.path_escape id);
      })

  -- The URL of find.
  unfoldable pub search_url : Text → Text
  search_url filter =
      let users = resource_url a (text "Users") in
      let query =
        insert (text "count") (text "2" ∷ [])
          (insert (text "filter") (filter ∷ []) (web.query_of users)) in
      web.url_string (record users { raw_query = web.encode_query query })
