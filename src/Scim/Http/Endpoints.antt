-- ===== src/Scim/Http/Endpoints.antt =====
-- The addresses and the headers of the requests.
use mathlib.Core.List.{append_assoc}
use deterministic_identity_r.Prelude.{
  ◌≡◌, refl, ap, ◌∙◌, if◌then◌else◌, Option, none, some, List, [], ◌∷◌, ◌++◌, arith,
}
use deterministic_identity_r.Prelude.Text.{Text, text, text_eq}
use deterministic_identity_r.Prelude.Dict.{lookup, insert}
use deterministic_identity_r.Scim.Config.{Adapter}
use deterministic_identity_r.Scim.Responses.{Resource}
use deterministic_identity_r.Scim.Web.{
  Web, trim_left_slashes, trim_right_slashes, keep_unless_slash, resource_url, user_url, search_url,
}
use deterministic_identity_r.Scim.Http.{headers_of, first_version}

-- A text that trimming leaves alone and that is not empty keeps what stands before it.
trim_right_slashes-append :
    (s : Text) (c : _) (t : Text)
    → trim_right_slashes (c ∷ t) ≡ c ∷ t
    → trim_right_slashes (s ++ (c ∷ t)) ≡ s ++ (c ∷ t)
unfolding trim_right_slashes
trim_right_slashes-append [] c t h = h
trim_right_slashes-append (d ∷ []) c t h = ap (keep_unless_slash d) h
trim_right_slashes-append (d ∷ e ∷ s) c t h =
    ap (keep_unless_slash d) (trim_right_slashes-append (e ∷ s) c t h)

trim_right_slashes-slash : (s : Text) → trim_right_slashes (s ++ text "/") ≡ trim_right_slashes s
unfolding trim_right_slashes
trim_right_slashes-slash [] = refl
trim_right_slashes-slash (c ∷ s) = ap (keep_unless_slash c) (trim_right_slashes-slash s)

-- The path of a user's address.
abbrev pub user_path : Adapter → Text → Text
user_path a id = trim_right_slashes a.base_url.path ++ (text "/Users/" ++ id)

trim_users : trim_right_slashes (text "/Users") ≡ text "/Users"
unfolding trim_right_slashes
trim_users = refl

user_path_lem :
    (a : Adapter) (id : Text)
    → trim_right_slashes (trim_right_slashes a.base_url.path ++ text "/Users") ++ (text "/" ++ id)
      ≡ user_path a id
user_path_lem a id =
    ap (λ s. s ++ (text "/" ++ id))
      (trim_right_slashes-append (trim_right_slashes a.base_url.path) b'/' (text "Users")
        trim_users)
    ∙ append_assoc (trim_right_slashes a.base_url.path) (text "/Users") (text "/" ++ id)

-- The address of a user is the base URL with its path, less the slashes at its end, followed by
-- `/Users/` and the id; in the escaped form of the path the id is escaped as one segment.
pub user_url-path :
    {S : Type 0} (web : Web S) (a : Adapter) (id : Text)
    → user_url web a id
      ≡ web.url_string (record a.base_url {
        path = user_path a id;
        raw_path =
            trim_right_slashes (web.escaped_path (resource_url a (text "Users")))
            ++ (text "/" ++ web.path_escape id);
      })
unfolding user_url resource_url trim_left_slashes
user_url-path web a id =
    ap
      (λ p. web.url_string (record a.base_url {
        path = p;
        raw_path =
            trim_right_slashes (web.escaped_path (resource_url a (text "Users")))
            ++ (text "/" ++ web.path_escape id);
      }))
      (user_path_lem a id)

-- The same adapter with a slash at the end of the path of its base URL.
abbrev pub with_slash : Adapter → Adapter
with_slash a = record a { base_url = record a.base_url { path = a.base_url.path ++ text "/" } }

resource_url_slash :
    (a : Adapter) (resource : Text) → resource_url (with_slash a) resource ≡ resource_url a resource
unfolding resource_url
resource_url_slash a resource =
    ap (λ p. record a.base_url { path = p ++ (text "/" ++ trim_left_slashes resource) })
      (trim_right_slashes-slash a.base_url.path)

-- A slash at the end of the base URL changes neither the address of a search nor that of a user.
pub urls_slash :
    {S : Type 0} (web : Web S) (a : Adapter) (filter id : Text)
    → (search_url web (with_slash a) filter ≡ search_url web a filter)
      × (user_url web (with_slash a) id ≡ user_url web a id)
unfolding search_url user_url
urls_slash web a filter id = (
  rw (search_url, resource_url_slash a (text "Users")) refl,
  rw (user_url, resource_url_slash a (text "Users")) refl,
)

abbrev pub unless_empty : Text → Option Text
unless_empty value = if text_eq value [] then none else some value

-- The header If-Match is there exactly if there is a version.
pub headers_of-if_match :
    (a : Adapter) (body : Option Resource) (versions : List Text)
    → lookup (text "If-Match") (headers_of a body versions) ≡ unless_empty (first_version versions)
unfolding headers_of lookup insert text_eq
headers_of-if_match a none [] = ground arith
headers_of-if_match a (some b) [] = ground arith
headers_of-if_match a none (v ∷ vs) = ground arith
headers_of-if_match a (some b) (v ∷ vs) = ground arith
