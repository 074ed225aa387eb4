-- ===== src/Auth/Manager.antt =====
-- internal/auth/auth.go: which providers are configured, and who a request is.
use training_platform.Shared.{
  is_empty, Bytes, codes, Bool, not, ◌&&◌, Option, none, some, List, [], ◌∷◌, ◌++◌, ◌==◌,
  if◌then◌else◌, str_eq,
}
use training_platform.Shared.Table.{Table, insert}
use training_platform.Auth.Cookie.{Hmac, verify}
use training_platform.Auth.Learner.{anonymous, learner_id}

-- type provider struct, with its oauth2.Config but for the endpoint.
pub record Provider : Type 0 where
  pub name : Bytes
  pub user_info_url : Bytes
  pub id_field : Bytes
  pub client_id : Bytes
  pub client_secret : Bytes
  pub redirect_url : Bytes
  pub scopes : List Bytes

-- type Manager struct
pub record Manager : Type 0 where
  pub providers : Table Provider
  pub secret : Bytes
  pub secure : Bool

-- type Options struct
pub record Options : Type 0 where
  pub base_url : Bytes
  pub secret : Bytes
  pub secure : Bool
  pub github_client_id : Bytes
  pub github_client_secret : Bytes
  pub google_client_id : Bytes
  pub google_client_secret : Bytes

-- The results of New: (nil, nil), an error, or a manager.
pub data Configured : Type 0 where
  no_login secret_required : Configured
  manager : Manager → Configured

-- strings.TrimRight(s, "/")
unfoldable pub trim_slashes : Bytes → Bytes
trim_slashes [] = []
trim_slashes (c ∷ s) = elim (trim_slashes s) [
  | [] ↦ if c == b'/' then [] else c ∷ []
  | d ∷ t ↦ c ∷ d ∷ t
]

github_provider : Bytes → Options → Provider
github_provider base o = record {
  name = codes "github";
  user_info_url = codes "https://api.github.com/user";
  id_field = codes "login";
  client_id = o.github_client_id;
  client_secret = o.github_client_secret;
  redirect_url = base ++ codes "/auth/callback/github";
  scopes = codes "read:user" ∷ [];
}

google_provider : Bytes → Options → Provider
google_provider base o = record {
  name = codes "google";
  user_info_url = codes "https://www.googleapis.com/oauth2/v2/userinfo";
  id_field = codes "email";
  client_id = o.google_client_id;
  client_secret = o.google_client_secret;
  redirect_url = base ++ codes "/auth/callback/google";
  scopes = codes "openid" ∷ codes "email" ∷ [];
}

unfoldable pub has_github : Options → Bool
unfolding is_empty
has_github o = not (is_empty o.github_client_id) && not (is_empty o.github_client_secret)

unfoldable pub has_google : Options → Bool
unfolding is_empty
has_google o = not (is_empty o.google_client_id) && not (is_empty o.google_client_secret)

-- The map of providers that New fills.
unfoldable pub configured_providers : Options → Table Provider
unfolding github_provider google_provider insert has_github has_google trim_slashes
configured_providers o =
    let base = trim_slashes o.base_url in
    let with_github =
      if has_github o then insert (codes "github") (github_provider base o) [] else [] in
    if has_google o
    then insert (codes "google") (google_provider base o) with_github
    else with_github

-- New
unfoldable pub new_manager : Options → Configured
unfolding configured_providers
new_manager o =
    if not (has_github o) && not (has_google o)
    then no_login
    else if is_empty o.secret
    then secret_required
    else elim (configured_providers o) [
      | [] ↦ no_login
      | p ∷ ps ↦ manager (record { providers = p ∷ ps; secret = o.secret; secure = o.secure })
    ]

-- Manager.UserID, of the session cookie of the request.
unfoldable pub manager_user_id : Hmac → Manager → Option Bytes → Bytes
manager_user_id h m none = anonymous
manager_user_id h m (some cookie) = elim (verify h m.secret cookie) [
  | none ↦ anonymous
  | some user ↦ user
]

-- UserIDFunc: the manager may be nil; `login` is the session cookie, and `learner` the name in the
-- context.
unfoldable pub user_id : Hmac → Option Manager → Option Bytes → Option Bytes → Bytes
unfolding is_empty
user_id h none login learner = learner_id learner
user_id h (some m) login learner =
    let id = manager_user_id h m login in
    if not (is_empty id) && not (str_eq id anonymous) then id else learner_id learner
