-- ===== src/Auth/Login.antt =====
-- internal/auth/auth.go: the login handlers. The OAuth exchange and the provider's profile endpoint
-- are parameters.
pub mod Attribution
use training_platform.Shared.{
  is_empty, Bytes, codes, ℕ, Bool, true, false, not, ◌&&◌, ◌||◌, Option, none, some, List, [], ◌∷◌,
  ◌++◌, if◌then◌else◌, str_eq, cut_prefix, map,
}
use training_platform.Shared.Int.{ℤ, pos, negsuc}
use training_platform.Shared.Table.{Table, lookup}
use training_platform.Auth.Cookie.{Hmac, sign}
use training_platform.Auth.Manager.{Provider, Manager, manager_user_id}

unfoldable pub session_cookie : Bytes
session_cookie = codes "training_session"

unfoldable pub state_cookie : Bytes
state_cookie = codes "training_oauth_state"

-- http.Cookie, but for its constant attributes and the expiry that repeats `max_age`.
pub record SetCookie : Type 0 where
  pub name : Bytes
  pub value : Bytes
  pub secure : Bool
  pub max_age : ℤ

-- Manager.cookie, with the lifetime in seconds.
unfoldable pub cookie : Manager → Bytes → Bytes → ℤ → SetCookie
cookie m name value ttl = record { name = name; value = value; secure = m.secure; max_age = ttl }

-- What a handler answers.
pub record Reply : Type 0 where
  pub status : ℕ
  pub text : Bytes
  pub cookies : List SetCookie

-- http.Redirect with StatusFound, http.NotFound and http.Error.
unfoldable pub redirect : Bytes → List SetCookie → Reply
redirect location cookies = record { status = 302; text = location; cookies = cookies }

unfoldable pub failure : ℕ → Bytes → Reply
failure status text = record { status = status; text = text; cookies = [] }

-- strings.TrimPrefix(s, p)
unfoldable pub trim_prefix : Bytes → Bytes → Bytes
unfolding cut_prefix
trim_prefix s p = elim (cut_prefix s p) [ none ↦ s | some rest ↦ rest ]

-- A value of the decoded profile: a string, or another value by its %v text.
pub data Json : Type 0 where
  text other : Bytes → Json

unfoldable pub json_text : Json → Bytes
json_text (text t) = t
json_text (other t) = t

-- info[p.idField].(string), if it is a string that is not empty.
unfoldable pub string_field : Option Json → Option Bytes
unfolding is_empty
string_field none = none
string_field (some (text t)) = if is_empty t then none else some t
string_field (some (other t)) = none

-- fetchUserID after the request: `info` is the decoded profile, if it could be read.
unfoldable pub user_id_of_profile : Provider → Option (Table Json) → Option Bytes
user_id_of_profile p none = none
user_id_of_profile p (some info) = elim (string_field (lookup p.id_field info)) [
  | some v ↦ some v
  | none ↦ elim (lookup (codes "id") info) [ none ↦ none | some v ↦ some (json_text v) ]
]

-- handleProviders
unfoldable pub handle_providers : Manager → List Bytes
handle_providers m = map (λ entry. entry.0) m.providers

-- handleLogin. `auth_url` is oauth2.Config.AuthCodeURL and `state` the random token.
unfoldable pub handle_login : (Provider → Bytes → Bytes) → Manager → Bytes → Bytes → Reply
handle_login auth_url m state path =
    elim (lookup (trim_prefix path (codes "/auth/login/")) m.providers) [
      | none ↦ failure 404 (codes "404 page not found")
      | some p ↦ redirect (auth_url p state) (cookie m state_cookie state (pos 600) ∷ [])
    ]

-- The outside of a callback: the exchange of the code for a token, and the profile.
pub record OauthService : Type 1 where
  pub Token : Type 0
  pub exchange : Provider → Bytes → Option Token
  pub profile : Provider → Token → Option (Table Json)

-- What a callback request carries.
pub record Callback : Type 0 where
  pub path : Bytes
  pub state_value : Option Bytes
  pub query_state : Bytes
  pub query_code : Bytes

-- The guard against forged requests: the state cookie is there, not empty, and the one returned.
unfoldable pub state_is_valid : Callback → Bool
unfolding is_empty
state_is_valid r = elim r.state_value [
  | none ↦ false
  | some v ↦ not (is_empty v) && str_eq v r.query_state
]

-- p.name + ":" + id
unfoldable pub qualified_id : Provider → Bytes → Bytes
qualified_id p id = p.name ++ b':' ∷ id

-- The reply to a login that succeeds.
unfoldable pub logged_in : Hmac → Manager → Bytes → Reply
logged_in h m user = redirect (codes "/") (
    cookie m session_cookie (sign h m.secret user) (pos 43200)
    ∷ cookie m state_cookie [] (negsuc 3599)
    ∷ [])

-- handleCallback behind the guard.
unfoldable pub finish_callback : Hmac → (oauth : OauthService) → Manager → Provider → Bytes → Reply
finish_callback h oauth m p code = elim (oauth.exchange p code) [
  | none ↦ failure 502 (codes "oauth exchange failed")
  | some token ↦ elim (user_id_of_profile p (oauth.profile p token)) [
    | none ↦ failure 502 (codes "could not read user profile")
    | some id ↦ logged_in h m (qualified_id p id)
  ]
]

-- handleCallback
unfoldable pub handle_callback : Hmac → (oauth : OauthService) → Manager → Callback → Reply
handle_callback h oauth m r =
    elim (lookup (trim_prefix r.path (codes "/auth/callback/")) m.providers) [
      | none ↦ failure 404 (codes "404 page not found")
      | some p ↦
          if state_is_valid r
          then finish_callback h oauth m p r.query_code
          else failure 400 (codes "invalid oauth state")
    ]

-- handleLogout
unfoldable pub handle_logout : Manager → Reply
handle_logout m = redirect (codes "/") (cookie m session_cookie [] (negsuc 3599) ∷ [])

-- handleMe
unfoldable pub handle_me : Hmac → Manager → Option Bytes → Bytes
handle_me h m login = manager_user_id h m login
