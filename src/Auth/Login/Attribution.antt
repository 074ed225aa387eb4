-- ===== src/Auth/Login/Attribution.antt =====
-- Who a login cookie makes a request, and when such a cookie is set.
use training_platform.Shared.{
  is_empty, Bytes, codes, ℕ, ◌≡◌, ◌≢◌, refl, ap, ◌∙◌, Bool, true, false, Option, none, some, List,
  [], ◌∷◌, arith, any, any-append, ◌==◌, if◌then◌else◌, str_eq, str_eq_iff, Bool-cases,
  Option-cases, inl, inr,
}
use training_platform.Shared.Base64.{AreBytes}
use training_platform.Shared.Table.{lookup}
use training_platform.Auth.Cookie.{Hmac, sign, verify-sign}
use training_platform.Auth.Learner.{anonymous}
use training_platform.Auth.Manager.{Provider, Manager, manager_user_id, user_id}
use training_platform.Auth.Login.{
  session_cookie, SetCookie, cookie, redirect, failure, trim_prefix, user_id_of_profile,
  OauthService, Callback, state_is_valid, qualified_id, logged_in, finish_callback, handle_callback,
}

-- The value that a reply sets the session cookie to.
unfoldable pub session_value : List SetCookie → Option Bytes
session_value [] = none
session_value (c ∷ cs) =
    let rest = session_value cs in if str_eq c.name session_cookie then some c.value else rest

has_colon : Bytes → Bool
has_colon = any (λ c. c == b':')

qualified_id-has_colon : (p : Provider) (id : Bytes) → has_colon (qualified_id p id) ≡ true
unfolding has_colon qualified_id any
qualified_id-has_colon p id = any-append (λ c. c == b':') p.name (b':' ∷ id) ∙ ground arith

anonymous-has_colon : has_colon anonymous ≡ false
unfolding has_colon any anonymous
anonymous-has_colon = refl

empty-has_colon : has_colon [] ≡ false
unfolding has_colon any
empty-has_colon = refl

-- An id of a provider is neither empty nor the anonymous one.
is_user : (u : Bytes) → has_colon u ≡ true → (is_empty u ≡ false) × (str_eq u anonymous ≡ false)
is_user u h = (not_blank u h, ground (arith, str_eq_iff u anonymous, anonymous-has_colon))
  where
    not_blank : (v : Bytes) → has_colon v ≡ true → is_empty v ≡ false
    not_blank [] k = cc (k, empty-has_colon)
    not_blank (c ∷ v) k = unfold is_empty in refl

-- The cookie of a login names its user, whatever learner name the request has.
user_id-sign :
    (h : Hmac) (m : Manager) (p : Provider) (id : Bytes) (learner : Option Bytes)
    → AreBytes (qualified_id p id)
    → user_id h (some m) (some (sign h m.secret (qualified_id p id))) learner ≡ qualified_id p id
unfolding user_id manager_user_id
user_id-sign h m p id learner bytes =
    let u = qualified_id p id in
    let named = is_user u (qualified_id-has_colon p id) in
    ground (arith, verify-sign h m.secret u bytes, named.0, named.1)

session_value-logged_in :
    (h : Hmac) (m : Manager) (u : Bytes)
    → session_value (logged_in h m u).cookies ≡ some (sign h m.secret u)
unfolding session_value logged_in redirect cookie session_cookie str_eq
session_value-logged_in h m u = refl

session_value-failure :
    (status : ℕ) (message : Bytes) → session_value (failure status message).cookies ≡ none
unfolding session_value failure
session_value-failure status message = refl

state_is_valid_lem :
    (r : Callback)
    → state_is_valid r ≡ true
    → (r.state_value ≡ some r.query_state) × (r.query_state ≢ [])
unfolding state_is_valid
state_is_valid_lem r e = elim (Option-cases r.state_value) [
  | inl q ↦ absurd (ground arith)
  | inr (v, q) ↦ (
    ground (arith, str_eq_iff v r.query_state),
    (λ blank.
        let filled : is_empty v ≡ false = ground arith in
        let same : v ≡ r.query_state = ground (arith, str_eq_iff v r.query_state) in
        let nothing : is_empty [] ≡ true = unfold is_empty in refl in
        cc (filled, ap is_empty same, ap is_empty blank, nothing)),
  )
]

session_value-finish_callback :
    (h : Hmac) (oauth : OauthService) (m : Manager) (p : Provider) (code v : Bytes)
    → session_value (finish_callback h oauth m p code).cookies ≡ some v
    → (token : oauth.Token) × (id : Bytes) × (oauth.exchange p code ≡ some token)
      × (user_id_of_profile p (oauth.profile p token) ≡ some id)
      × (v ≡ sign h m.secret (qualified_id p id))
unfolding finish_callback
session_value-finish_callback h oauth m p code v e = elim (Option-cases (oauth.exchange p code)) [
  | inl q ↦ absurd (ground (arith, session_value-failure 502 (codes "oauth exchange failed")))
  | inr (token, q) ↦ elim (Option-cases (user_id_of_profile p (oauth.profile p token))) [
    | inl k ↦
        absurd (ground (arith, session_value-failure 502 (codes "could not read user profile")))
    | inr (id, k) ↦
        (token, id, q, k, ground (arith, session_value-logged_in h m (qualified_id p id)))
  ]
]

-- A login cookie is set only behind every check: the provider is configured, the state cookie is
-- there, not empty and the state returned, the code was exchanged, and the profile has an id; and
-- the cookie is the signature of that provider's id.
pub session_value-handle_callback :
    (h : Hmac) (oauth : OauthService) (m : Manager) (r : Callback) (v : Bytes)
    → session_value (handle_callback h oauth m r).cookies ≡ some v
    → (p : Provider) × (token : oauth.Token) × (id : Bytes) × (lookup
          (trim_prefix r.path (codes "/auth/callback/"))
          m.providers
        ≡ some p)
      × (r.state_value ≡ some r.query_state)
      × (r.query_state ≢ [])
      × (oauth.exchange p r.query_code ≡ some token)
      × (user_id_of_profile p (oauth.profile p token) ≡ some id)
      × (v ≡ sign h m.secret (qualified_id p id))
unfolding handle_callback
session_value-handle_callback h oauth m r v e =
    elim (Option-cases (lookup (trim_prefix r.path (codes "/auth/callback/")) m.providers)) [
      | inl q ↦ absurd (ground (arith, session_value-failure 404 (codes "404 page not found")))
      | inr (p, q) ↦ elim (Bool-cases (state_is_valid r)) [
        | inr bad ↦ absurd (ground (arith, session_value-failure 400 (codes "invalid oauth state")))
        | inl good ↦
            let (state, filled) = state_is_valid_lem r good in
            let finished =
              session_value-finish_callback h oauth m p r.query_code v (ground arith) in
            (p, finished.0, finished.1, q, state, filled, finished.2, finished.3, finished.4)
      ]
    ]
