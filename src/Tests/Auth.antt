-- ===== src/Tests/Auth.antt =====
-- Logins and learner names at concrete requests.
use training_platform.Shared.{
  Bytes, codes, ◌≡◌, ◌≢◌, ◌⊎◌, refl, true, none, some, [], ◌∷◌, ◌++◌, arith, str_eq, cut,
}
use training_platform.Shared.Base64
use training_platform.Shared.Base64.{AreBytes}
use training_platform.Shared.Table.{lookup}
use training_platform.Auth.Cookie.{Hmac, sign, verify, verify_sound}
use training_platform.Shared.Hex.{hex_digit}
use training_platform.Auth.Learner.{
  Draws, random_learner_name, is_learner_name, anonymous_middleware, pick, adjectives, animals,
}
use training_platform.Auth.Learner.Names.{is_index, is_draw, anonymous_middleware_lem}
use training_platform.Auth.Manager.{Provider, Manager}
use training_platform.Auth.Login.{
  text, OauthService, Callback, handle_callback, qualified_id, trim_prefix, user_id_of_profile,
  state_is_valid, finish_callback, string_field, logged_in, redirect, cookie, session_cookie,
}
use training_platform.Auth.Login.Attribution.{session_value, session_value-handle_callback}
use training_platform.Tests.Samples.{sample_hmac, checksum}

hello_bytes : AreBytes (codes "hello")
hello_bytes = (omega arith, (omega arith, (omega arith, (omega arith, (omega arith, tt)))))

-- A cookie that is not made by `sign`: the newline in its payload is skipped.
abbrev odd_cookie : Bytes
odd_cookie = 10 ∷ sign sample_hmac (codes "key") (codes "a")

odd_verified : verify sample_hmac (codes "key") odd_cookie ≡ some (codes "a")
unfolding verify cut sign Base64.encode Base64.symbol Base64.decode Base64.decode_symbols
    Base64.skip_newlines Base64.symbol_value str_eq checksum
odd_verified = refl

verify_sound_example :
    (first : Bytes) × (odd_cookie
      ≡ first ++ b'.' ∷ Base64.encode (Hmac.mac sample_hmac (codes "key") (codes "a")))
    × (Base64.decode first ≡ some (codes "a"))
verify_sound_example = verify_sound sample_hmac (codes "key") odd_cookie (codes "a") odd_verified

abbrev draws : Draws
draws = record { adjective = some 2; animal = none; byte_0 = 58; byte_1 = 255 }

drawn : random_learner_name draws ≡ some (codes "brisk-otter-3af")
unfolding random_learner_name pick adjectives animals hex_digit
drawn = refl

abbrev some_draws : Draws
some_draws = record { adjective = some 3; animal = none; byte_0 = 0; byte_1 = 255 }

some_draws-is_draw : is_draw some_draws ≡ true
unfolding is_draw is_index
some_draws-is_draw = refl

anonymous_middleware_lem_example :
    (fresh : Bytes) × (random_learner_name some_draws ≡ some fresh)
    × (is_learner_name (anonymous_middleware fresh (some (codes "<script>"))).name ≡ true)
    × (anonymous_middleware
          (codes "keen-yak-abc")
          (some (anonymous_middleware fresh (some (codes "<script>"))).name)
        ≡ record {
          name = (anonymous_middleware fresh (some (codes "<script>"))).name;
          new_cookie = none;
        })
    × (((anonymous_middleware fresh (some (codes "<script>"))).new_cookie
          ≡ some (anonymous_middleware fresh (some (codes "<script>"))).name)
        ⊎ (some (codes "<script>")
            ≡ some (anonymous_middleware fresh (some (codes "<script>"))).name))
anonymous_middleware_lem_example =
    anonymous_middleware_lem some_draws (codes "keen-yak-abc") (some (codes "<script>"))
      some_draws-is_draw

abbrev github : Provider
github = record {
  name = codes "github";
  user_info_url = codes "https://api.github.com/user";
  id_field = codes "login";
  client_id = codes "id";
  client_secret = codes "secret";
  redirect_url = codes "https://x/auth/callback/github";
  scopes = codes "read:user" ∷ [];
}

abbrev logins : Manager
logins = record { providers = (codes "github", github) ∷ []; secret = codes "key"; secure = true }

ann_bytes : AreBytes (qualified_id github (codes "ann"))
unfolding qualified_id
ann_bytes = (
  omega arith,
  (
    omega arith,
    (
      omega arith,
      (
        omega arith,
        (
          omega arith,
          (omega arith, (omega arith, (omega arith, (omega arith, (omega arith, tt))))),
        ),
      ),
    ),
  ),
)

-- A provider that takes every code, and whose profiles are all of ann.
abbrev oauth : OauthService
oauth = record {
  Token = Bytes;
  exchange = λ p code. some code;
  profile = λ p token. some ((codes "login", text (codes "ann")) ∷ []);
}

abbrev callback : Callback
callback = record {
  path = codes "/auth/callback/github";
  state_value = some (codes "s1");
  query_state = codes "s1";
  query_code = codes "c1";
}

abbrev ann_cookie : Bytes
ann_cookie = sign sample_hmac (codes "key") (qualified_id github (codes "ann"))

logged_in_as_ann :
    session_value (handle_callback sample_hmac oauth logins callback).cookies ≡ some ann_cookie
unfolding session_value handle_callback lookup str_eq trim_prefix state_is_valid finish_callback
    user_id_of_profile string_field logged_in redirect cookie session_cookie
logged_in_as_ann = refl

session_value-handle_callback_example :
    (p : Provider) × (token : Bytes) × (id : Bytes) × (lookup
        (trim_prefix (codes "/auth/callback/github") (codes "/auth/callback/"))
        logins.providers
      ≡ some p)
    × (some (codes "s1") ≡ some (codes "s1"))
    × (codes "s1" ≢ [])
    × (some (codes "c1") ≡ some token)
    × (user_id_of_profile p (some ((codes "login", text (codes "ann")) ∷ [])) ≡ some id)
    × (ann_cookie ≡ sign sample_hmac (codes "key") (qualified_id p id))
session_value-handle_callback_example =
    session_value-handle_callback sample_hmac oauth logins callback ann_cookie logged_in_as_ann
