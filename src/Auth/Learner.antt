-- ===== src/Auth/Learner.antt =====
-- internal/auth/anon.go: the names that tell anonymous learners apart.
pub mod Names
use training_platform.Shared.{
  is_empty, Bytes, codes, ℕ, zero, suc, ◌+◌, ◌/◌, ◌%◌, Bool, true, false, not, ◌&&◌, ◌||◌, Option,
  none, some, List, [], ◌∷◌, ◌++◌, ltb, leb, ◌==◌, if◌then◌else◌,
}
use training_platform.Shared.Hex.{hex_digit}
use training_platform.Shared.Base64.{◌>>=◌}

unfoldable pub adjectives : List Bytes
adjectives =
    codes "amber"
    ∷ codes "brave"
    ∷ codes "brisk"
    ∷ codes "calm"
    ∷ codes "clever"
    ∷ codes "cosmic"
    ∷ codes "crisp"
    ∷ codes "curious"
    ∷ codes "eager"
    ∷ codes "fluent"
    ∷ codes "gentle"
    ∷ codes "swift"
    ∷ codes "keen"
    ∷ codes "lucid"
    ∷ codes "merry"
    ∷ codes "nimble"
    ∷ codes "noble"
    ∷ codes "patient"
    ∷ codes "plucky"
    ∷ codes "quiet"
    ∷ codes "rapid"
    ∷ codes "serene"
    ∷ codes "sharp"
    ∷ codes "solar"
    ∷ codes "spry"
    ∷ codes "steady"
    ∷ codes "sunny"
    ∷ codes "tidy"
    ∷ codes "vivid"
    ∷ codes "witty"
    ∷ codes "zesty"
    ∷ codes "bright"
    ∷ []

unfoldable pub animals : List Bytes
animals =
    codes "otter"
    ∷ codes "falcon"
    ∷ codes "badger"
    ∷ codes "heron"
    ∷ codes "lynx"
    ∷ codes "marten"
    ∷ codes "osprey"
    ∷ codes "puffin"
    ∷ codes "raven"
    ∷ codes "salmon"
    ∷ codes "stoat"
    ∷ codes "tapir"
    ∷ codes "vole"
    ∷ codes "wombat"
    ∷ codes "yak"
    ∷ codes "gecko"
    ∷ codes "ibex"
    ∷ codes "koala"
    ∷ codes "lemur"
    ∷ codes "manta"
    ∷ codes "narwhal"
    ∷ codes "ocelot"
    ∷ codes "panda"
    ∷ codes "quokka"
    ∷ codes "robin"
    ∷ codes "seal"
    ∷ codes "tern"
    ∷ codes "urchin"
    ∷ codes "viper"
    ∷ codes "walrus"
    ∷ codes "wren"
    ∷ codes "bison"
    ∷ []

unfoldable pub is_lower : ℕ → Bool
is_lower c = leb b'a' c && leb c b'z'

unfoldable pub is_hex : ℕ → Bool
is_hex c = (leb b'0' c && leb c b'9') || (leb b'a' c && leb c b'f')

-- `[a-z]+-` at the front of a text: what follows. `started` tells whether a letter was read.
unfoldable pub word_dash : Bool → Bytes → Option Bytes
word_dash started [] = none
word_dash started (c ∷ s) =
    let rest = word_dash true s in
    if is_lower c then rest else if started && (c == b'-') then some s else none

-- `[0-9a-f]{3}$`
unfoldable pub is_three_hex : Bytes → Bool
is_three_hex (a ∷ b ∷ c ∷ []) = is_hex a && is_hex b && is_hex c
is_three_hex _ = false

-- nameRe.MatchString
unfoldable pub is_learner_name : Bytes → Bool
is_learner_name s = elim (word_dash false s >>= word_dash false) [
  | none ↦ false
  | some rest ↦ is_three_hex rest
]

-- list[i]; `none` is the panic of an index out of range.
unfoldable pub at_index : List Bytes → ℕ → Option Bytes
at_index [] i = none
at_index (w ∷ ws) zero = some w
at_index (w ∷ ws) (suc i) = at_index ws i

-- pick: the number that rand.Int draws, or `none` when it fails.
unfoldable pub pick : List Bytes → Option ℕ → Option Bytes
unfolding at_index
pick words none = at_index words 0
pick words (some i) = at_index words i

-- What RandomLearnerName draws.
pub record Draws : Type 0 where
  pub adjective : Option ℕ
  pub animal : Option ℕ
  pub byte_0 : ℕ
  pub byte_1 : ℕ

-- RandomLearnerName
unfoldable pub random_learner_name : Draws → Option Bytes
random_learner_name d = do
  a ← pick adjectives d.adjective
  b ← pick animals d.animal
  some (
      a
      ++ b'-'
        ∷ (b
            ++ b'-'
              ∷ hex_digit (d.byte_0 / 16)
              ∷ hex_digit (d.byte_0 % 16)
              ∷ hex_digit (d.byte_1 / 16)
              ∷ []))

-- What AnonymousMiddleware does to a request: the name that goes into its context, and the cookie
-- that is set, if one is. `fresh` is the drawn name.
pub record Named : Type 0 where
  pub name : Bytes
  pub new_cookie : Option Bytes

unfoldable pub anonymous_middleware : Bytes → Option Bytes → Named
anonymous_middleware fresh cookie =
    let name : Bytes = elim cookie [ none ↦ [] | some v ↦ if is_learner_name v then v else [] ] in
    if is_empty name
    then record { name = fresh; new_cookie = some fresh }
    else record { name = name; new_cookie = none }

unfoldable pub anonymous : Bytes
anonymous = codes "anonymous"

-- LearnerID, of the name in the request's context.
unfoldable pub learner_id : Option Bytes → Bytes
learner_id none = anonymous
learner_id (some v) = if not (is_empty v) then v else anonymous
