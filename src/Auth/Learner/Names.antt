-- ===== src/Auth/Learner/Names.antt =====
-- Learner names: what is drawn is accepted back, and every request has an accepted name.
use training_platform.Shared.{
  is_empty, length, ltb, Bytes, ℕ, zero, suc, ◌/◌, ◌%◌, ◌<◌, ◌≡◌, ◌⊎◌, refl, Bool, true, false, not,
  ◌&&◌, Option, none, some, List, [], ◌∷◌, ◌++◌, arith, all, Option-cases, inl, inr,
}
use training_platform.Shared.Hex.{hex_digit}
use training_platform.Auth.Learner.{
  adjectives, animals, is_lower, is_hex, word_dash, is_three_hex, is_learner_name, at_index, pick,
  Draws, random_learner_name, anonymous_middleware,
}

-- A word of lower-case letters that is not empty.
unfoldable is_word : Bytes → Bool
unfolding all is_lower is_empty
is_word w = all is_lower w && not (is_empty w)

word_dash_started :
    (w rest : Bytes) → all is_lower w ≡ true → word_dash true (w ++ b'-' ∷ rest) ≡ some rest
unfolding all word_dash
word_dash_started [] rest h = unfold is_lower in refl
word_dash_started (c ∷ w) rest h = ground (arith, word_dash_started w rest)

word_dash-is_word :
    (w rest : Bytes) → is_word w ≡ true → word_dash false (w ++ b'-' ∷ rest) ≡ some rest
word_dash-is_word [] rest h = unfold is_word all is_empty in cc
word_dash-is_word (c ∷ w) rest h =
    unfold word_dash is_word in ground (arith, word_dash_started w rest)

at_index-all :
    (p : Bytes → Bool) (ws : List Bytes) (i : ℕ) (w : Bytes)
    → all p ws ≡ true
    → at_index ws i ≡ some w
    → p w ≡ true
unfolding all at_index
at_index-all p [] i w h e = cc
at_index-all p (v ∷ ws) zero w h e = ground arith
at_index-all p (v ∷ ws) (suc i) w h e = at_index-all p ws i w (ground arith) e

pick-all :
    (p : Bytes → Bool) (ws : List Bytes) (draw : Option ℕ) (w : Bytes)
    → all p ws ≡ true
    → pick ws draw ≡ some w
    → p w ≡ true
unfolding pick
pick-all p ws none w h e = at_index-all p ws 0 w h e
pick-all p ws (some i) w h e = at_index-all p ws i w h e

adjectives-words : all is_word adjectives ≡ true
unfolding all is_word adjectives
adjectives-words = refl

animals-words : all is_word animals ≡ true
unfolding all is_word animals
animals-words = refl

hex_digit-is_hex : (n : ℕ) → n < 16 → is_hex (hex_digit n) ≡ true
unfolding is_hex hex_digit
hex_digit-is_hex n h = ground arith

assembled :
    (a b : Bytes) (x y z : ℕ)
    → is_word a ≡ true
    → is_word b ≡ true
    → (is_hex x && is_hex y && is_hex z) ≡ true
    → is_learner_name (a ++ b'-' ∷ (b ++ b'-' ∷ x ∷ y ∷ z ∷ [])) ≡ true
unfolding is_learner_name is_three_hex
assembled a b x y z ha hb h = ground (
  arith,
  word_dash-is_word a (b ++ b'-' ∷ x ∷ y ∷ z ∷ []) ha,
  word_dash-is_word b (x ∷ y ∷ z ∷ []) hb,
)

-- Every name that is drawn has the shape that is accepted back from a cookie.
random_learner_name-is_learner_name :
    (d : Draws) (name : Bytes)
    → d.byte_0 < 256
    → d.byte_1 < 256
    → random_learner_name d ≡ some name
    → is_learner_name name ≡ true
unfolding random_learner_name
random_learner_name-is_learner_name d name h0 h1 e =
    elim (Option-cases (pick adjectives d.adjective)) [
      | inl p ↦ absurd (ground arith)
      | inr (a, p) ↦ elim (Option-cases (pick animals d.animal)) [
        | inl q ↦ absurd (ground arith)
        | inr (b, q) ↦ ground (
          arith,
          pick-all is_word adjectives d.adjective a adjectives-words p,
          pick-all is_word animals d.animal b animals-words q,
          hex_digit-is_hex (d.byte_0 / 16) (omega arith),
          hex_digit-is_hex (d.byte_0 % 16) (omega arith),
          hex_digit-is_hex (d.byte_1 / 16) (omega arith),
          assembled a b (hex_digit (d.byte_0 / 16)) (hex_digit (d.byte_0 % 16))
              (hex_digit (d.byte_1 / 16)),
        )
      ]
    ]

at_index-inside : (ws : List Bytes) (i : ℕ) → i < length ws → (w : Bytes) × (at_index ws i ≡ some w)
unfolding at_index
at_index-inside [] i h = absurd (omega arith)
at_index-inside (w ∷ ws) zero h = (w, refl)
at_index-inside (w ∷ ws) (suc i) h = at_index-inside ws i (omega arith)

-- What rand.Int and rand.Read give: a number below 32, the length of both lists, or a failure; and
-- bytes.
unfoldable pub is_index : Option ℕ → Bool
is_index none = true
is_index (some i) = ltb i 32

unfoldable pub is_draw : Draws → Bool
is_draw d = is_index d.adjective && is_index d.animal && ltb d.byte_0 256 && ltb d.byte_1 256

pick-is_index :
    (ws : List Bytes) (draw : Option ℕ)
    → length ws ≡ 32
    → is_index draw ≡ true
    → (w : Bytes) × (pick ws draw ≡ some w)
unfolding pick is_index
pick-is_index ws none e h = at_index-inside ws 0 (omega arith)
pick-is_index ws (some i) e h = at_index-inside ws i (ground arith)

adjectives-length : length adjectives ≡ 32
unfolding adjectives
adjectives-length = refl

animals-length : length animals ≡ 32
unfolding animals
animals-length = refl

-- A name is drawn, and accepted.
random_learner_name-is_draw :
    (d : Draws)
    → is_draw d ≡ true
    → (fresh : Bytes) × (random_learner_name d ≡ some fresh) × (is_learner_name fresh ≡ true)
unfolding random_learner_name is_draw
random_learner_name-is_draw d h =
    let (a, p) = pick-is_index adjectives d.adjective adjectives-length (ground arith) in
    let (b, q) = pick-is_index animals d.animal animals-length (ground arith) in
    let name : Bytes =
      a
      ++ b'-'
        ∷ (b
            ++ b'-'
              ∷ hex_digit (d.byte_0 / 16)
              ∷ hex_digit (d.byte_0 % 16)
              ∷ hex_digit (d.byte_1 / 16)
              ∷ []) in
    let drawn : random_learner_name d ≡ some name = ground (arith, p, q) in
    (name, drawn, random_learner_name-is_learner_name d name (ground arith) (ground arith) drawn)

not-is_learner_name-empty : is_learner_name [] ≡ false
unfolding is_learner_name word_dash
not-is_learner_name-empty = refl

name-not_empty : (s : Bytes) → is_learner_name s ≡ true → is_empty s ≡ false
unfolding is_empty
name-not_empty [] h = cc (h, not-is_learner_name-empty)
name-not_empty (c ∷ s) h = refl

middleware_named :
    (fresh later : Bytes) (cookie : Option Bytes)
    → is_learner_name fresh ≡ true
    → let first = anonymous_middleware fresh cookie in
      (is_learner_name first.name ≡ true)
      × (anonymous_middleware later (some first.name)
          ≡ record { name = first.name; new_cookie = none })
      × ((first.new_cookie ≡ some first.name) ⊎ (cookie ≡ some first.name))
unfolding anonymous_middleware
middleware_named fresh later none h =
    let empty : is_empty [] ≡ true = unfold is_empty in refl in
    ground (arith, name-not_empty fresh h, empty)
middleware_named fresh later (some v) h =
    let empty : is_empty [] ≡ true = unfold is_empty in refl in
    ground (arith, name-not_empty fresh h, name-not_empty v, empty)

-- For all that can be drawn (indices below 32 or failures, and two bytes) a learner's name is drawn;
-- and whatever cookie a request carries, its context gets an accepted name, and a browser that keeps
-- the cookie it was set, or the accepted one it had, has the same name on its next request, with no
-- new cookie, whatever is drawn for that.
pub anonymous_middleware_lem :
    (d : Draws) (later : Bytes) (cookie : Option Bytes)
    → is_draw d ≡ true
    → (fresh : Bytes) × (random_learner_name d ≡ some fresh)
      × (is_learner_name (anonymous_middleware fresh cookie).name ≡ true)
      × (anonymous_middleware later (some (anonymous_middleware fresh cookie).name)
          ≡ record { name = (anonymous_middleware fresh cookie).name; new_cookie = none })
      × (((anonymous_middleware fresh cookie).new_cookie
            ≡ some (anonymous_middleware fresh cookie).name)
          ⊎ (cookie ≡ some (anonymous_middleware fresh cookie).name))
anonymous_middleware_lem d later cookie h =
    let (fresh, drawn, accepted) = random_learner_name-is_draw d h in
    let (named, stable, kept) = middleware_named fresh later cookie accepted in
    (fresh, drawn, named, stable, kept)
