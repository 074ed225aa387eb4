-- ===== src/Content/Render/Checks.antt =====
-- The content checks of a rendered lesson's challenges.
use training_platform.Shared.{
  Bytes, codes, ◌≡◌, refl, sym, ap, subst, ◌∙◌, Bool, true, false, not, ◌&&◌, Option, none, some,
  List, [], ◌∷◌, ◌++◌, map, str_eq, str_eq_refl, any, all, All, any-append, arith, cut_prefix,
  Bool-cases, Option-cases, inl, inr, ◌⊎◌,
}
use mathlib.Core.List.{append_assoc, append-nil}
use training_platform.Shared.Int.{ℤ}
use training_platform.Shared.Atoi.{atoi}
use training_platform.Scoring.Challenge.{Challenge}
use training_platform.Scoring.Hash.{Sha256}
use training_platform.Content.Inline.{has_prefix}
use training_platform.Content.Html.{
  DemoRouting, default_demo_routing, auto_demo_anchor, demo_button,
}
use training_platform.Content.DemoLinks.{
  find_all, match_anchor, tag_attr, replace_first, routing_of, pair_tags, pair_demo_links,
}
use training_platform.Content.FrontMatter.{FrontMatter, split_front_matter}
use training_platform.Content.Found.{
  match_block, Found, nothing_found, replace_blocks, fill_placeholders,
}
use training_platform.Content.Render.{
  asks_check, spec_of, set_verify, next_routing, attach, Lesson, add_quiz, finish, render,
}
use training_platform.Content.Render.ExerciseBlocks.{
  blocks_in, block_hash, find_blocks-blocks_in, finish-exercise_hashes,
}
use training_platform.Content.Render.Parts.{Came, find_blocks-Came, render-Rendered}

-- A routing's path is rooted.
abbrev pub is_rooted : DemoRouting → Bool
is_rooted r = has_prefix r.path (codes "/")

default_path : has_prefix (codes "/result.html") (codes "/") ≡ true
unfolding has_prefix cut_prefix
default_path = refl

routing_of-is_rooted : (tag : Bytes) → is_rooted (routing_of tag) ≡ true
unfolding routing_of default_demo_routing
routing_of-is_rooted tag =
    elim (Bool-cases (has_prefix (tag_attr tag (codes "href")) (codes "/"))) [
      | inl e ↦ rw (e, routing_of) e
      | inr e ↦ rw (e, routing_of) default_path
    ]

map_default : (hs : List Bytes) → all is_rooted (map (λ j. default_demo_routing) hs) ≡ true
unfolding all default_demo_routing
map_default [] = refl
map_default (h ∷ hs) = ground (arith, default_path, map_default hs)

pair_tags-is_rooted :
    (tags hs : List Bytes) (html : Bytes) → all is_rooted (pair_tags tags hs html).1 ≡ true
unfolding pair_tags all
pair_tags-is_rooted tags [] html = refl
pair_tags-is_rooted [] (h ∷ hs) html = map_default (h ∷ hs)
pair_tags-is_rooted (tag ∷ tags) (h ∷ hs) html = ground (
  arith,
  pair_tags-is_rooted tags (h ∷ hs) html,
  pair_tags-is_rooted tags hs
      (replace_first (auto_demo_anchor h) (demo_button h (routing_of tag)) html),
  routing_of-is_rooted tag,
)

-- What the check of a challenge is, given the hashes of the exercises: there is one exactly if the
-- front matter asks for it and the hash is among them; it asserts what the front matter says, on a
-- page whose path is rooted.
unfoldable pub fits : FrontMatter → List Bytes → Challenge → Bool
fits fm hashes c = elim c.verify [
  | none ↦ not (asks_check fm && any (str_eq c.hash) hashes)
  | some spec ↦
      asks_check fm
      && any (str_eq c.hash) hashes
      && str_eq spec.expect fm.expect
      && str_eq spec.expect_regex fm.expect_regex
      && has_prefix spec.path (codes "/")
]

-- One exercise more.
set_verify-fits :
    (fm : FrontMatter) (seen : List Bytes) (h : Bytes) (r : DemoRouting) (port : ℤ)
    (cs : List Challenge)
    → asks_check fm ≡ true
    → is_rooted r ≡ true
    → all (fits fm seen) cs ≡ true
    → all (fits fm (seen ++ h ∷ [])) (set_verify h (spec_of fm r port) cs) ≡ true
unfolding set_verify spec_of fits all any
set_verify-fits fm seen h r port [] asked rooted fit = refl
set_verify-fits fm seen h r port (c ∷ cs) asked rooted fit = ground (
  arith,
  set_verify-fits fm seen h r port cs asked rooted,
  any-append (str_eq c.hash) seen (h ∷ []),
  str_eq_refl fm.expect,
  str_eq_refl fm.expect_regex,
)

next_routing-is_rooted :
    (rs : List DemoRouting)
    → all is_rooted rs ≡ true
    → (is_rooted (next_routing rs).0 ≡ true) × (all is_rooted (next_routing rs).1 ≡ true)
unfolding next_routing all default_demo_routing
next_routing-is_rooted [] h = (default_path, refl)
next_routing-is_rooted (r ∷ rs) h = ground arith

attach-fits :
    (fm : FrontMatter) (seen hs : List Bytes) (rs : List DemoRouting) (cs : List Challenge)
    (html : Bytes) (ds : List Challenge) (page : Bytes)
    → asks_check fm ≡ true
    → all is_rooted rs ≡ true
    → all (fits fm seen) cs ≡ true
    → attach fm hs rs cs html ≡ some (ds, page)
    → all (fits fm (seen ++ hs)) ds ≡ true
unfolding attach
attach-fits fm seen [] rs cs html ds page asked rooted fit e =
    subst (λ hs. all (fits fm hs) ds ≡ true) (sym (append-nil seen)) (ground (arith, e))
attach-fits fm seen (h ∷ hs) rs cs html ds page asked rooted fit e =
    let (r, later) = next_routing rs in
    let (first, others) = next_routing-is_rooted rs rooted in
    elim (Option-cases (atoi r.port)) [
      | inl k ↦ ground (arith, e, k)
      | inr (port, k) ↦
          subst (λ l. all (fits fm l) ds ≡ true) (append_assoc seen (h ∷ []) hs)
            (attach-fits fm (seen ++ h ∷ []) hs later (set_verify h (spec_of fm r port) cs) _ ds
              page asked others (set_verify-fits fm seen h r port cs asked first fit)
              (rw (k, attach) at e))
    ]

Came-fits :
    (sha : Sha256) (slug : Bytes) (fm : FrontMatter) (hashes : List Bytes) (cs : List Challenge)
    → (asks_check fm ≡ false) ⊎ (hashes ≡ [])
    → All (Came sha slug) cs
    → all (fits fm hashes) cs ≡ true
unfolding all fits any
Came-fits sha slug fm hashes [] h k = refl
Came-fits sha slug fm hashes (c ∷ cs) h ((unchecked, _), k) =
    ground (arith, unchecked, Came-fits sha slug fm hashes cs h k)

module _ (sha : Sha256) (to_lower : Bytes → Bytes)
    (resolver : Option (Bytes → ℤ → Option Bytes)) where
  finish-fits :
      (fm : FrontMatter) (slug markdown : Bytes) (found : Found) (lesson : Lesson)
      → All (Came sha slug) found.challenges
      → finish sha to_lower resolver fm found markdown ≡ some lesson
      → (lesson.front_matter ≡ fm) × (all (fits fm lesson.exercise_hashes) lesson.challenges ≡ true)
  unfolding finish pair_demo_links
  finish-fits fm slug markdown found lesson h e =
      let html = fill_placeholders 0 found.placeholders markdown in
      let (page, routings) = pair_demo_links html found.exercise_hashes in
      elim (Bool-cases (asks_check fm)) [
        | inl k ↦
            elim (Option-cases (attach fm found.exercise_hashes routings found.challenges page)) [
              | inl j ↦ ground (arith, e, k, j)
              | inr ((cs, done), j) ↦ ground (
                arith,
                e,
                k,
                j,
                attach-fits fm [] found.exercise_hashes routings found.challenges page cs done k
                    (pair_tags-is_rooted (find_all match_anchor 0 html) found.exercise_hashes html)
                    (Came-fits sha slug fm [] found.challenges (inr refl) h) j,
              )
            ]
        | inr k ↦
            ground
              (arith, e, k, Came-fits sha slug fm found.exercise_hashes found.challenges (inl k) h)
      ]

  -- Of the challenges of a lesson that renders, exactly those with the hash of an exercise block in its
  -- text, once the quizzes are replaced in that, have a check of the page's content if the front
  -- matter asks for one, and none has one otherwise: a check asserts what the front matter says, on a
  -- page whose path begins with a slash.
  pub render-fits :
      (yaml : Bytes → Option FrontMatter) (slug src salt : Bytes) (lesson : Lesson)
      → render sha to_lower resolver yaml slug src salt ≡ some lesson
      → (body : Bytes) × (quizzes : Found) × (quizless : Bytes) × (split_front_matter yaml src
          ≡ some (lesson.front_matter, body))
        × (replace_blocks
              (match_block (codes "quiz") (codes "endquiz"))
              (add_quiz sha to_lower resolver slug salt)
              0
              body
              nothing_found
            ≡ some (quizzes, quizless))
        × (all
              (fits lesson.front_matter (
                map
                  (block_hash sha slug)
                  (blocks_in (match_block (codes "exercise") (codes "endexercise")) 0 quizless)))
              lesson.challenges
            ≡ true)
  render-fits yaml slug src salt lesson e =
      let r = render-Rendered sha to_lower resolver yaml slug src salt lesson e in
      let (same, fit) =
        finish-fits r.front slug r.markdown r.found lesson
          (find_blocks-Came sha to_lower resolver r.front slug salt r.body r.text r.found
            r.is_found)
          r.is_finished in
      let (quizzes, quizless, replaced, noted) =
        find_blocks-blocks_in sha to_lower resolver r.front slug salt r.body r.text r.found
          r.is_found in
      let kept =
        finish-exercise_hashes sha to_lower resolver r.front r.markdown r.found lesson
          r.is_finished in
      (
        r.body,
        quizzes,
        quizless,
        r.is_split ∙ ap (λ f. some (f, r.body)) (sym same),
        replaced,
        subst (λ hs. all (fits lesson.front_matter hs) lesson.challenges ≡ true) (kept ∙ noted)
            (rw same fit),
      )
