-- ===== src/Content/Build/Loading.antt =====
-- From the lessons to the store: what a build lists is loaded.
use training_platform.Shared.{
  Bytes, is_empty, ◌≡◌, refl, subst, Bool, true, false, not, ◌||◌, Option, none, some, List, [],
  ◌∷◌, ◌++◌, str_eq, length, All, All-append, arith, if◌then◌else◌, Bool-cases, Option-cases, inl,
  inr,
}
use training_platform.Shared.Int.{ℤ}
use training_platform.Shared.Table.{insert, lookup-insert}
use training_platform.Shared.Atoi.{atoi}
use training_platform.Shared.Hex.{hex_encode}
use training_platform.Scoring.Challenge.{VerifySpec, Challenge}
use training_platform.Scoring.Hash.{Sha256, challenge_hash}
use training_platform.Scoring.Store.{Store, upsert, get, load_challenges}
use training_platform.Content.Html.{DemoRouting}
use training_platform.Content.DemoLinks.{pair_demo_links}
use training_platform.Content.FrontMatter.{FrontMatter}
use training_platform.Content.Found.{Found, fill_placeholders}
use training_platform.Content.Render.{
  asks_check, spec_of, set_verify, next_routing, attach, Lesson, finish, render,
}
use training_platform.Content.Render.Parts.{Came, find_blocks-Came, render-Rendered}
use training_platform.Content.Build.{
  Entry, Site, empty_site, is_lesson_file, slug_of, copy_asset, add_lesson, build_entry,
  build_entries, build_dir,
}

-- The last challenge of a list with a hash.
unfoldable pub last_with : Bytes → List Challenge → Option Challenge
last_with h [] = none
last_with h (c ∷ cs) = elim (last_with h cs) [
  | some d ↦ some d
  | none ↦ if str_eq c.hash h then some c else none
]

unfoldable pub or_stored : Option Challenge → Option Challenge → Option Challenge
or_stored none later = later
or_stored (some c) later = some c

hex_encode-is_empty : (s : Bytes) → length s ≡ 32 → is_empty (hex_encode s) ≡ false
unfolding hex_encode is_empty
hex_encode-is_empty [] h = ground arith
hex_encode-is_empty (c ∷ s) h = refl

abbrev HasHash : Challenge → Type 0
HasHash c = is_empty c.hash ≡ false

upsert-HasHash :
    (c : Challenge) (s : Store)
    → HasHash c
    → upsert c s ≡ some (record s { by_hash = insert c.hash c s.by_hash })
unfolding upsert
upsert-HasHash c s h = ground arith

get-insert :
    (c : Challenge) (s : Store) (h : Bytes)
    → get (record s { by_hash = insert c.hash c s.by_hash }) h
      ≡ (if str_eq c.hash h then some c else get s h)
unfolding get
get-insert c s h = lookup-insert c.hash h c s.by_hash

load_challenges-last_with :
    (cs : List Challenge) (s : Store) (h : Bytes)
    → All HasHash cs
    → let (s', ok) = load_challenges cs s in
      (ok ≡ true) × (get s' h ≡ or_stored (last_with h cs) (get s h))
unfolding load_challenges last_with or_stored
load_challenges-last_with [] s h good = (refl, refl)
load_challenges-last_with (c ∷ cs) s h (first, good) =
    let s' = record s { by_hash = insert c.hash c s.by_hash } in
    let (loaded, found) = load_challenges-last_with cs s' h good in
    let stored = upsert-HasHash c s first in ground (arith, stored, loaded, found, get-insert c s h)

set_verify-HasHash :
    (h : Bytes) (spec : VerifySpec) (cs : List Challenge)
    → All HasHash cs
    → All HasHash (set_verify h spec cs)
unfolding set_verify
set_verify-HasHash h spec [] good = tt
set_verify-HasHash h spec (c ∷ cs) (first, good) = (ground arith, set_verify-HasHash h spec cs good)

attach-HasHash :
    (fm : FrontMatter) (hs : List Bytes) (rs : List DemoRouting) (cs ds : List Challenge)
    (html page : Bytes)
    → All HasHash cs
    → attach fm hs rs cs html ≡ some (ds, page)
    → All HasHash ds
unfolding attach
attach-HasHash fm [] rs cs ds html page good e = subst (All HasHash) (ground (arith, e)) good
attach-HasHash fm (h ∷ hs) rs cs ds html page good e =
    let (r, later) = next_routing rs in
    elim (Option-cases (atoi r.port)) [
      | inl k ↦ absurd (ground (arith, e, k))
      | inr (port, k) ↦
          attach-HasHash fm hs later (set_verify h (spec_of fm r port) cs) ds _ page
            (set_verify-HasHash h (spec_of fm r port) cs good) (rw (k, attach) at e)
    ]

module _ (sha : Sha256) where
  challenge_hash-is_empty : (text slug : Bytes) → is_empty (challenge_hash sha text slug) ≡ false
  unfolding challenge_hash
  challenge_hash-is_empty text slug =
      hex_encode-is_empty (sha.sum (text ++ slug)) (sha.sum_length (text ++ slug))

  Came-HasHash : (slug : Bytes) (cs : List Challenge) → All (Came sha slug) cs → All HasHash cs
  Came-HasHash slug [] h = tt
  Came-HasHash slug (c ∷ cs) ((_, (text, e)), h) =
      (rw e (challenge_hash-is_empty text slug), Came-HasHash slug cs h)

  module _ (to_lower : Bytes → Bytes) (resolver : Option (Bytes → ℤ → Option Bytes))
      (yaml : Bytes → Option FrontMatter) (salt : Bytes) where
    finish-HasHash :
        (fm : FrontMatter) (markdown : Bytes) (found : Found) (lesson : Lesson)
        → All HasHash found.challenges
        → finish sha to_lower resolver fm found markdown ≡ some lesson
        → All HasHash lesson.challenges
    unfolding finish
    finish-HasHash fm markdown found lesson h e =
        let (page, routings) =
          pair_demo_links (fill_placeholders 0 found.placeholders markdown) found.exercise_hashes in
        elim (Bool-cases (asks_check fm)) [
          | inl k ↦
              elim (Option-cases (attach fm found.exercise_hashes routings found.challenges page)) [
                | inl j ↦ absurd (ground (arith, e, k, j))
                | inr ((cs, done), j) ↦ subst (All HasHash) (ground (arith, e, k, j)) (
                    attach-HasHash fm found.exercise_hashes routings found.challenges cs page done h
                      j)
              ]
          | inr k ↦ subst (All HasHash) (ground (arith, e, k)) h
        ]

    render-HasHash :
        (slug src : Bytes) (lesson : Lesson)
        → render sha to_lower resolver yaml slug src salt ≡ some lesson
        → All HasHash lesson.challenges
    render-HasHash slug src lesson e =
        let r = render-Rendered sha to_lower resolver yaml slug src salt lesson e in
        finish-HasHash r.front r.markdown r.found lesson
          (Came-HasHash slug r.found.challenges (
            find_blocks-Came sha to_lower resolver r.front slug salt r.body r.text r.found
              r.is_found))
          r.is_finished

    -- What holds of the challenges of every lesson holds of those of the site.
    module _ (writes : Bytes → Bool) where
      module _ (P : Challenge → Type 0)
          (good : (slug src : Bytes) (lesson : Lesson)
            → render sha to_lower resolver yaml slug src salt ≡ some lesson
            → All P lesson.challenges) where
        build_entry_keep :
            (e : Entry) (site next : Site)
            → All P site.challenges
            → build_entry sha to_lower resolver yaml writes salt e site ≡ some next
            → All P next.challenges
        unfolding build_entry copy_asset add_lesson
        build_entry_keep e site next h k =
            elim (Bool-cases (e.is_dir || not (is_lesson_file e.name))) [
              | inl other ↦ subst (All P) (ground (arith, k)) h
              | inr lessons ↦ elim (Option-cases e.content) [
                | inl none_read ↦ absurd (ground (arith, k, none_read))
                | inr (src, read) ↦
                    elim (Option-cases
                      (render sha to_lower resolver yaml (slug_of e.name) src salt)) [
                        | inl fails ↦ absurd (ground (arith, k, read, fails))
                        | inr (lesson, renders) ↦ subst (All P) (ground (arith, k, read, renders)) (
                            All-append P site.challenges lesson.challenges h
                              (good (slug_of e.name) src lesson renders))
                      ]
              ]
            ]

        pub build_entries_keep :
            (es : List Entry) (site : Site)
            → All P site.challenges
            → All P (build_entries sha to_lower resolver yaml writes salt es site).0.challenges
        unfolding build_entries
        build_entries_keep [] site h = h
        build_entries_keep (e ∷ es) site h =
            elim (Option-cases (build_entry sha to_lower resolver yaml writes salt e site)) [
              | inl k ↦ rw (k, build_entries) h
              | inr (next, k) ↦
                  rw (k, build_entries)
                    (build_entries_keep es next (build_entry_keep e site next h k))
            ]

      -- Loading what a build lists has no error, whatever the lessons are and wherever the build
      -- stopped: afterwards the store has for each hash the last challenge that the build lists with
      -- it, and for the others what it had before.
      pub load_challenges-build_dir :
          (assets : Bool) (entries : List Entry) (s : Store) (h : Bytes)
          → let (site, built) = build_dir sha to_lower resolver yaml writes salt assets entries in
            let (s', ok) = load_challenges site.challenges s in
            (ok ≡ true) × (get s' h ≡ or_stored (last_with h site.challenges) (get s h))
      unfolding build_dir empty_site
      load_challenges-build_dir assets entries s h =
          let (site, ok) =
            build_entries sha to_lower resolver yaml writes salt entries empty_site in
          load_challenges-last_with site.challenges s h
            (build_entries_keep HasHash render-HasHash entries empty_site tt)
