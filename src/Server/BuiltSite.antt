-- ===== src/Server/BuiltSite.antt =====
-- internal/content and internal/scoring, as the server puts them together: the content checks in a store
-- that is loaded with the challenges of a build.
use training_platform.Shared.{
  Bytes, codes, str_eq→eq, subst, ◌≡◌, sym, ◌∙◌, Bool, true, ◌&&◌, Option, none, some, List, [],
  ◌∷◌, All, all, arith, Option-cases, inl, inr,
}
use training_platform.Shared.Int.{ℤ}
use training_platform.Shared.Table.{lookup}
use training_platform.Scoring.Challenge.{VerifySpec, Challenge, assertive}
use training_platform.Scoring.Hash.{Sha256}
use training_platform.Scoring.Store.{new_store, get, load_challenges}
use training_platform.Content.Inline.{has_prefix}
use training_platform.Content.FrontMatter.{FrontMatter}
use training_platform.Content.Render.{asks_check}
use training_platform.Content.Render.Checks.{fits, render-fits}
use training_platform.Content.Build.{Entry, empty_site, build_dir}
use training_platform.Content.Build.Loading.{
  last_with, or_stored, build_entries_keep, load_challenges-build_dir,
}
use training_platform.Server.PodFetch.{rooted}

-- A check that the server can carry out as it is.
abbrev HasGoodCheck : Challenge → Type 0
HasGoodCheck c =
    elim c.verify [ none ↦ true | some v ↦ assertive (some v) && has_prefix v.path (codes "/") ]
    ≡ true

fits-HasGoodCheck :
    (fm : FrontMatter) (hashes : List Bytes) (c : Challenge)
    → fits fm hashes c ≡ true
    → HasGoodCheck c
unfolding fits asks_check assertive
fits-HasGoodCheck fm hashes c h = elim (Option-cases c.verify) [
  | inl e ↦ ground (arith, e)
  | inr (v, e) ↦
      ground (arith, e, h, str_eq→eq v.expect fm.expect, str_eq→eq v.expect_regex fm.expect_regex)
]

all_fits :
    (fm : FrontMatter) (hashes : List Bytes) (cs : List Challenge)
    → all (fits fm hashes) cs ≡ true
    → All HasGoodCheck cs
unfolding all
all_fits fm hashes [] h = tt
all_fits fm hashes (c ∷ cs) h =
    (fits-HasGoodCheck fm hashes c (ground (arith, h)), all_fits fm hashes cs (ground (arith, h)))

last_with_keep :
    (h : Bytes) (cs : List Challenge) (c : Challenge)
    → All HasGoodCheck cs
    → last_with h cs ≡ some c
    → HasGoodCheck c
unfolding last_with
last_with_keep h [] c good e = cc
last_with_keep h (d ∷ cs) c (first, good) e = elim (Option-cases (last_with h cs)) [
  | inr (b, k) ↦ last_with_keep h cs c good (ground (arith, e, k))
  | inl k ↦ (let same : d ≡ c = ground (arith, e, k) in subst HasGoodCheck same first)
]

rooted-has_prefix : (path : Bytes) → has_prefix path (codes "/") ≡ true → rooted path ≡ path
unfolding rooted has_prefix
rooted-has_prefix path h = ground arith

build_dir_checks :
    (sha : Sha256) (to_lower : Bytes → Bytes) (resolver : Option (Bytes → ℤ → Option Bytes))
    (yaml : Bytes → Option FrontMatter) (writes : Bytes → Bool) (salt : Bytes) (assets : Bool)
    (entries : List Entry)
    → All HasGoodCheck
        (build_dir sha to_lower resolver yaml writes salt assets entries).0.challenges
unfolding build_dir empty_site
build_dir_checks sha to_lower resolver yaml writes salt assets entries =
    build_entries_keep sha to_lower resolver yaml salt writes HasGoodCheck
      (λ slug src lesson e.
        let fit = (render-fits sha to_lower resolver yaml slug src salt lesson e).5 in
        all_fits lesson.front_matter _ lesson.challenges fit)
      entries empty_site tt

-- What a store that was new gives comes from the build.
or_stored-none :
    (listed : Option Challenge) (c : Challenge) → or_stored listed none ≡ some c → listed ≡ some c
unfolding or_stored
or_stored-none none c e = e
or_stored-none (some d) c e = e

-- In a store that has been loaded with the challenges of a build, whatever the lessons are, every
-- content check of a challenge asserts something, and its path is the one that the server fetches.
pub load_challenges-assertive :
    (sha : Sha256) (to_lower : Bytes → Bytes) (resolver : Option (Bytes → ℤ → Option Bytes))
    (yaml : Bytes → Option FrontMatter) (writes : Bytes → Bool) (salt : Bytes) (assets : Bool)
    (entries : List Entry) (grader : Option (Bytes → Bytes → Bool)) (h : Bytes) (c : Challenge)
    (v : VerifySpec)
    → get
        (load_challenges
          (build_dir sha to_lower resolver yaml writes salt assets entries).0.challenges
          (new_store grader)).0
        h
      ≡ some c
    → c.verify ≡ some v
    → (assertive c.verify ≡ true) × (rooted v.path ≡ v.path)
unfolding get new_store lookup
load_challenges-assertive sha to_lower resolver yaml writes salt assets entries grader h c v got
      checked =
    let site = (build_dir sha to_lower resolver yaml writes salt assets entries).0 in
    let (_, stored) =
      load_challenges-build_dir sha to_lower resolver yaml salt writes assets entries
        (new_store grader) h in
    let listed : last_with h site.challenges ≡ some c =
      or_stored-none (last_with h site.challenges) c (sym stored ∙ got) in
    let good = build_dir_checks sha to_lower resolver yaml writes salt assets entries in
    let fine = last_with_keep h site.challenges c good listed in
    (ground (arith, checked, fine), rooted-has_prefix v.path (ground (arith, checked, fine)))
