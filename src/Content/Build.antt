-- ===== src/Content/Build.antt =====
-- internal/content/build.go: the build of a directory of lessons. A page is kept before layout, and the
-- index as its entries.
pub mod Loading
use training_platform.Shared.{
  Bytes, codes, is_empty, ℕ, suc, ◌-◌, Bool, true, false, not, ◌&&◌, ◌||◌, Option, none, some, List,
  [], ◌∷◌, ◌++◌, take, drop, length, leb, str_eq, if◌then◌else◌,
}
use training_platform.Shared.Suffixes.{has_suffix, trim_suffix}
use training_platform.Shared.Int.{ℤ}
use training_platform.Scoring.Challenge.{Challenge}
use training_platform.Scoring.Hash.{Sha256}
use training_platform.Content.FrontMatter.{FrontMatter}
use training_platform.Content.Render.{Lesson, render}

-- An entry of the directory: `content` is what os.ReadFile returns for it, none for an error.
pub record Entry : Type 0 where
  pub name : Bytes
  pub is_dir : Bool
  pub content : Option Bytes

-- type indexEntry struct
pub record IndexEntry : Type 0 where
  pub slug : Bytes
  pub title : Bytes
  pub challenges : ℕ

-- What a build has made so far: the files are those that were written, in order.
pub record Site : Type 0 where
  pub count : ℕ
  pub challenges : List Challenge
  pub index : List IndexEntry
  pub files : List (Bytes × Bytes)

unfoldable pub empty_site : Site
empty_site = record { count = 0; challenges = []; index = []; files = [] }

unfoldable pub is_lesson_file : Bytes → Bool
is_lesson_file name = has_suffix name (codes ".md") || has_suffix name (codes ".markdown")

unfoldable pub slug_of : Bytes → Bytes
slug_of name = trim_suffix (trim_suffix name (codes ".markdown")) (codes ".md")

-- A file that is no lesson is copied, if it can be read and written.
unfoldable pub copy_asset : (Bytes → Bool) → Entry → Site → Site
copy_asset writes e site = elim e.content [
  | none ↦ site
  | some b ↦ if writes e.name then record site { files = site.files ++ (e.name, b) ∷ [] } else site
]

-- A lesson whose page has been written.
unfoldable pub add_lesson : Bytes → Lesson → Site → Site
add_lesson slug lesson site =
    let title = lesson.front_matter.title in
    record {
      count = suc site.count;
      challenges = site.challenges ++ lesson.challenges;
      index =
          site.index
          ++ record {
            slug = slug;
            title = if is_empty title then slug else title;
            challenges = length lesson.challenges;
          }
            ∷ [];
      files = site.files ++ (slug ++ codes ".html", lesson.page) ∷ [];
    }

-- `writes` says which files can be written.
module _ (sha : Sha256) (to_lower : Bytes → Bytes) (resolver : Option (Bytes → ℤ → Option Bytes))
    (yaml : Bytes → Option FrontMatter) (writes : Bytes → Bool) (salt : Bytes) where
  -- One entry: `none` is an error, which ends the build.
  unfoldable pub build_entry : Entry → Site → Option Site
  build_entry e site =
      let slug = slug_of e.name in
      if e.is_dir
      then some site
      else if not (is_lesson_file e.name)
      then some (copy_asset writes e site)
      else elim e.content [
        | none ↦ none
        | some src ↦ elim (render sha to_lower resolver yaml slug src salt) [
          | none ↦ none
          | some lesson ↦
              if writes (slug ++ codes ".html") then some (add_lesson slug lesson site) else none
        ]
      ]

  -- The loop over the entries: what was built, and whether there was no error.
  unfoldable pub build_entries : List Entry → Site → Site × Bool
  build_entries [] site = (site, true)
  build_entries (e ∷ es) site = elim (build_entry e site) [
    | none ↦ (site, false)
    | some next ↦ build_entries es next
  ]

  -- BuildDirWithResolver, behind os.ReadDir and os.MkdirAll. `assets` says whether WriteAssets has no
  -- error.
  unfoldable pub build_dir : Bool → List Entry → Site × Bool
  build_dir assets entries =
      let (site, ok) = build_entries entries empty_site in
      (site, ok && writes (codes "index.html") && assets && writes (codes "challenges.json"))
