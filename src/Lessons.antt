-- ===== src/Lessons.antt =====
-- internal/lessons/lessons.go: the handler of the lesson site. A path below the site's directory is the
-- list of its names, and `kind` is os.Stat of it: is it a directory?
use training_platform.Shared.{
  Bytes, codes, is_empty, str_eq, ℕ, ◌≡◌, refl, Bool, true, false, not, ◌&&◌, ◌||◌, Option, none,
  some, List, [], ◌∷◌, ◌++◌, all, all-append, arith, ◌==◌, if◌then◌else◌, Bool-cases, inl, inr,
}

-- The names between the slashes of a path.
unfoldable pub extend_name : ℕ → List Bytes → List Bytes
extend_name c [] = (c ∷ []) ∷ []
extend_name c (s ∷ ss) = (c ∷ s) ∷ ss

unfoldable pub path_names : Bytes → List Bytes
path_names [] = [] ∷ []
path_names (c ∷ s) = let rest = path_names s in if c == b'/' then [] ∷ rest else extend_name c rest

unfoldable pub drop_last : List Bytes → List Bytes
drop_last [] = []
drop_last (s ∷ []) = []
drop_last (s ∷ t ∷ rest) = s ∷ drop_last (t ∷ rest)

-- One name of a path, behind those that are kept.
unfoldable pub clean_name : List Bytes → Bytes → List Bytes
clean_name kept s =
    if is_empty s || str_eq s (codes ".")
    then kept
    else if str_eq s (codes "..")
    then drop_last kept
    else kept ++ s ∷ []

-- The loop of filepath.Clean over the names of a rooted path.
unfoldable pub clean_onto : List Bytes → List Bytes → List Bytes
clean_onto kept [] = kept
clean_onto kept (s ∷ ss) = clean_onto (clean_name kept s) ss

-- filepath.Clean("/" + path)
unfoldable pub clean_names : Bytes → List Bytes
clean_names path = clean_onto [] (path_names path)

-- The answers: a text in place of the site, http.FileServer for the file at the request's path,
-- http.ServeFile for the index page, or http.FileServer for a path where there is no file.
pub data SiteAnswer : Type 0 where
  placeholder : Bytes → SiteAnswer
  site_file : List Bytes → SiteAnswer
  site_index file_server : SiteAnswer

-- Handler
unfoldable pub serve_lesson : Bytes → Bool → (List Bytes → Option Bool) → Bytes → SiteAnswer
serve_lesson dir is_dir kind path =
    if is_empty dir
    then placeholder (codes "no lesson directory configured (set lessons.dir)")
    else if not is_dir
    then placeholder (codes "lesson directory not found: " ++ dir)
    else elim (kind (clean_names path)) [
      | some false ↦ site_file (clean_names path)
      | some true ↦ elim (kind (codes "index.html" ∷ [])) [
        | none ↦ file_server
        | some _ ↦ site_index
      ]
      | none ↦ elim (kind (codes "index.html" ∷ [])) [ none ↦ file_server | some _ ↦ site_index ]
    ]

-- A name that leads one step down.
unfoldable pub is_name : Bytes → Bool
is_name s =
    not (is_empty s)
    && not (str_eq s (codes "."))
    && not (str_eq s (codes ".."))
    && all (λ c. not (c == b'/')) s

abbrev no_slash : Bytes → Bool
no_slash s = all (λ c. not (c == b'/')) s

extend_name-no_slash :
    (c : ℕ) (ss : List Bytes)
    → not (c == b'/') ≡ true
    → all no_slash ss ≡ true
    → all no_slash (extend_name c ss) ≡ true
unfolding extend_name all
extend_name-no_slash c [] h k = ground arith
extend_name-no_slash c (s ∷ ss) h k = ground arith

path_names-no_slash : (s : Bytes) → all no_slash (path_names s) ≡ true
unfolding path_names all
path_names-no_slash [] = refl
path_names-no_slash (c ∷ s) = elim (Bool-cases (c == b'/')) [
  | inl e ↦ rw (e, path_names) (ground (arith, path_names-no_slash s))
  | inr e ↦
      rw (e, path_names)
        (extend_name-no_slash c (path_names s) (ground (arith, e)) (path_names-no_slash s))
]

drop_last-is_name : (ss : List Bytes) → all is_name ss ≡ true → all is_name (drop_last ss) ≡ true
unfolding drop_last all
drop_last-is_name [] h = refl
drop_last-is_name (s ∷ []) h = refl
drop_last-is_name (s ∷ t ∷ ss) h = ground (arith, drop_last-is_name (t ∷ ss))

clean_name-is_name :
    (kept : List Bytes) (s : Bytes)
    → all is_name kept ≡ true
    → no_slash s ≡ true
    → all is_name (clean_name kept s) ≡ true
unfolding clean_name all is_name
clean_name-is_name kept s h k =
    ground (arith, drop_last-is_name kept h, all-append is_name kept (s ∷ []))

clean_onto-is_name :
    (kept ss : List Bytes)
    → all is_name kept ≡ true
    → all no_slash ss ≡ true
    → all is_name (clean_onto kept ss) ≡ true
unfolding clean_onto all
clean_onto-is_name kept [] h k = h
clean_onto-is_name kept (s ∷ ss) h k =
    clean_onto-is_name (clean_name kept s) ss (clean_name-is_name kept s h (ground (arith, k)))
      (ground (arith, k))

-- Whatever the path of a request is, a file that is answered lies below the directory of the site:
-- each step to it is a name, neither empty, nor a dot or two, nor with a slash in it; and it is a file
-- there, not a directory.
pub serve_lesson-is_name :
    (dir : Bytes) (is_dir : Bool) (kind : List Bytes → Option Bool) (path : Bytes)
    (names : List Bytes)
    → serve_lesson dir is_dir kind path ≡ site_file names
    → (all is_name names ≡ true) × (kind names ≡ some false)
unfolding serve_lesson clean_names
serve_lesson-is_name dir is_dir kind path names e = ground (
  arith,
  e,
  clean_onto-is_name [] (path_names path) (unfold all in refl) (path_names-no_slash path),
)
