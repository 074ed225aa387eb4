-- ===== src/Tests/Lessons.antt =====
-- The lesson site at a concrete directory.
use training_platform.Shared.{
  Bytes, codes, is_empty, str_eq, ◌≡◌, refl, Bool, true, false, Option, none, some, List, [], ◌∷◌,
  all, if◌then◌else◌,
}
use training_platform.Lessons.{
  extend_name, path_names, drop_last, clean_name, clean_onto, clean_names, site_file, serve_lesson,
  is_name, serve_lesson-is_name,
}

-- A site with an index page and a picture in a directory.
abbrev site_kind : List Bytes → Option Bool
site_kind [] = some true
site_kind (s ∷ []) =
    if str_eq s (codes "index.html")
    then some false
    else if str_eq s (codes "img")
    then some true
    else none
site_kind (s ∷ t ∷ ss) = if str_eq t (codes "a.png") then some false else none

picture_served :
    serve_lesson (codes "out") true site_kind (codes "/../x/../img/./a.png")
    ≡ site_file (codes "img" ∷ codes "a.png" ∷ [])
unfolding serve_lesson clean_names clean_onto clean_name path_names extend_name drop_last is_empty
    str_eq
picture_served = refl

serve_lesson-is_name_example :
    (all is_name (codes "img" ∷ codes "a.png" ∷ []) ≡ true)
    × (site_kind (codes "img" ∷ codes "a.png" ∷ []) ≡ some false)
serve_lesson-is_name_example =
    serve_lesson-is_name (codes "out") true site_kind (codes "/../x/../img/./a.png")
      (codes "img" ∷ codes "a.png" ∷ []) picture_served
