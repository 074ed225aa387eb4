-- ===== src/Content/DemoLinks.antt =====
-- internal/content/content.go: the links that an author marks as the demo of an exercise, and the
-- routing that an exercise's button takes from its link.
use training_platform.Shared.{
  Bytes, codes, is_empty, ℕ, zero, suc, ◌+◌, Bool, false, not, ◌&&◌, ◌||◌, Option, none, some, List,
  [], ◌∷◌, ◌++◌, map, length, leb, str_eq, ◌==◌, if◌then◌else◌, cut_prefix,
}
use training_platform.Shared.Runs.{run_while}
use training_platform.Scoring.Challenge.{str_contains}
use training_platform.Content.Inline.{Matcher, is_letter, has_prefix}
use training_platform.Content.Html.{
  DemoRouting, default_demo_routing, demo_button, auto_demo_anchor,
}

-- strings.Replace(s, old, new, 1), where old is not empty.
unfoldable pub replace_first : Bytes → Bytes → Bytes → Bytes
replace_first old new [] = []
replace_first old new (c ∷ s) = elim (cut_prefix (c ∷ s) old) [
  | none ↦ c ∷ replace_first old new s
  | some rest ↦ new ++ rest
]

-- FindAllString, for an expression that matches no empty text.
unfoldable pub find_all : Matcher → ℕ → Bytes → List Bytes
find_all match skip [] = []
find_all match (suc skip) (c ∷ s) = find_all match skip s
find_all match zero (c ∷ s) = elim (match (c ∷ s)) [
  | none ↦ find_all match zero s
  | some (text, skip) ↦ text ∷ find_all match skip s
]

-- The word characters of \b.
unfoldable pub is_word_byte : ℕ → Bool
unfolding is_letter
is_word_byte c = is_letter c || (leb b'0' c && leb c b'9') || (c == b'_')

unfoldable pub starts_word : Bytes → Bool
starts_word [] = false
starts_word (c ∷ s) = is_word_byte c

-- anchorTagRe: the tag.
unfoldable pub match_anchor : Matcher
match_anchor s = elim (cut_prefix s (codes "<a")) [
  | none ↦ none
  | some inner ↦
      let (body, rest) = run_while (λ c. not (c == b'>')) inner in
      if starts_word inner || is_empty rest
      then none
      else some (codes "<a" ++ body ++ codes ">", length body + 2)
]

-- [a-zA-Z-]+="([^"]*)" at the start of a text: the name, the value, and how many bytes behind the
-- first.
unfoldable pub match_pair : Bytes → Option (Bytes × Bytes × ℕ)
unfolding is_letter
match_pair s =
    let (name, behind) = run_while (λ c. is_letter c || (c == b'-')) s in
    if is_empty name then none else elim (cut_prefix behind (codes "=\"")) [
      | none ↦ none
      | some quoted ↦
          let (value, rest) = run_while (λ c. not (c == 34)) quoted in
          if is_empty rest then none else some (name, value, length name + (length value + 2))
    ]

-- The pairs of tagAttrs in order: `in_word` says whether a word character stands before the text,
-- for the \b in front of a name.
unfoldable pub attr_pairs : Bool → ℕ → Bytes → List (Bytes × Bytes)
attr_pairs in_word skip [] = []
attr_pairs in_word (suc skip) (c ∷ s) = attr_pairs (is_word_byte c) skip s
attr_pairs in_word zero (c ∷ s) =
    let later = attr_pairs (is_word_byte c) zero s in
    if (in_word && is_word_byte c) || (not in_word && not (is_word_byte c))
    then later
    else elim (match_pair (c ∷ s)) [
      | none ↦ later
      | some (name, value, skip) ↦ (name, value) ∷ attr_pairs (is_word_byte c) skip s
    ]

-- The value of a name in the map of tagAttrs, where a later pair overwrites an earlier one; a missing
-- key reads "".
unfoldable pub attr_value : Bytes → Bytes → List (Bytes × Bytes) → Bytes
attr_value name found [] = found
attr_value name found ((k, v) ∷ pairs) = attr_value name (if str_eq k name then v else found) pairs

unfoldable pub tag_attr : Bytes → Bytes → Bytes
tag_attr tag name = attr_value name [] (attr_pairs false 0 tag)

-- Is a tag one that an author marked?
unfoldable pub is_marked : Bytes → Bool
is_marked tag =
    not (str_contains tag (codes "data-hash-code="))
    && (str_contains tag (codes "id=\"exerciseDemo\"")
        || str_contains tag (codes "class=\"exerciseDemo\""))

unfoldable pub or_default : Bytes → Bytes → Bytes
or_default value default = if is_empty value then default else value

-- The routing that a marked tag asks for.
unfoldable pub routing_of : Bytes → DemoRouting
routing_of tag =
    let href = tag_attr tag (codes "href") in
    record {
      port = or_default (tag_attr tag (codes "data-port")) default_demo_routing.port;
      path = if has_prefix href (codes "/") then href else default_demo_routing.path;
      term = or_default (tag_attr tag (codes "data-term")) default_demo_routing.term;
      prefix = tag_attr tag (codes "data-host-prefix");
      proto = tag_attr tag (codes "data-protocol");
    }

-- The loop over the tags, with the exercises that are not paired yet: the page, and their routings.
unfoldable pub pair_tags : List Bytes → List Bytes → Bytes → Bytes × List DemoRouting
pair_tags tags [] html = (html, [])
pair_tags [] (h ∷ hs) html = (html, map (λ j. default_demo_routing) (h ∷ hs))
pair_tags (tag ∷ tags) (h ∷ hs) html =
    let r = routing_of tag in
    let (paired, rs) =
      pair_tags tags hs (replace_first (auto_demo_anchor h) (demo_button h r) html) in
    let skipped = pair_tags tags (h ∷ hs) html in
    if is_marked tag then (paired, r ∷ rs) else skipped

-- pairDemoLinks
unfoldable pub pair_demo_links : Bytes → List Bytes → Bytes × List DemoRouting
pair_demo_links html hashes = pair_tags (find_all match_anchor 0 html) hashes html
