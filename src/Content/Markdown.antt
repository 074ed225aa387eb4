-- ===== src/Content/Markdown.antt =====
-- internal/content/markdown.go: the HTML of a lesson's Markdown, line by line.
pub mod Turns
pub mod Targets
use training_platform.Shared.{
  Bytes, codes, is_empty, ℕ, zero, suc, ◌+◌, Bool, true, false, not, ◌&&◌, ◌||◌, Option, none, some,
  List, [], ◌∷◌, ◌++◌, length, leb, ltb, str_eq, ◌==◌, if◌then◌else◌, cut_prefix,
}
use training_platform.Shared.Runs.{
  run_while, run_while-append, run_while-whole, run_while-all, run_while-keep,
}
use training_platform.Scoring.Phash.{trim_space}
use training_platform.Content.Blocks.{split_lines, is_space, skip_spaces}
use training_platform.Content.Inline.{has_prefix, escape_string, inline}

-- strings.Join(parts, "\n")
unfoldable pub join_lines : List Bytes → Bytes
join_lines [] = []
join_lines (s ∷ []) = s
join_lines (s ∷ t ∷ rest) = s ++ 10 ∷ join_lines (t ∷ rest)

-- strings.Join(parts, "")
unfoldable pub join_items : List Bytes → Bytes
join_items [] = []
join_items (s ∷ rest) = s ++ join_items rest

-- termInfoRe: the digit of a terminal.
unfoldable pub term_info : Bytes → Option ℕ
term_info info = elim (cut_prefix info (codes ".term")) [
  | none ↦ none
  | some [] ↦ none
  | some (d ∷ []) ↦ if leb b'1' d && leb d b'6' then some d else none
  | some (d ∷ e ∷ more) ↦ none
]

-- \s+(.*)$: what follows the blanks, of which there is one at least.
unfoldable pub after_spaces : Bytes → Option Bytes
after_spaces [] = none
after_spaces (c ∷ s) = if is_space c then some (skip_spaces s) else none

-- headingRe: the level and the text.
unfoldable pub heading : Bytes → Option (ℕ × Bytes)
heading l =
    let (marks, rest) = run_while (λ c. c == b'#') l in
    if ltb 0 (length marks) && leb (length marks) 4
    then elim (after_spaces rest) [ none ↦ none | some text ↦ some (length marks, text) ]
    else none

-- listRe: the text of an item.
unfoldable pub list_item : Bytes → Option Bytes
list_item [] = none
list_item (c ∷ s) = if (c == b'-') || (c == b'*') then after_spaces s else none

-- Does a fence open or close at this line?
unfoldable pub is_fence : Bytes → Bool
is_fence l = has_prefix l (codes "```")

-- The info string of a fence.
unfoldable pub fence_info : Bytes → Bytes
fence_info l = elim (cut_prefix l (codes "```")) [
  | none ↦ trim_space l
  | some info ↦ trim_space info
]

-- The lines of a fence, escaped, and the lines behind the closing one, if there is one.
unfoldable pub fence_body : List Bytes → List Bytes × List Bytes
fence_body [] = ([], [])
fence_body (l ∷ ls) =
    let (body, rest) = fence_body ls in
    if is_fence l then ([], ls) else (escape_string l ∷ body, rest)

-- The block of a fence.
unfoldable pub fence_html : Bytes → Bytes → Bytes
fence_html info code = elim (term_info info) [
  | none ↦ codes "<pre><code>" ++ code ++ codes "</code></pre>"
  | some d ↦
      codes "<pre class=\"term-code\" "
      ++ codes "data-term=\""
      ++ d ∷ codes "\" title=\"click to run in terminal "
      ++ d ∷ codes "\"><code>"
      ++ code
      ++ codes "</code></pre>"
]

-- The items of a list, and the lines behind it.
unfoldable pub list_items : List Bytes → List Bytes × List Bytes
list_items [] = ([], [])
list_items (l ∷ ls) =
    let (items, rest) = list_items ls in
    elim (list_item l) [
      | none ↦ ([], l ∷ ls)
      | some text ↦ ((codes "<li>" ++ inline (escape_string text) ++ codes "</li>") ∷ items, rest)
    ]

-- <hN> and </hN>, of a level of one digit.
unfoldable pub heading_html : ℕ → Bytes → Bytes
heading_html n text =
    codes "<h"
    ++ (b'0' + n) ∷ codes ">"
    ++ inline (escape_string text)
    ++ codes "</h"
    ++ (b'0' + n) ∷ codes ">"

-- The cases of a line that opens no fence: what is written, and the lines that are left.
unfoldable pub text_turn : Bytes → List Bytes → List Bytes × List Bytes
text_turn l ls = elim (heading l) [
  | some (n, text) ↦ (heading_html n text ∷ [], ls)
  | none ↦ elim (list_item l) [
    | some _ ↦
        let (items, rest) = list_items (l ∷ ls) in
        ((codes "<ul>" ++ join_items items ++ codes "</ul>") ∷ [], rest)
    | none ↦
        if is_empty (trim_space l)
        then ([], ls)
        else if has_prefix (trim_space l) (codes "<")
        then (l ∷ [], ls)
        else ((codes "<p>" ++ inline (escape_string l) ++ codes "</p>") ∷ [], ls)
  ]
]

-- One turn of the loop.
unfoldable pub turn : Bytes → List Bytes → List Bytes × List Bytes
turn l ls =
    if is_fence l
    then (let (body, rest) = fence_body ls in
        (fence_html (fence_info l) (join_lines body) ∷ [], rest))
    else text_turn l ls

-- The loop, for at most so many turns; `none` is no end within them.
unfoldable pub render_lines : ℕ → List Bytes → Option (List Bytes)
render_lines fuel [] = some []
render_lines zero (l ∷ ls) = none
render_lines (suc fuel) (l ∷ ls) =
    let (written, rest) = turn l ls in
    elim (render_lines fuel rest) [ none ↦ none | some out ↦ some (written ++ out) ]

-- renderMarkdown, with a turn for each line.
unfoldable pub render_markdown : Bytes → Option Bytes
render_markdown src =
    let lines = split_lines src in
    elim (render_lines (length lines) lines) [ none ↦ none | some out ↦ some (join_lines out) ]
