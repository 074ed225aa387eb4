-- ===== src/Tests/Markdown.antt =====
-- A lesson's Markdown with a click-to-run block.
use training_platform.Shared.{
  Bytes, codes, is_empty, cut_prefix, ◌≡◌, refl, true, false, some, List, ◌∷◌, ◌++◌, all, leb,
  arith,
}
use training_platform.Shared.Runs.{run_while}
use training_platform.Shared.Decimal.{digits_value, is_digit}
use training_platform.Scoring.Phash.{trim_space, trim_right, trim_left, is_blank}
use training_platform.Content.Blocks.{split_lines, extend_head, is_space, skip_spaces}
use training_platform.Content.Inline.{
  escape_char, escape_string, replace_all, match_code, match_bold, match_link, has_prefix, inline,
}
use training_platform.Content.Markdown.{
  join_lines, join_items, heading, after_spaces, list_item, is_fence, fence_info, fence_body,
  fence_html, list_items, heading_html, text_turn, turn, render_lines, render_markdown, term_info,
}
use training_platform.Content.Inline.{ial_attrs, is_inert}
use training_platform.Content.Inline.Attributes.{read_attributes, ial_attrs-read_attributes}
use training_platform.Content.Markdown.Turns.{render_markdown-render_lines}
use training_platform.Content.Markdown.Targets.{click_targets, check_term_refs-click_targets}
use training_platform.Content.Terminals.{behind_term, match_term_ref, clamped_int, check_term_refs}

abbrev markdown : Bytes
markdown = codes "```.term2" ++ 10 ∷ codes "ls > a" ++ 10 ∷ codes "```" ++ 10 ∷ codes "- **b**"

abbrev page : Bytes
page =
    codes
      "<pre class=\"term-code\" data-term=\"2\" title=\"click to run in terminal 2\"><code>ls &gt; a</code></pre>"
    ++ 10 ∷ codes "<ul><li><strong>b</strong></li></ul>"

page_rendered : render_markdown markdown ≡ some page
unfolding is_empty cut_prefix trim_space trim_right trim_left is_blank split_lines extend_head
    is_space skip_spaces escape_char escape_string run_while replace_all match_code match_bold
    match_link has_prefix inline join_lines join_items heading after_spaces list_item is_fence
    fence_info fence_body fence_html list_items heading_html text_turn turn render_lines
    render_markdown term_info
page_rendered = refl

page_checked : check_term_refs 2 page ≡ true
unfolding check_term_refs match_term_ref behind_term cut_prefix run_while is_digit clamped_int
    is_empty digits_value
page_checked = refl

check_term_refs-click_targets_example :
    all (λ n. leb n 2) (click_targets false (split_lines markdown)) ≡ true
check_term_refs-click_targets_example =
    check_term_refs-click_targets 2 markdown page page_rendered page_checked

render_markdown-render_lines_example :
    (out : List Bytes) × (render_lines 5 (split_lines markdown) ≡ some out)
    × (render_markdown markdown ≡ some (join_lines out))
unfolding split_lines extend_head
render_markdown-render_lines_example = render_markdown-render_lines 5 markdown (omega arith)

abbrev link_attributes : Bytes
link_attributes = codes "{:data-term=&#34;.term2&#34;}{:onclick=&#34;x&#34;}"

ial_attrs-read_attributes_example :
    (pairs : List (Bytes × Bytes)) × (read_attributes 60 (ial_attrs link_attributes) ≡ some pairs)
    × (all (λ p. is_inert p.0) pairs ≡ true)
unfolding all
ial_attrs-read_attributes_example = ial_attrs-read_attributes 60 link_attributes refl (omega arith)
