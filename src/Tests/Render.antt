-- ===== src/Tests/Render.antt =====
-- A lesson with an exercise, rendered and built.
use training_platform.Shared.{
  ℕ, ◌≤◌, leb, length, Bytes, codes, ◌≡◌, ◌≢◌, ◌⊎◌, refl, true, false, Option, none, some, List, [],
  ◌∷◌, ◌++◌, is_empty, str_eq, cut_prefix, all, map,
}
use training_platform.Shared.Runs.{run_while}
use training_platform.Shared.Dashes.{trim_dashes, is_name_char}
use training_platform.Shared.Hex.{hex_encode, hex_digit}
use training_platform.Shared.Decimal.{format_ℕ, print_digits, digits_value, is_digit}
use training_platform.Shared.Atoi.{atoi, atoi_digits, in_range, neg_in_range}
use training_platform.Scoring.Challenge.{str_contains}
use training_platform.Scoring.Hash.{challenge_hash}
use training_platform.Scoring.Phash.{trim_space, trim_right, trim_left, is_blank}
use training_platform.Content.Blocks.{
  split_lines, extend_head, join_spaces, is_space, skip_spaces, collect, nothing_yet, parse_answer,
  check_box, answer_text, dash_runs, short_name, exercise_flags, render_quiz, render_exercise,
}
use training_platform.Content.Inline.{
  escape_char, escape_string, replace_all, match_code, match_bold, match_link, has_prefix, inline,
  is_letter,
}
use training_platform.Content.Markdown.{
  join_lines, join_items, heading, after_spaces, list_item, is_fence, fence_info, fence_body,
  fence_html, list_items, heading_html, text_turn, turn, render_lines, render_markdown, term_info,
}
use training_platform.Content.Terminals.{
  terminals, validate_terminals, clamped_int, behind_term, match_term_ref, check_term_refs,
}
use training_platform.Content.Html.{
  default_demo_routing, optional_attribute, demo_button, auto_demo_anchor, exercise_html,
}
use training_platform.Content.DemoLinks.{
  replace_first, find_all, is_word_byte, starts_word, match_anchor, is_marked, pair_tags,
  pair_demo_links,
}
use training_platform.Content.FrontMatter.{
  FrontMatter, no_front_matter, trim_newlines, rule_end, rule_at, closing_rule, split_front_matter,
}
use training_platform.Content.Found.{
  match_tag, until_tag, match_block, Found, nothing_found, placeholder_token, replace_blocks,
  fill_placeholders,
}
use training_platform.Content.Render.{
  Lesson, refs_fit, asks_check, spec_of, set_verify, next_routing, attach, add_quiz, add_exercise,
  find_blocks, finish, render,
}
use training_platform.Tests.Samples.{sample_sha256, sample_sum, replicate_byte, checksum}
use training_platform.Shared.Int.{pos}
use training_platform.Scoring.Store.{new_store, get, load_challenges}
use training_platform.Content.Build.{Entry, build_dir}
use training_platform.Content.Build.Loading.{last_with, or_stored, load_challenges-build_dir}
use training_platform.Content.Markdown.Targets.{click_targets}
use training_platform.Content.Render.Plain.{render-click_targets}
use training_platform.Scoring.Challenge.{VerifySpec, Challenge, assertive}
use training_platform.Scoring.Store.{upsert}
use training_platform.Shared.Table.{insert, lookup}
use training_platform.Shared.Suffixes.{has_suffix, trim_suffix}
use training_platform.Content.Build.{
  is_lesson_file, slug_of, add_lesson, empty_site, build_entry, build_entries,
}
use training_platform.Server.PodFetch.{rooted}
use training_platform.Server.BuiltSite.{load_challenges-assertive}
use training_platform.Content.Render.ExerciseBlocks.{blocks_in, block_hash}
use training_platform.Content.Render.Checks.{fits, render-fits}

abbrev lesson_source : Bytes
lesson_source =
    codes "---"
    ++ 10 ∷ codes "expect"
    ++ 10 ∷ codes "---"
    ++ 10 ∷ codes "# Run"
    ++ 10 ∷ codes "{%exercise%}Do{%endexercise%}"

-- A reader of front matter that takes it for the text to expect.
abbrev sample_yaml : Bytes → Option FrontMatter
sample_yaml header = some (record no_front_matter { expect = header })

abbrev exercise_hash : Bytes
exercise_hash = challenge_hash sample_sha256 (codes "Do") (codes "a")

abbrev lesson : Lesson
lesson = record {
  front_matter = record no_front_matter { expect = codes "expect" ++ 10 ∷ [] };
  page =
      codes "<h1>Run</h1>"
      ++ 10 ∷ codes "<div class=\"exercise\" data-challenge=\""
      ++ exercise_hash
      ++ codes "\"><div class=\"q\"><p>Do</p></div><a class=\"exercise-demo\" data-hash-code=\""
      ++ exercise_hash
      ++ codes
          "\" data-verify=\"1\" data-port=\"80\" data-path=\"/result.html\" data-term=\".term1\" href=\"#\">Test Exercise</a><div class=\"verdict\"></div></div>";
  challenges =
      record {
        hash = exercise_hash;
        name = codes "exercise-o";
        value = pos 20;
        flags = [];
        verify = some (record {
          port = pos 80;
          path = codes "/result.html";
          expect = codes "expect" ++ 10 ∷ [];
          expect_regex = [];
        });
      }
      ∷ [];
  exercise_hashes = exercise_hash ∷ [];
}

lesson_rendered :
    render sample_sha256 (λ s. s) none sample_yaml (codes "a") lesson_source [] ≡ some lesson
unfolding is_empty str_eq cut_prefix trim_dashes is_name_char hex_encode format_ℕ print_digits
    digits_value atoi atoi_digits in_range neg_in_range str_contains challenge_hash trim_space
    trim_right trim_left is_blank split_lines extend_head join_spaces is_space skip_spaces collect
    nothing_yet parse_answer check_box answer_text dash_runs short_name exercise_flags render_quiz
    render_exercise escape_char escape_string run_while replace_all match_code match_bold match_link
    has_prefix inline is_letter join_lines join_items heading after_spaces list_item is_fence
    fence_info fence_body fence_html list_items heading_html text_turn turn render_lines
    render_markdown term_info terminals validate_terminals clamped_int behind_term match_term_ref
    check_term_refs default_demo_routing optional_attribute demo_button auto_demo_anchor
    exercise_html replace_first find_all is_word_byte starts_word match_anchor is_marked pair_tags
    pair_demo_links no_front_matter trim_newlines rule_end rule_at closing_rule split_front_matter
    match_tag until_tag match_block nothing_found placeholder_token replace_blocks fill_placeholders
    refs_fit asks_check spec_of set_verify next_routing attach add_quiz add_exercise find_blocks
    finish render sample_sum replicate_byte hex_digit checksum is_digit all
lesson_rendered = refl

render-fits_example :
    (body : Bytes) × (quizzes : Found) × (quizless : Bytes) × (split_front_matter sample_yaml
        lesson_source
      ≡ some (lesson.front_matter, body))
    × (replace_blocks
          (match_block (codes "quiz") (codes "endquiz"))
          (add_quiz sample_sha256 (λ s. s) none (codes "a") [])
          0
          body
          nothing_found
        ≡ some (quizzes, quizless))
    × (all
          (fits lesson.front_matter (
            map
              (block_hash sample_sha256 (codes "a"))
              (blocks_in (match_block (codes "exercise") (codes "endexercise")) 0 quizless)))
          lesson.challenges
        ≡ true)
render-fits_example =
    render-fits sample_sha256 (λ s. s) none sample_yaml (codes "a") lesson_source [] lesson
      lesson_rendered

abbrev exercise_check : VerifySpec
exercise_check = record {
  port = pos 80;
  path = codes "/result.html";
  expect = codes "expect" ++ 10 ∷ [];
  expect_regex = [];
}

abbrev entries : List Entry
entries =
    record { name = codes "img"; is_dir = true; content = none }
    ∷ record { name = codes "a.md"; is_dir = false; content = some lesson_source }
    ∷ record { name = codes "b.md"; is_dir = false; content = none }
    ∷ []

load_challenges-build_dir_example :
    let (site, built) =
      build_dir sample_sha256 (λ s. s) none sample_yaml (λ name. true) [] true entries in
    let (s', ok) = load_challenges site.challenges (new_store none) in
    (ok ≡ true)
    × (get s' exercise_hash
        ≡ or_stored (last_with exercise_hash site.challenges) (get (new_store none) exercise_hash))
load_challenges-build_dir_example =
    load_challenges-build_dir sample_sha256 (λ s. s) none sample_yaml [] (λ name. true) true entries
      (new_store none) exercise_hash

-- A lesson with a click-to-run block and nothing else.
abbrev plain_body : Bytes
plain_body = codes "```.term1" ++ 10 ∷ codes "ls" ++ 10 ∷ codes "```"

abbrev plain_lesson : Lesson
plain_lesson = record {
  front_matter = no_front_matter;
  page =
      codes
        "<pre class=\"term-code\" data-term=\"1\" title=\"click to run in terminal 1\"><code>ls</code></pre>";
  challenges = [];
  exercise_hashes = [];
}

plain_rendered :
    render sample_sha256 (λ s. s) none sample_yaml (codes "b") plain_body [] ≡ some plain_lesson
unfolding is_empty str_eq cut_prefix trim_space trim_right trim_left is_blank split_lines
    extend_head is_space skip_spaces escape_char escape_string run_while replace_all match_code
    match_bold has_prefix inline is_letter join_lines heading after_spaces list_item is_fence
    fence_info fence_body fence_html heading_html text_turn turn render_lines render_markdown
    term_info terminals validate_terminals clamped_int behind_term match_term_ref check_term_refs
    find_all is_word_byte starts_word match_anchor pair_tags pair_demo_links no_front_matter
    trim_newlines rule_end rule_at closing_rule split_front_matter match_tag until_tag match_block
    nothing_found replace_blocks fill_placeholders refs_fit asks_check attach find_blocks finish
    render is_digit all digits_value
plain_rendered = refl

plain_split : split_front_matter sample_yaml plain_body ≡ some (no_front_matter, plain_body)
unfolding split_front_matter cut_prefix
plain_split = refl

render-click_targets_example :
    (n : ℕ) × (terminals no_front_matter.terminal ≡ pos n)
    × (n ≤ 6)
    × (length no_front_matter.terminal.term_images ≤ n)
    × ((plain_lesson.challenges ≢ [])
        ⊎ (all (λ i. leb i n) (click_targets false (split_lines plain_body)) ≡ true))
render-click_targets_example =
    render-click_targets sample_sha256 (λ s. s) none sample_yaml (codes "b") plain_body []
      plain_body no_front_matter plain_lesson plain_rendered plain_split

abbrev exercise_challenge : Challenge
exercise_challenge = record {
  hash = exercise_hash;
  name = codes "exercise-o";
  value = pos 20;
  flags = [];
  verify = some exercise_check;
}

site_stored :
    get
      (load_challenges
        (build_dir sample_sha256
          (λ s. s)
          none
          sample_yaml
          (λ name. true)
          []
          true
          entries).0.challenges
        (new_store none)).0
      exercise_hash
    ≡ some exercise_challenge
unfolding build_dir build_entries build_entry is_lesson_file has_suffix slug_of trim_suffix
    add_lesson empty_site load_challenges upsert insert get lookup new_store is_empty str_eq
    cut_prefix trim_dashes is_name_char hex_encode format_ℕ print_digits digits_value atoi
    atoi_digits in_range neg_in_range str_contains challenge_hash trim_space trim_right trim_left
    is_blank split_lines extend_head join_spaces is_space skip_spaces collect nothing_yet
    parse_answer check_box answer_text dash_runs short_name exercise_flags render_quiz
    render_exercise escape_char escape_string run_while replace_all match_code match_bold match_link
    has_prefix inline is_letter join_lines join_items heading after_spaces list_item is_fence
    fence_info fence_body fence_html list_items heading_html text_turn turn render_lines
    render_markdown term_info terminals validate_terminals clamped_int behind_term match_term_ref
    check_term_refs default_demo_routing optional_attribute demo_button auto_demo_anchor
    exercise_html replace_first find_all is_word_byte starts_word match_anchor is_marked pair_tags
    pair_demo_links no_front_matter trim_newlines rule_end rule_at closing_rule split_front_matter
    match_tag until_tag match_block nothing_found placeholder_token replace_blocks fill_placeholders
    refs_fit asks_check spec_of set_verify next_routing attach add_quiz add_exercise find_blocks
    finish render sample_sum replicate_byte hex_digit checksum is_digit all
site_stored = refl

load_challenges-assertive_example :
    (assertive exercise_challenge.verify ≡ true)
    × (rooted exercise_check.path ≡ exercise_check.path)
load_challenges-assertive_example =
    load_challenges-assertive sample_sha256 (λ s. s) none sample_yaml (λ name. true) [] true entries
      none exercise_hash exercise_challenge exercise_check site_stored refl
