-- ===== src/Content/Render/Plain.antt =====
-- A lesson without blocks: its text is rendered as it is, and its click-to-run blocks are checked.
use training_platform.Shared.{
  Bytes, ℕ, suc, ◌≤◌, ◌≡◌, ◌≢◌, refl, ap, ◌∙◌, subst, true, false, Option, some, List, [], ◌∷◌,
  length, all, leb, arith, Bool-cases, Option-cases, inl, inr, ◌⊎◌,
}
use training_platform.Shared.Int.{ℤ, pos, negsuc}
use training_platform.Shared.Atoi.{atoi}
use training_platform.Content.Html.{DemoRouting}
use training_platform.Content.Markdown.{render_markdown}
use training_platform.Scoring.Challenge.{Challenge, VerifySpec}
use training_platform.Scoring.Hash.{Sha256}
use training_platform.Content.Blocks.{split_lines}
use training_platform.Content.Markdown.Targets.{click_targets, check_term_refs-click_targets}
use training_platform.Content.Terminals.{
  TerminalMatter, terminals, validate_terminals, check_term_refs,
}
use training_platform.Content.DemoLinks.{pair_tags, pair_demo_links}
use training_platform.Content.FrontMatter.{FrontMatter, split_front_matter}
use training_platform.Content.Found.{Found, nothing_found, fill_placeholders}
use training_platform.Content.Render.{
  next_routing, spec_of, refs_fit, asks_check, attach, set_verify, Lesson, find_blocks, finish,
  render,
}
use training_platform.Content.Render.Unused.{find_blocks_unused}
use training_platform.Content.Render.Parts.{render-Rendered}

set_verify-length :
    (h : Bytes) (spec : VerifySpec) (cs : List Challenge)
    → length (set_verify h spec cs) ≡ length cs
unfolding set_verify
set_verify-length h spec [] = refl
set_verify-length h spec (c ∷ cs) = ap suc (set_verify-length h spec cs)

attach-length :
    (fm : FrontMatter) (hs : List Bytes) (rs : List DemoRouting) (cs ds : List Challenge)
    (html page : Bytes)
    → attach fm hs rs cs html ≡ some (ds, page)
    → length ds ≡ length cs
unfolding attach
attach-length fm [] rs cs ds html page e = ground (arith, e)
attach-length fm (h ∷ hs) rs cs ds html page e =
    let (r, later) = next_routing rs in
    elim (Option-cases (atoi r.port)) [
      | inl k ↦ absurd (ground (arith, e, k))
      | inr (port, k) ↦
          attach-length fm hs later (set_verify h (spec_of fm r port) cs) ds _ page
            (rw (k, attach) at e)
          ∙ set_verify-length h (spec_of fm r port) cs
    ]

-- Where there is nothing, there is what follows from that.
is_empty_or : {P : Type 0} (cs : List Challenge) → (cs ≡ [] → P) → (cs ≢ []) ⊎ P
is_empty_or [] f = inr (f refl)
is_empty_or (c ∷ cs) f = inl (λ h. cc)

none_left : (cs ds : List Challenge) → length ds ≡ length cs → ds ≡ [] → cs ≡ []
none_left [] ds e h = refl
none_left (c ∷ cs) [] e h = absurd (ground (arith, e))
none_left (c ∷ cs) (d ∷ ds) e h = cc

-- The terminals that a front matter may have.
valid_terminals :
    (fm : FrontMatter)
    → validate_terminals fm.terminal ≡ true
    → (n : ℕ) × (terminals fm.terminal ≡ pos n) × (n ≤ 6) × (length fm.terminal.term_images ≤ n)
unfolding validate_terminals
valid_terminals fm h = go (terminals fm.terminal) refl
  where
    go :
        (t : ℤ)
        → terminals fm.terminal ≡ t
        → (n : ℕ) × (terminals fm.terminal ≡ pos n) × (n ≤ 6) × (length fm.terminal.term_images ≤ n)
    go (pos n) e = (n, e, ground (arith, e, h), ground (arith, e, h))
    go (negsuc n) e = absurd (ground (arith, e, h))

module _ (sha : Sha256) (to_lower : Bytes → Bytes)
    (resolver : Option (Bytes → ℤ → Option Bytes)) where
  finish_checked :
      (fm : FrontMatter) (markdown : Bytes) (lesson : Lesson) (n : ℕ)
      → finish sha to_lower resolver fm nothing_found markdown ≡ some lesson
      → terminals fm.terminal ≡ pos n
      → check_term_refs n markdown ≡ true
  unfolding finish refs_fit nothing_found pair_demo_links pair_tags fill_placeholders
  finish_checked fm markdown lesson n e h = elim (Bool-cases (check_term_refs n markdown)) [
    | inl k ↦ k
    | inr k ↦ absurd (ground (arith, e, h, k))
  ]

  finish-challenges :
      (fm : FrontMatter) (markdown : Bytes) (found : Found) (lesson : Lesson)
      → finish sha to_lower resolver fm found markdown ≡ some lesson
      → lesson.challenges ≡ []
      → found.challenges ≡ []
  unfolding finish
  finish-challenges fm markdown found lesson e h =
      let (page, routings) =
        pair_demo_links (fill_placeholders 0 found.placeholders markdown) found.exercise_hashes in
      elim (Bool-cases (asks_check fm)) [
        | inl k ↦
            elim (Option-cases (attach fm found.exercise_hashes routings found.challenges page)) [
              | inl j ↦ absurd (ground (arith, e, k, j))
              | inr ((cs, done), j) ↦
                  none_left found.challenges cs
                    (attach-length fm found.exercise_hashes routings found.challenges cs page done
                      j)
                    (ground (arith, e, k, j, h))
            ]
        | inr k ↦ ground (arith, e, k, h)
      ]

  -- The click-to-run blocks of a lesson in which no block was replaced.
  plain_targets :
      (fm : FrontMatter) (slug salt body text markdown : Bytes) (found : Found) (lesson : Lesson)
      (n : ℕ)
      → find_blocks sha to_lower resolver fm slug salt body ≡ some (found, text)
      → render_markdown text ≡ some markdown
      → finish sha to_lower resolver fm found markdown ≡ some lesson
      → terminals fm.terminal ≡ pos n
      → lesson.challenges ≡ []
      → all (λ i. leb i n) (click_targets false (split_lines body)) ≡ true
  plain_targets fm slug salt body text markdown found lesson n blocks turned finished counted
        plain =
      let none_found = finish-challenges fm markdown found lesson finished plain in
      let (nothing, as_written) =
        find_blocks_unused sha to_lower resolver fm slug salt body text found blocks none_found in
      let checked = finish_checked fm markdown lesson n (rw nothing at finished) counted in
      subst (λ b. all (λ i. leb i n) (click_targets false (split_lines b)) ≡ true) as_written
        (check_term_refs-click_targets n text markdown turned checked)

  -- Every lesson that renders has at most 6 terminals, and no more images than terminals; and it has
  -- a quiz or an exercise, or every click-to-run block of its text names one of its terminals.
  pub render-click_targets :
      (yaml : Bytes → Option FrontMatter) (slug src salt body : Bytes) (fm : FrontMatter)
      (lesson : Lesson)
      → render sha to_lower resolver yaml slug src salt ≡ some lesson
      → split_front_matter yaml src ≡ some (fm, body)
      → (n : ℕ) × (terminals fm.terminal ≡ pos n)
        × (n ≤ 6)
        × (length fm.terminal.term_images ≤ n)
        × ((lesson.challenges ≢ [])
            ⊎ (all (λ i. leb i n) (click_targets false (split_lines body)) ≡ true))
  render-click_targets yaml slug src salt body fm lesson e split =
      let r = render-Rendered sha to_lower resolver yaml slug src salt lesson e in
      let same_fm : r.front ≡ fm = ground (arith, r.is_split, split) in
      let same_body : r.body ≡ body = ground (arith, r.is_split, split) in
      let (n, counted, few, images) = valid_terminals r.front r.is_valid in
      let targets =
        plain_targets r.front slug salt r.body r.text r.markdown r.found lesson n r.is_found
          r.is_markdown r.is_finished counted in
      (
        n,
        subst (λ f. terminals (FrontMatter.terminal f) ≡ pos n) same_fm counted,
        few,
        subst (λ f. length (TerminalMatter.term_images (FrontMatter.terminal f)) ≤ n) same_fm
            images,
        subst
            (λ b.
              (lesson.challenges ≢ [])
              ⊎ (all (λ i. leb i n) (click_targets false (split_lines b)) ≡ true))
            same_body (is_empty_or lesson.challenges targets),
      )
