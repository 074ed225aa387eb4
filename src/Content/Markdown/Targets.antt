-- ===== src/Content/Markdown/Targets.antt =====
-- The terminals that a lesson's click-to-run blocks name.
use training_platform.Shared.{
  Bytes, codes, is_empty, ℕ, zero, suc, ◌-◌, ◌≤◌, ◌≡◌, refl, ap, ◌∙◌, sym, Bool, true, false, not,
  none, some, List, [], ◌∷◌, ◌++◌, length, all, leb, if◌then◌else◌, arith, Bool-cases, Option-cases,
  inl, inr, subst, cut_prefix,
}
use mathlib.Core.List.{append-nil}
use training_platform.Shared.Runs.{run_while}
use training_platform.Shared.Decimal.{is_digit, digits_value}
use training_platform.Content.Blocks.{split_lines}
use training_platform.Content.Inline.{has_prefix}
use training_platform.Content.Markdown.{
  join_lines, term_info, list_item, is_fence, fence_info, fence_body, fence_html, list_items,
  text_turn, turn, render_lines, render_markdown,
}
use training_platform.Content.Markdown.Turns.{list_items-rest}
use training_platform.Content.Terminals.{behind_term, match_term_ref, clamped_int, check_term_refs}

-- The terminals of the fences that open among some lines, where `inside` says that one is open
-- before them.
unfoldable pub click_targets : Bool → List Bytes → List ℕ
click_targets inside [] = []
click_targets true (l ∷ ls) = click_targets (not (is_fence l)) ls
click_targets false (l ∷ ls) =
    let rest = click_targets (is_fence l) ls in
    if is_fence l
    then elim (term_info (fence_info l)) [ none ↦ rest | some d ↦ (d - b'0') ∷ rest ]
    else rest

fence_body-click_targets :
    (ls : List Bytes) → click_targets false (fence_body ls).1 ≡ click_targets true ls
unfolding fence_body click_targets
fence_body-click_targets [] = refl
fence_body-click_targets (l ∷ ls) = elim (Bool-cases (is_fence l)) [
  | inl e ↦ ground (arith, fence_body-click_targets ls)
  | inr e ↦ ground (arith, fence_body-click_targets ls)
]

-- An item of a list opens no fence.
list_item-is_fence : (l text : Bytes) → list_item l ≡ some text → is_fence l ≡ false
unfolding list_item is_fence has_prefix cut_prefix
list_item-is_fence [] text e = cc
list_item-is_fence (c ∷ s) text e = ground arith

list_items-click_targets :
    (ls : List Bytes) → click_targets false (list_items ls).1 ≡ click_targets false ls
unfolding list_items click_targets
list_items-click_targets [] = refl
list_items-click_targets (l ∷ ls) = elim (Option-cases (list_item l)) [
  | inl e ↦ ground (arith, e)
  | inr (text, e) ↦ ground (arith, e, list_item-is_fence l text e, list_items-click_targets ls)
]

text_turn-click_targets :
    (l : Bytes) (ls : List Bytes)
    → is_fence l ≡ false
    → click_targets false (text_turn l ls).1 ≡ click_targets false ls
unfolding text_turn
text_turn-click_targets l ls h = elim (Option-cases (list_item l)) [
  | inl e ↦ ground arith
  | inr (text, e) ↦ ground (arith, list_items-rest l text ls e, list_items-click_targets ls)
]

-- The check of a text that stands in another one.
check_term_refs-append :
    (terms : ℕ) (a s : Bytes)
    → check_term_refs terms (a ++ s) ≡ true
    → check_term_refs terms s ≡ true
unfolding check_term_refs
check_term_refs-append terms [] s h = h
check_term_refs-append terms (c ∷ a) s h = ground (arith, check_term_refs-append terms a s)

check_term_refs-join_lines :
    (terms : ℕ) (x : Bytes) (out : List Bytes)
    → check_term_refs terms (join_lines (x ∷ out)) ≡ true
    → ((t : Bytes) × (check_term_refs terms (x ++ t) ≡ true))
      × (check_term_refs terms (join_lines out) ≡ true)
unfolding join_lines
check_term_refs-join_lines terms x [] h = (
  ([], subst (λ s. check_term_refs terms s ≡ true) (sym (append-nil x)) h),
  unfold check_term_refs in refl,
)
check_term_refs-join_lines terms x (y ∷ out) h = (
  (10 ∷ join_lines (y ∷ out), h),
  check_term_refs-append terms (10 ∷ []) (join_lines (y ∷ out))
      (check_term_refs-append terms x _ h),
)

term_info_digit : (info : Bytes) (d : ℕ) → term_info info ≡ some d → (49 ≤ d) × (d ≤ 54)
unfolding term_info
term_info_digit info d e = elim (Option-cases (cut_prefix info (codes ".term"))) [
  | inl k ↦ ground arith
  | inr ([], k) ↦ ground arith
  | inr (c ∷ [], k) ↦ ground arith
  | inr (c ∷ b ∷ more, k) ↦ ground arith
]

-- The digit of a terminal stands alone in its quotes.
behind_term-digit : (d : ℕ) (s : Bytes) → 49 ≤ d → d ≤ 54 → behind_term (d ∷ s) ≡ d ∷ s
unfolding behind_term cut_prefix
behind_term-digit d s h k = ground (arith, h, k)

run_while-digit :
    (d : ℕ) (s : Bytes) → 49 ≤ d → d ≤ 54 → run_while is_digit (d ∷ 34 ∷ s) ≡ (d ∷ [], 34 ∷ s)
unfolding run_while is_digit
run_while-digit d s h k = ground (arith, h, k)

clamped_int-digit : (d : ℕ) → 49 ≤ d → d ≤ 54 → clamped_int (d ∷ []) ≡ d - b'0'
unfolding clamped_int digits_value
clamped_int-digit d h k = ground (arith, h, k)

match_term_ref-digit :
    (d : ℕ) (s : Bytes)
    → 49 ≤ d
    → d ≤ 54
    → match_term_ref (codes "data-term=\"" ++ d ∷ 34 ∷ s) ≡ some (d - b'0')
unfolding match_term_ref cut_prefix is_empty
match_term_ref-digit d s h k =
    rw (match_term_ref, behind_term-digit d (34 ∷ s) h k, run_while-digit d s h k)
      (ap some (
        ap (λ r. clamped_int (run_while is_digit r).0) (behind_term-digit d (34 ∷ s) h k)
        ∙ ap (λ r. clamped_int r.0) (run_while-digit d s h k)
        ∙ clamped_int-digit d h k))

reference :
    (terms d : ℕ) (s : Bytes)
    → 49 ≤ d
    → d ≤ 54
    → check_term_refs terms (codes "data-term=\"" ++ d ∷ 34 ∷ s) ≡ true
    → leb (d - b'0') terms ≡ true
unfolding check_term_refs
reference terms d s low high h = ground (arith, match_term_ref-digit d s low high)

fence_html-check_term_refs :
    (terms d : ℕ) (info code t : Bytes)
    → term_info info ≡ some d
    → check_term_refs terms (fence_html info code ++ t) ≡ true
    → leb (d - b'0') terms ≡ true
unfolding fence_html check_term_refs
fence_html-check_term_refs terms d info code t e h =
    let (low, high) = term_info_digit info d e in
    let seen = rw (e, fence_html) at h in
    reference terms d _ low high
      (check_term_refs-append terms (codes "<pre class=\"term-code\" ") _ seen)

check_term_refs-tail :
    (terms : ℕ) (written out : List Bytes)
    → check_term_refs terms (join_lines (written ++ out)) ≡ true
    → check_term_refs terms (join_lines out) ≡ true
check_term_refs-tail terms [] out h = h
check_term_refs-tail terms (x ∷ written) out h =
    check_term_refs-tail terms written out (check_term_refs-join_lines terms x (written ++ out) h).1

-- The terminals of the blocks are in bounds.
abbrev pub InBounds : ℕ → Bool → List Bytes → Type 0
InBounds terms inside ls = all (λ n. leb n terms) (click_targets inside ls) ≡ true

fence-InBounds :
    (terms : ℕ) (l code : Bytes) (ls out : List Bytes)
    → is_fence l ≡ true
    → check_term_refs terms (join_lines (fence_html (fence_info l) code ∷ out)) ≡ true
    → InBounds terms true ls
    → InBounds terms false (l ∷ ls)
unfolding click_targets all
fence-InBounds terms l code ls out e h more = elim (Option-cases (term_info (fence_info l))) [
  | inl k ↦ ground arith
  | inr (d, k) ↦
      let ((t, seen), _) =
        check_term_refs-join_lines terms (fence_html (fence_info l) code) out h in
      ground (arith, fence_html-check_term_refs terms d (fence_info l) code t k seen)
]

-- A turn, and the terminals of the blocks that it writes.
turn-InBounds :
    (terms : ℕ) (l : Bytes) (ls out : List Bytes)
    → check_term_refs terms (join_lines ((turn l ls).0 ++ out)) ≡ true
    → InBounds terms false (turn l ls).1
    → InBounds terms false (l ∷ ls)
unfolding turn
turn-InBounds terms l ls out h more = elim (Bool-cases (is_fence l)) [
  | inl e ↦
      fence-InBounds terms l (join_lines (fence_body ls).0) ls out e (rw e at h) (
        subst (λ ns. all (λ n. leb n terms) ns ≡ true) (fence_body-click_targets ls) (rw e at more))
  | inr e ↦ unfold click_targets in ground (arith, text_turn-click_targets l ls e)
]

render_lines-InBounds :
    (terms fuel : ℕ) (ls out : List Bytes)
    → render_lines fuel ls ≡ some out
    → check_term_refs terms (join_lines out) ≡ true
    → InBounds terms false ls
unfolding render_lines
render_lines-InBounds terms fuel [] out e h = unfold click_targets all in refl
render_lines-InBounds terms zero (l ∷ ls) out e h = cc
render_lines-InBounds terms (suc fuel) (l ∷ ls) out e h =
    elim (Option-cases (render_lines fuel (turn l ls).1)) [
      | inl k ↦ ground arith
      | inr (rest, k) ↦
          let seen =
            subst (λ o. check_term_refs terms (join_lines o) ≡ true) (ground (arith, e, k)) h in
          turn-InBounds terms l ls rest seen (
            render_lines-InBounds terms fuel (turn l ls).1 rest k
              (check_term_refs-tail terms (turn l ls).0 rest seen))
    ]

-- When the check of what refers to terminals passes on the text of a lesson, every click-to-run
-- block of the lesson names a terminal that the lesson has: the blocks are those of the fences, which
-- open and close in turn, whatever else the lines between them hold.
pub check_term_refs-click_targets :
    (terms : ℕ) (src html : Bytes)
    → render_markdown src ≡ some html
    → check_term_refs terms html ≡ true
    → all (λ n. leb n terms) (click_targets false (split_lines src)) ≡ true
unfolding render_markdown
check_term_refs-click_targets terms src html e h =
    elim (Option-cases (render_lines (length (split_lines src)) (split_lines src))) [
      | inl k ↦ ground arith
      | inr (out, k) ↦
          render_lines-InBounds terms (length (split_lines src)) (split_lines src) out k
            (subst (λ s. check_term_refs terms s ≡ true) (ground (arith, e, k)) h)
    ]
