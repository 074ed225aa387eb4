-- ===== src/Content/Markdown/Turns.antt =====
-- The loop over the lines takes a turn for each line at most.
use training_platform.Shared.{
  Bytes, ℕ, zero, suc, ◌≤◌, ◌≡◌, ◌≢◌, refl, none, some, List, [], ◌∷◌, length, arith, Option-cases,
  inl, inr,
}
use training_platform.Content.Blocks.{split_lines}
use training_platform.Content.Markdown.{
  join_lines, list_item, fence_body, list_items, text_turn, turn, render_lines, render_markdown,
}

fence_body-length : (ls : List Bytes) → length (fence_body ls).1 ≤ length ls
unfolding fence_body
fence_body-length [] = omega arith
fence_body-length (l ∷ ls) = ground (arith, fence_body-length ls)

list_items-length : (ls : List Bytes) → length (list_items ls).1 ≤ length ls
unfolding list_items
list_items-length [] = omega arith
list_items-length (l ∷ ls) = ground (arith, list_items-length ls)

-- The items of a list that begins at a line are read past it.
pub list_items-rest :
    (l text : Bytes) (ls : List Bytes)
    → list_item l ≡ some text
    → (list_items (l ∷ ls)).1 ≡ (list_items ls).1
unfolding list_items
list_items-rest l text ls e = ground arith

text_turn-length : (l : Bytes) (ls : List Bytes) → length (text_turn l ls).1 ≤ length ls
unfolding text_turn
text_turn-length l ls = elim (Option-cases (list_item l)) [
  | inl e ↦ ground arith
  | inr (text, e) ↦ ground (arith, list_items-rest l text ls e, list_items-length ls)
]

turn-length : (l : Bytes) (ls : List Bytes) → length (turn l ls).1 ≤ length ls
unfolding turn
turn-length l ls = ground (arith, fence_body-length ls, text_turn-length l ls)

-- Turns beyond one for each line change nothing.
render_lines-fuel :
    (fuel more : ℕ) (ls : List Bytes)
    → length ls ≤ fuel
    → length ls ≤ more
    → (render_lines fuel ls ≡ render_lines more ls) × (render_lines fuel ls ≢ none)
unfolding render_lines
render_lines-fuel fuel more [] h k = (refl, λ e. cc)
render_lines-fuel zero more (l ∷ ls) h k = absurd (omega arith)
render_lines-fuel (suc fuel) zero (l ∷ ls) h k = absurd (omega arith)
render_lines-fuel (suc fuel) (suc more) (l ∷ ls) h k =
    let (same, ends) =
      render_lines-fuel fuel more (turn l ls).1 (omega (arith, turn-length l ls))
        (omega (arith, turn-length l ls)) in
    ground (arith, same, ends)

-- The loop over the lines of a lesson ends: with a turn for each line, or more, it gives the lines
-- that renderMarkdown joins, and renderMarkdown always returns a text.
pub render_markdown-render_lines :
    (fuel : ℕ) (src : Bytes)
    → length (split_lines src) ≤ fuel
    → (out : List Bytes) × (render_lines fuel (split_lines src) ≡ some out)
      × (render_markdown src ≡ some (join_lines out))
unfolding render_markdown
render_markdown-render_lines fuel src h =
    let (same, ends) =
      render_lines-fuel fuel (length (split_lines src)) (split_lines src) h (omega arith) in
    elim (Option-cases (render_lines fuel (split_lines src))) [
      | inl e ↦ absurd (ends e)
      | inr (out, e) ↦ (out, e, ground (arith, e, same))
    ]
