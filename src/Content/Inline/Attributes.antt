-- ===== src/Content/Inline/Attributes.antt =====
-- The attributes that an author gives a link, as a browser reads them back.
use training_platform.Shared.{
  Bytes, codes, ℕ, zero, suc, ◌≤◌, ◌≡◌, refl, sym, ap, ◌∙◌, subst, Bool, true, not, Option, none,
  some, List, [], ◌∷◌, ◌++◌, length, all, ◌==◌, if◌then◌else◌, cut_prefix, arith, Bool-cases,
  Option-cases, inl, inr,
}
use mathlib.Core.List.{append_assoc}
use training_platform.Shared.Runs.{run_while, run_while-append, run_while-all, run_while-keep}
use training_platform.Content.Blocks.{skip_spaces}
use training_platform.Content.Inline.{
  is_letter, is_attribute_char, attribute_name, is_value_char, match_attribute, is_inert,
  attribute_text, ial_attrs,
}

-- Attributes in the text of a tag: a blank, a name up to an equals sign, and a value in quotation
-- marks, so many at most.
unfoldable pub read_attributes : ℕ → Bytes → Option (List (Bytes × Bytes))
read_attributes fuel [] = some []
read_attributes zero (c ∷ s) = none
read_attributes (suc fuel) (c ∷ s) =
    let (name, behind) = run_while (λ d. not (d == b'=')) s in
    if not (c == 32) then none else elim (cut_prefix behind (codes "=\"")) [
      | none ↦ none
      | some quoted ↦
          let (value, rest) = run_while (λ d. not (d == 34)) quoted in
          elim (cut_prefix rest (codes "\"")) [
            | none ↦ none
            | some after ↦ elim (read_attributes fuel after) [
              | none ↦ none
              | some pairs ↦ some ((name, value) ∷ pairs)
            ]
          ]
    ]

abbrev no_quote : ℕ → Bool
no_quote c = not (c == 34)

abbrev no_equals : ℕ → Bool
no_equals c = not (c == b'=')

cut_prefix-keep :
    (q : ℕ → Bool) (s p r : Bytes) → cut_prefix s p ≡ some r → all q s ≡ true → all q r ≡ true
unfolding cut_prefix all
cut_prefix-keep q s [] r e h = ground arith
cut_prefix-keep q [] (d ∷ p) r e h = ground arith
cut_prefix-keep q (c ∷ s) (d ∷ p) r e h = ground (arith, cut_prefix-keep q s p r)

skip_spaces-keep : (q : ℕ → Bool) (s : Bytes) → all q s ≡ true → all q (skip_spaces s) ≡ true
unfolding skip_spaces all
skip_spaces-keep q [] h = refl
skip_spaces-keep q (c ∷ s) h = ground (arith, skip_spaces-keep q s)

name_no_equals : (s : Bytes) → all is_attribute_char s ≡ true → all no_equals s ≡ true
unfolding all is_attribute_char is_letter
name_no_equals [] h = refl
name_no_equals (c ∷ s) h = ground (arith, name_no_equals s)

attribute_name_lem :
    (s name after : Bytes)
    → attribute_name s ≡ some (name, after)
    → all no_quote s ≡ true
    → (all no_equals name ≡ true) × (all no_quote after ≡ true)
unfolding attribute_name all is_letter
attribute_name_lem [] name after e h = ground arith
attribute_name_lem (c ∷ s) name after e h = ground (
  arith,
  run_while-keep is_attribute_char no_quote s,
  name_no_equals (run_while is_attribute_char s).0 (run_while-all is_attribute_char s),
)

match_attribute-parts :
    (s inner read after quoted name value : Bytes)
    → match_attribute s ≡ some (name, value)
    → cut_prefix s (codes "{:") ≡ some inner
    → attribute_name (skip_spaces inner) ≡ some (read, after)
    → cut_prefix after (codes "=&#34;") ≡ some quoted
    → (read ≡ name) × ((run_while is_value_char quoted).0 ≡ value)
unfolding match_attribute
match_attribute-parts s inner read after quoted name value e k j i = ground (arith, e, k, j, i)

-- The parts of an attribute of a text without quotation marks.
match_attribute_lem :
    (s name value : Bytes)
    → match_attribute s ≡ some (name, value)
    → all no_quote s ≡ true
    → (all no_equals name ≡ true) × (all no_quote value ≡ true)
unfolding match_attribute
match_attribute_lem s name value e h = elim (Option-cases (cut_prefix s (codes "{:"))) [
  | inl k ↦ absurd (ground (arith, e, k))
  | inr (inner, k) ↦ elim (Option-cases (attribute_name (skip_spaces inner))) [
    | inl j ↦ absurd (ground (arith, e, k, j))
    | inr ((read, after), j) ↦ elim (Option-cases (cut_prefix after (codes "=&#34;"))) [
      | inl i ↦ absurd (ground (arith, e, k, j, i))
      | inr (quoted, i) ↦
          let (no_eq, kept) =
            attribute_name_lem (skip_spaces inner) read after j (
              skip_spaces-keep no_quote inner
                (cut_prefix-keep no_quote s (codes "{:") inner k h)) in
          let (clean, _) =
            run_while-keep is_value_char no_quote quoted
              (cut_prefix-keep no_quote after (codes "=&#34;") quoted i kept) in
          let same = match_attribute-parts s inner read after quoted name value e k j i in
          (
            subst (λ n. all no_equals n ≡ true) same.0 no_eq,
            subst (λ v. all no_quote v ≡ true) same.1 clean,
          )
    ]
  ]
]

attribute_text-append :
    (name value rest : Bytes)
    → attribute_text name value ++ rest ≡ 32 ∷ (name ++ 61 ∷ 34 ∷ (value ++ 34 ∷ rest))
unfolding attribute_text
attribute_text-append name value rest = simp append_assoc

read_one :
    (fuel : ℕ) (name value rest : Bytes) (pairs : List (Bytes × Bytes))
    → all no_equals name ≡ true
    → all no_quote value ≡ true
    → read_attributes fuel rest ≡ some pairs
    → read_attributes (suc fuel) (32 ∷ (name ++ 61 ∷ 34 ∷ (value ++ 34 ∷ rest)))
      ≡ some ((name, value) ∷ pairs)
unfolding read_attributes cut_prefix
read_one fuel name value rest pairs h k e =
    let named = run_while-append no_equals name 61 (34 ∷ (value ++ 34 ∷ rest)) h refl in
    let valued = run_while-append no_quote value 34 rest k refl in
    rw (named, valued, e)
      (ap (λ n. some ((n, (run_while no_quote (value ++ 34 ∷ rest)).0) ∷ pairs))
          (ap (λ r. r.0) named)
        ∙ ap (λ v. some ((name, v) ∷ pairs)) (ap (λ r. r.0) valued))

-- One attribute is read back, and those behind it.
read_attributes-attribute_text :
    (fuel : ℕ) (name value rest : Bytes) (pairs : List (Bytes × Bytes))
    → all no_equals name ≡ true
    → all no_quote value ≡ true
    → read_attributes fuel rest ≡ some pairs
    → read_attributes (suc fuel) (attribute_text name value ++ rest) ≡ some ((name, value) ∷ pairs)
read_attributes-attribute_text fuel name value rest pairs h k e =
    subst (λ s. read_attributes (suc fuel) s ≡ some ((name, value) ∷ pairs))
      (sym (attribute_text-append name value rest)) (read_one fuel name value rest pairs h k e)

-- From a text without quotation marks, such as an escaped one, a link gets attributes that a browser
-- reads back, and each of their names is id, class, or begins with data-.
pub ial_attrs-read_attributes :
    (fuel : ℕ) (s : Bytes)
    → all (λ c. not (c == 34)) s ≡ true
    → length s ≤ fuel
    → (pairs : List (Bytes × Bytes)) × (read_attributes fuel (ial_attrs s) ≡ some pairs)
      × (all (λ p. is_inert p.0) pairs ≡ true)
unfolding ial_attrs all
ial_attrs-read_attributes fuel [] h k = ([], unfold read_attributes in refl, refl)
ial_attrs-read_attributes zero (c ∷ s) h k = absurd (omega arith)
ial_attrs-read_attributes (suc fuel) (c ∷ s) h k =
    let (later, read, inert) =
      ial_attrs-read_attributes (suc fuel) s (ground (arith, h)) (omega arith) in
    elim (Option-cases (match_attribute (c ∷ s))) [
      | inl e ↦ rw (e, ial_attrs) (later, read, inert)
      | inr ((name, value), e) ↦ elim (Bool-cases (is_inert name)) [
        | inr i ↦ rw (e, i, ial_attrs) (later, read, inert)
        | inl i ↦
            let (no_eq, clean) = match_attribute_lem (c ∷ s) name value e h in
            let (pairs, kept, good) =
              ial_attrs-read_attributes fuel s (ground (arith, h)) (omega arith) in
            rw (e, i, ial_attrs)
              (
                (name, value) ∷ pairs,
                read_attributes-attribute_text fuel name value (ial_attrs s) pairs no_eq clean kept,
                ground (arith, i, good),
              )
      ]
    ]
