-- ===== src/Content/Inline.antt =====
-- internal/content/markdown.go: the marks inside a line of Markdown, as the regular expressions that it
-- replaces, each read at one position of the text. `html.EscapeString` is of the standard library.
pub mod Attributes
use training_platform.Shared.{
  Bytes, codes, is_empty, ℕ, zero, suc, ◌+◌, Bool, true, false, not, ◌&&◌, ◌||◌, Option, none, some,
  [], ◌∷◌, ◌++◌, length, leb, str_eq, ◌==◌, if◌then◌else◌, cut_prefix,
}
use training_platform.Shared.Runs.{
  run_while, run_while-append, run_while-whole, run_while-all, run_while-keep,
}
use training_platform.Content.Blocks.{skip_spaces}

-- html.EscapeString
unfoldable pub escape_char : ℕ → Bytes
escape_char c =
    if c == b'&'
    then codes "&amp;"
    else if c == 39
    then codes "&#39;"
    else if c == b'<'
    then codes "&lt;"
    else if c == b'>'
    then codes "&gt;"
    else if c == 34
    then codes "&#34;"
    else c ∷ []

unfoldable pub escape_string : Bytes → Bytes
escape_string [] = []
escape_string (c ∷ s) = escape_char c ++ escape_string s

-- A match at the start of a text: what was matched in it, and how many bytes behind the first.
abbrev pub Matcher : Type 0
Matcher = Bytes → Option (Bytes × ℕ)

-- ReplaceAllString, for an expression that matches no empty text: the next match is looked for
-- behind the last one, `skip` bytes ahead. The matcher gives the replacement.
unfoldable pub replace_all : Matcher → ℕ → Bytes → Bytes
replace_all match skip [] = []
replace_all match (suc skip) (c ∷ s) = replace_all match skip s
replace_all match zero (c ∷ s) = elim (match (c ∷ s)) [
  | none ↦ c ∷ replace_all match zero s
  | some (text, skip) ↦ text ++ replace_all match skip s
]

-- codeRe and its replacement.
unfoldable pub match_code : Matcher
match_code s = elim (cut_prefix s (codes "`")) [
  | none ↦ none
  | some inner ↦
      let (body, rest) = run_while (λ c. not (c == b'`')) inner in
      if is_empty body || is_empty rest
      then none
      else some (codes "<code>" ++ body ++ codes "</code>", length body + 1)
]

-- boldRe and its replacement.
unfoldable pub match_bold : Matcher
match_bold s = elim (cut_prefix s (codes "**")) [
  | none ↦ none
  | some inner ↦
      let (body, rest) = run_while (λ c. not (c == b'*')) inner in
      if is_empty body then none else elim (cut_prefix rest (codes "**")) [
        | none ↦ none
        | some after ↦ some (codes "<strong>" ++ body ++ codes "</strong>", length body + 3)
      ]
]

-- [^{}]
unfoldable pub not_brace : ℕ → Bool
not_brace c = not (c == b'{') && not (c == b'}')

-- \{:[^{}]*\}: how many bytes behind the first.
unfoldable pub attribute_list : Bytes → Option ℕ
attribute_list s = elim (cut_prefix s (codes "{:")) [
  | none ↦ none
  | some inner ↦
      let (body, rest) = run_while not_brace inner in
      elim (cut_prefix rest (codes "}")) [ none ↦ none | some after ↦ some (length body + 2) ]
]

-- (?:\{:[^{}]*\})*: the text of the lists, where `inside` bytes of the first are still to come.
unfoldable pub attribute_lists : ℕ → Bytes → Bytes
attribute_lists inside [] = []
attribute_lists (suc inside) (c ∷ s) = c ∷ attribute_lists inside s
attribute_lists zero (c ∷ s) = elim (attribute_list (c ∷ s)) [
  | none ↦ []
  | some inside ↦ c ∷ attribute_lists inside s
]

-- [a-zA-Z] and [a-zA-Z0-9-]
unfoldable pub is_letter : ℕ → Bool
is_letter c = (leb b'a' c && leb c b'z') || (leb b'A' c && leb c b'Z')

unfoldable pub is_attribute_char : ℕ → Bool
unfolding is_letter
is_attribute_char c = is_letter c || (leb b'0' c && leb c b'9') || (c == b'-')

-- [a-zA-Z][a-zA-Z0-9-]*
unfoldable pub attribute_name : Bytes → Option (Bytes × Bytes)
unfolding is_letter
attribute_name [] = none
attribute_name (c ∷ s) =
    let (run, rest) = run_while is_attribute_char s in
    if is_letter c then some (c ∷ run, rest) else none

-- [^&{}]*
unfoldable pub is_value_char : ℕ → Bool
unfolding not_brace
is_value_char c = not (c == b'&') && not_brace c

-- The name and the value of ialAttrRe at the start of a text.
unfoldable pub match_attribute : Bytes → Option (Bytes × Bytes)
match_attribute s = elim (cut_prefix s (codes "{:")) [
  | none ↦ none
  | some inner ↦ elim (attribute_name (skip_spaces inner)) [
    | none ↦ none
    | some (name, after) ↦ elim (cut_prefix after (codes "=&#34;")) [
      | none ↦ none
      | some quoted ↦
          let (value, rest) = run_while is_value_char quoted in
          elim (cut_prefix rest (codes "&#34;")) [
            | none ↦ none
            | some end ↦ elim (cut_prefix (skip_spaces end) (codes "}")) [
              | none ↦ none
              | some behind ↦ some (name, value)
            ]
          ]
    ]
  ]
]

-- strings.HasPrefix(s, p)
unfoldable pub has_prefix : Bytes → Bytes → Bool
has_prefix s p = elim (cut_prefix s p) [ none ↦ false | some rest ↦ true ]

-- The names that ialAttrs lets through.
unfoldable pub is_inert : Bytes → Bool
is_inert name =
    str_eq name (codes "id") || str_eq name (codes "class") || has_prefix name (codes "data-")

-- One attribute that is written out.
unfoldable pub attribute_text : Bytes → Bytes → Bytes
attribute_text name value = 32 ∷ name ++ codes "=\"" ++ value ++ codes "\""

-- ialAttrs. No match starts inside another one, since a match has one opening brace, so that each
-- position may be tried.
unfoldable pub ial_attrs : Bytes → Bytes
ial_attrs [] = []
ial_attrs (c ∷ s) =
    let rest = ial_attrs s in
    elim (match_attribute (c ∷ s)) [
      | none ↦ rest
      | some (name, value) ↦ if is_inert name then attribute_text name value ++ rest else rest
    ]

-- linkRe and its replacement.
unfoldable pub match_link : Matcher
match_link s = elim (cut_prefix s (codes "[")) [
  | none ↦ none
  | some inner ↦
      let (text, behind) = run_while (λ c. not (c == b']')) inner in
      if is_empty text then none else elim (cut_prefix behind (codes "](")) [
        | none ↦ none
        | some inside ↦
            let (target, rest) = run_while (λ c. not (c == b')')) inside in
            if is_empty target then none else elim (cut_prefix rest (codes ")")) [
              | none ↦ none
              | some after ↦
                  let ials = attribute_lists 0 after in
                  some (
                    codes "<a href=\""
                        ++ target
                        ++ codes "\""
                        ++ ial_attrs ials
                        ++ codes ">"
                        ++ text
                        ++ codes "</a>",
                    length text + (length target + (length ials + 3)),
                  )
            ]
      ]
]

-- inline
unfoldable pub inline : Bytes → Bytes
inline s = replace_all match_link 0 (replace_all match_bold 0 (replace_all match_code 0 s))
