-- ===== src/Content/Html.antt =====
-- internal/content/content.go: the HTML of a quiz and of an exercise.
use training_platform.Shared.{
  Bytes, codes, is_empty, ℕ, Option, none, some, List, [], ◌∷◌, ◌++◌, take, ◌==◌, if◌then◌else◌,
}
use training_platform.Content.Blocks.{Choice}
use training_platform.Content.Markdown.{render_markdown}

-- htmlEscape
unfoldable pub html_escape_char : ℕ → Bytes
html_escape_char c =
    if c == b'&'
    then codes "&amp;"
    else if c == b'<'
    then codes "&lt;"
    else if c == b'>'
    then codes "&gt;"
    else if c == 34
    then codes "&quot;"
    else c ∷ []

unfoldable pub html_escape : Bytes → Bytes
html_escape [] = []
html_escape (c ∷ s) = html_escape_char c ++ html_escape s

-- The labels of the choices of a quiz, whose group is named by the start of the challenge's hash.
unfoldable pub choices_html : Bytes → List Choice → Bytes
choices_html hash [] = []
choices_html hash (c ∷ cs) =
    codes "<label><input type=\"radio\" name=\"q-"
    ++ take 8 hash
    ++ codes "\" data-flag=\""
    ++ c.hash
    ++ codes "\"> "
    ++ html_escape c.text
    ++ codes "</label>"
    ++ choices_html hash cs

-- The block of a quiz.
unfoldable pub quiz_html : Bytes → Bytes → List Choice → Bytes
quiz_html hash question choices =
    codes "<div class=\"quiz\" data-challenge=\""
    ++ hash
    ++ codes "\"><div class=\"q\">"
    ++ html_escape question
    ++ codes "</div>"
    ++ choices_html hash choices
    ++ codes "<button class=\"quiz-submit\">Submit</button><div class=\"verdict\"></div></div>"

-- type demoRouting struct
pub record DemoRouting : Type 0 where
  pub port : Bytes
  pub path : Bytes
  pub term : Bytes
  pub prefix : Bytes
  pub proto : Bytes

-- defaultDemoRouting
unfoldable pub default_demo_routing : DemoRouting
default_demo_routing = record {
  port = codes "80";
  path = codes "/result.html";
  term = codes ".term1";
  prefix = [];
  proto = [];
}

-- An attribute that is left out when it has no value.
unfoldable pub optional_attribute : Bytes → Bytes → Bytes
optional_attribute name value = if is_empty value then [] else name ++ value ++ codes "\""

-- demoButton
unfoldable pub demo_button : Bytes → DemoRouting → Bytes
demo_button hash r =
    codes "<a class=\"exercise-demo\" data-hash-code=\""
    ++ hash
    ++ codes "\" data-port=\""
    ++ r.port
    ++ codes "\" data-path=\""
    ++ r.path
    ++ codes "\" data-term=\""
    ++ r.term
    ++ codes "\""
    ++ optional_attribute (codes " data-host-prefix=\"") r.prefix
    ++ optional_attribute (codes " data-protocol=\"") r.proto
    ++ codes " href=\"#\">Test Exercise</a>"

-- autoDemoAnchor
unfoldable pub auto_demo_anchor : Bytes → Bytes
auto_demo_anchor hash = demo_button hash default_demo_routing

-- The block of an exercise.
unfoldable pub exercise_html : Bytes → Bytes → Option Bytes
exercise_html hash text = elim (render_markdown text) [
  | none ↦ none
  | some html ↦ some (
      codes "<div class=\"exercise\" data-challenge=\""
      ++ hash
      ++ codes "\"><div class=\"q\">"
      ++ html
      ++ codes "</div>"
      ++ auto_demo_anchor hash
      ++ codes "<div class=\"verdict\"></div></div>")
]
