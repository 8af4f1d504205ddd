-- ===== src/Notify/HtmlFrag.antt =====
-- inspect/notify/htmlfrag.go: the style and the body of an HTML document.
pub mod Sound
use we_term.Prelude.{Option, String, [], if◌then◌else◌, none, refl, some, ◌==◌, ◌∷◌, ◌≡◌}
use we_term.Prelude.Search.{cut}
use we_term.Prelude.Text.{append, concat}

-- html[strings.Index(html, p):], the text from the first occurrence on
unfoldable pub from_first : String → String → Option String
unfolding cut append
from_first p html = elim (cut p html) [ some x ↦ some (append p x.1) | none ↦ none ]

-- the text behind the first `>` of html[open:], up to the closing tag
unfoldable pub inner : String → String → Option String
unfolding cut
inner closing from_open = elim (cut ">" from_open) [
  | some x ↦ elim (cut closing x.1) [ some y ↦ some y.0 | none ↦ none ]
  | none ↦ none
]

-- both functions: the content of the first element that opens so
unfoldable pub element : String → String → String → Option String
unfolding from_first inner
element opening closing html = elim (from_first opening html) [
  | some from_open ↦ inner closing from_open
  | none ↦ none
]

-- extractStyle
unfoldable pub extract_style : String → String
unfolding element
extract_style html = elim (element "<style" "</style>" html) [ some s ↦ s | none ↦ "" ]

-- extractBody
unfoldable pub extract_body : String → Option String
unfolding element
extract_body html = element "<body" "</body>" html

-- loadHTMLBody, given what reading the file at the path answers
unfoldable pub load_html_body : String → Option String → String
unfolding extract_style extract_body concat
load_html_body html_path read = if html_path == "" then "" else elim read [
  | none ↦ ""
  | some raw ↦ elim (extract_body raw) [
    | none ↦ ""
    | some body ↦
        let style = extract_style raw in
        if style == "" then body else concat ("<style>" ∷ style ∷ "</style>\n" ∷ body ∷ [])
  ]
]

page_body :
    load_html_body "r.html" (some "<html><style a>x{}</style><body c=1><p>hi</p></body></html>")
    ≡ "<style>x{}</style>\n<p>hi</p>"
unfolding load_html_body
page_body = refl
