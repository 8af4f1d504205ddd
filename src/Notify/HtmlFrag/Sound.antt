-- ===== src/Notify/HtmlFrag/Sound.antt =====
-- inspect/notify/htmlfrag.go: what is extracted stands in the document, in an element.
use we_term.Notify.HtmlFrag.{element, extract_body, from_first, inner}
use we_term.Prelude.{Option-cases, String, ap, arith, inl, inr, none, refl, some, sym, ◌∙◌, ◌≡◌}
use we_term.Prelude.Search.{cut, cut-append, strip_prefix}
use we_term.Prelude.Search.First.{cut-first}
use we_term.Prelude.Text.{append}

-- Where the content lies in the document: behind the first occurrence of the opening text, behind
-- the first '>' from there on, and before the first closing tag behind that. The opening text may be
-- the start of a longer name.
pub record ElementOf (opening closing html content : String) : Type 0 where
  front : String
  rest : String
  tag : String
  back : String
  opened : html ≡ append front (append opening rest)
  enclosed : append opening rest ≡ append tag (append ">" (append content (append closing back)))
  first_opening : cut opening front ≡ none
  first_end : cut ">" tag ≡ none
  first_closing : cut closing content ≡ none

-- What `inner` gives stands behind the first '>' and before the first closing tag from there on;
-- the closing tag is not empty.
inner-enclosed :
    (closing text content : String)
    → strip_prefix closing "" ≡ none
    → inner closing text ≡ some content
    → (tag : String) × (back : String) × (text
        ≡ append tag (append ">" (append content (append closing back))))
      × (cut ">" tag ≡ none)
      × (cut closing content ≡ none)
unfolding inner strip_prefix
inner-enclosed closing text content nc h = elim (Option-cases (cut ">" text)) [
  | inl e ↦ absurd (ground arith)
  | inr (y, e) ↦ elim (Option-cases (cut closing y.1)) [
    | inl f ↦ absurd (ground arith)
    | inr (z, f) ↦
        let same : z.0 ≡ content = ground arith in
        (
          y.0,
          z.1,
          cut-append ">" text y.0 y.1 e
              ∙ ap (λ t. append y.0 (append ">" t))
                  (cut-append closing y.1 z.0 z.1 f ∙ ap (λ d. append d (append closing z.1)) same),
          cut-first ">" text y.0 y.1 refl e,
          ap (cut closing) (sym same) ∙ cut-first closing y.1 z.0 z.1 nc f,
        )
  ]
]

element-ElementOf :
    (opening closing html content : String)
    → strip_prefix opening "" ≡ none
    → strip_prefix closing "" ≡ none
    → element opening closing html ≡ some content
    → ElementOf opening closing html content
unfolding element from_first
element-ElementOf opening closing html content opens closes h =
    elim (Option-cases (cut opening html)) [
      | inl e ↦ absurd (ground arith)
      | inr (x, e) ↦
          let inside = inner-enclosed closing (append opening x.1) content closes (ground arith) in
          record {
            front = x.0;
            rest = x.1;
            tag = inside.0;
            back = inside.1;
            opened = cut-append opening html x.0 x.1 e;
            enclosed = inside.2;
            first_opening = cut-first opening html x.0 x.1 opens e;
            first_end = inside.3;
            first_closing = inside.4;
          }
    ]

-- A body that is extracted lies behind the first occurrence of the text "<body" in the document and
-- the first '>' from there on, and before the first "</body>" behind that.
pub extract_body-ElementOf :
    (html body : String) → extract_body html ≡ some body → ElementOf "<body" "</body>" html body
unfolding extract_body strip_prefix
extract_body-ElementOf html body h = element-ElementOf "<body" "</body>" html body refl refl h
