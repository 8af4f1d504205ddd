-- ===== src/Prelude/Search/First.antt =====
-- What strings.Index finds is the first occurrence.
use Prim.Native.Char.{Char, code}
use we_term.Prelude.{
  Bool-cases, Option, Option-cases, String, ap, arith, eqb, inl, inr, none, refl, some, sym, ◌∙◌,
  ◌≡◌,
}
use we_term.Prelude.Search.{cut, cut-append, extend, strip_prefix}
use we_term.Prelude.Text.{append}

strip_prefix-shorter :
    (p s t : String) → strip_prefix p (append s t) ≡ none → strip_prefix p s ≡ none
unfolding strip_prefix append
strip_prefix-shorter String.[] s t h = absurd (cc h)
strip_prefix-shorter (String.◌∷◌ p ps) String.[] t h = refl
strip_prefix-shorter (String.◌∷◌ p ps) (String.◌∷◌ c s) t h =
    elim (Bool-cases (eqb (code p) (code c))) [
      | inl e ↦ simp e (strip_prefix-shorter ps s t (simp e at h))
      | inr e ↦ simp e refl
    ]

-- the text before the occurrence, and the one behind
abbrev before_of : Option (String × String) → String
before_of none = ""
before_of (some (before, after)) = before

cut-step :
    (p : String) (c : Char) (s : String)
    → strip_prefix p (String.◌∷◌ c s) ≡ none
    → cut p (String.◌∷◌ c s) ≡ extend c (cut p s)
unfolding cut
cut-step p c s e = ground arith

cut-here :
    (p : String) (c : Char) (s rest : String)
    → strip_prefix p (String.◌∷◌ c s) ≡ some rest
    → cut p (String.◌∷◌ c s) ≡ some ("", rest)
unfolding cut
cut-here p c s rest e = ground arith

cut_first_lem :
    (p : Char) (ps s before after : String)
    → cut (String.◌∷◌ p ps) s ≡ some (before, after)
    → cut (String.◌∷◌ p ps) before ≡ none
unfolding cut strip_prefix append
cut_first_lem p ps String.[] before after h = absurd (cc h)
cut_first_lem p ps (String.◌∷◌ c s) before after h =
    let pat : String = String.◌∷◌ p ps in
    elim (Option-cases (strip_prefix pat (String.◌∷◌ c s))) [
      | inr (rest, e) ↦
          let empty : "" ≡ before = ap before_of (sym (cut-here pat c s rest e) ∙ h) in
          rw (sym empty) refl
      | inl e ↦ elim (Option-cases (cut pat s)) [
        | inl f ↦
            let clash : none ≡ some (before, after) =
              sym (ap (extend c) f) ∙ sym (cut-step pat c s e) ∙ h in
            absurd (cc clash)
        | inr ((x, y), f) ↦
            let longer : String.◌∷◌ c x ≡ before =
              ap before_of (sym (ap (extend c) f) ∙ sym (cut-step pat c s e) ∙ h) in
            let still : strip_prefix pat (String.◌∷◌ c x) ≡ none =
              strip_prefix-shorter pat (String.◌∷◌ c x) (append pat y)
                (ap (λ t. strip_prefix pat (String.◌∷◌ c t)) (sym (cut-append pat s x y f)) ∙ e) in
            rw (sym longer) (cut-step pat c x still ∙ ap (extend c) (cut_first_lem p ps s x y f))
      ]
    ]

-- A text that is not empty does not occur before its first occurrence.
pub cut-first :
    (p s before after : String)
    → strip_prefix p "" ≡ none
    → cut p s ≡ some (before, after)
    → cut p before ≡ none
unfolding strip_prefix
cut-first String.[] s before after n h = absurd (cc n)
cut-first (String.◌∷◌ c ps) s before after n h = cut_first_lem c ps s before after h
