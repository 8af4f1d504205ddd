-- ===== src/Prelude/Search.antt =====
-- The searches of package strings, on the characters of a text.
pub mod Suffix
pub mod First
use Prim.Native.Char.{Char, code}
use mathlib.Core.Path.{ap₂}
use text.Mathlib.TextEquality.{Char-path}
use we_term.Prelude.{
  Bool, Bool-cases, Option, Option-cases, String, [], arith, eqb, false, if◌then◌else◌, inl, inr,
  none, some, true, ℕ, ◌&&◌, ◌==◌, ◌||◌, ◌∷◌, ◌≡◌,
}
use we_term.Prelude.Text.{append}

-- strings.TrimPrefix where the prefix is there
unfoldable pub strip_prefix : String → String → Option String
strip_prefix String.[] s = some s
strip_prefix (String.◌∷◌ p ps) String.[] = none
strip_prefix (String.◌∷◌ p ps) (String.◌∷◌ c s) =
    if eqb (code p) (code c) then strip_prefix ps s else none

-- strings.HasPrefix(s, p)
unfoldable pub has_prefix : String → String → Bool
unfolding strip_prefix
has_prefix s p = elim (strip_prefix p s) [ none ↦ false | some _ ↦ true ]

abbrev pub extend : Char → Option (String × String) → Option (String × String)
extend c none = none
extend c (some (before, after)) = some (String.◌∷◌ c before, after)

-- i := strings.Index(s, p): what stands before and behind the first occurrence, s[:i] and
-- s[i+len(p):]
unfoldable pub cut : String → String → Option (String × String)
unfolding strip_prefix
cut p String.[] = elim (strip_prefix p "") [ some rest ↦ some ("", rest) | none ↦ none ]
cut p (String.◌∷◌ c s) =
    let later = extend c (cut p s) in
    elim (strip_prefix p (String.◌∷◌ c s)) [ some rest ↦ some ("", rest) | none ↦ later ]

-- strings.Contains(s, p)
unfoldable pub contains : String → String → Bool
unfolding cut
contains s p = elim (cut p s) [ none ↦ false | some _ ↦ true ]

-- What is cut out of a text is there.
strip_prefix-append : (p s rest : String) → strip_prefix p s ≡ some rest → s ≡ append p rest
unfolding strip_prefix append
strip_prefix-append String.[] s rest h = ground arith
strip_prefix-append (String.◌∷◌ p ps) String.[] rest h = cc
strip_prefix-append (String.◌∷◌ p ps) (String.◌∷◌ c s) rest h =
    elim (Bool-cases (eqb (code p) (code c))) [
      | inl e ↦
          ap₂ (String.◌∷◌) (Char-path c p (ground arith))
            (strip_prefix-append ps s rest (rw e at h))
      | inr e ↦ absurd (cc (rw e at h))
    ]

append-empty : (b t : String) → b ≡ "" → append b t ≡ t
unfolding append
append-empty b t e = rw e

pub cut-append :
    (p s before after : String)
    → cut p s ≡ some (before, after)
    → s ≡ append before (append p after)
unfolding cut append
cut-append p String.[] before after h = elim (Option-cases (strip_prefix p "")) [
  | inl e ↦ ground arith
  | inr (rest, e) ↦
      ground (arith, strip_prefix-append p "" rest e, append-empty before (append p after))
]
cut-append p (String.◌∷◌ c s) before after h =
    elim (Option-cases (strip_prefix p (String.◌∷◌ c s))) [
      | inr (rest, e) ↦ ground (
        arith,
        strip_prefix-append p (String.◌∷◌ c s) rest e,
        append-empty before (append p after),
      )
      | inl e ↦ elim (Option-cases (cut p s)) [
        | inl f ↦ ground arith
        | inr (x, f) ↦ ground (arith, cut-append p s x.0 x.1 f)
      ]
    ]

-- strings.TrimSuffix, for a suffix that is not empty
unfoldable pub trim_suffix : String → String → String
trim_suffix suffix String.[] = ""
trim_suffix suffix (String.◌∷◌ c s) =
    let rest = String.◌∷◌ c (trim_suffix suffix s) in if String.◌∷◌ c s == suffix then "" else rest

-- strings.HasSuffix(s, p)
unfoldable pub has_suffix : String → String → Bool
has_suffix String.[] p = p == ""
has_suffix (String.◌∷◌ c s) p = String.◌∷◌ c s == p || has_suffix s p

-- strings.Trim(s, "=") and its kind: the text without the character, given by its code, at both ends
unfoldable pub trim_char_left : ℕ → String → String
trim_char_left k String.[] = ""
trim_char_left k (String.◌∷◌ c s) =
    let rest = trim_char_left k s in if eqb (code c) k then rest else String.◌∷◌ c s

unfoldable pub trim_char_right : ℕ → String → String
trim_char_right k String.[] = ""
trim_char_right k (String.◌∷◌ c s) =
    let rest = trim_char_right k s in if eqb (code c) k && rest == "" then "" else String.◌∷◌ c rest
