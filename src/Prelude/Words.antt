-- ===== src/Prelude/Words.antt =====
-- The splitting and trimming of package strings.
use Prim.Native.Char.{Char, code}
use we_term.Prelude.{
  Bool, Bool-cases, List, String, [], arith, eqb, false, if◌then◌else◌, inl, inr, leb, refl, ℕ,
  ◌&&◌, ◌==◌, ◌||◌, ◌∷◌, ◌≡◌,
}

-- unicode.IsSpace
unfoldable pub is_space : Char → Bool
is_space c =
    leb 9 (code c) && leb (code c) 13
    || eqb (code c) 32
    || eqb (code c) 133
    || eqb (code c) 160
    || eqb (code c) 5760
    || leb 8192 (code c) && leb (code c) 8202
    || eqb (code c) 8232
    || eqb (code c) 8233
    || eqb (code c) 8239
    || eqb (code c) 8287
    || eqb (code c) 12288

unfoldable trim_left : String → String
trim_left String.[] = ""
trim_left (String.◌∷◌ c s) = let rest = trim_left s in if is_space c then rest else String.◌∷◌ c s

unfoldable trim_right : String → String
trim_right String.[] = ""
trim_right (String.◌∷◌ c s) =
    let rest = trim_right s in if is_space c && rest == "" then "" else String.◌∷◌ c rest

-- strings.TrimSpace
unfoldable pub trim_space : String → String
unfolding trim_left trim_right
trim_space s = trim_right (trim_left s)

abbrev pub glue : Char → List String → List String
glue c [] = String.◌∷◌ c "" ∷ []
glue c (w ∷ ws) = String.◌∷◌ c w ∷ ws

-- strings.Split, for a separator of one ASCII character, by its code
unfoldable pub split_on : ℕ → String → List String
split_on sep String.[] = "" ∷ []
split_on sep (String.◌∷◌ c s) =
    let rest = split_on sep s in if eqb (code c) sep then "" ∷ rest else glue c rest

abbrev starts_with_space : String → Bool
starts_with_space String.[] = false
starts_with_space (String.◌∷◌ c s) = is_space c

abbrev pub ends_with_space : String → Bool
ends_with_space String.[] = false
ends_with_space (String.◌∷◌ c s) = if s == "" then is_space c else ends_with_space s

-- Neither the first nor the last character of the text is a space.
abbrev pub Trimmed : String → Type 0
Trimmed s = (starts_with_space s ≡ false) × (ends_with_space s ≡ false)

trim_left-starts : (s : String) → starts_with_space (trim_left s) ≡ false
unfolding trim_left
trim_left-starts String.[] = refl
trim_left-starts (String.◌∷◌ c s) = ground (arith, trim_left-starts s)

trim_right-ends : (s : String) → ends_with_space (trim_right s) ≡ false
unfolding trim_right
trim_right-ends String.[] = refl
trim_right-ends (String.◌∷◌ c s) = elim (Bool-cases (is_space c && trim_right s == "")) [
  | inl e ↦ rw e refl
  | inr e ↦ elim (Bool-cases (trim_right s == "")) [
    | inl f ↦ rw e (rw f (ground arith))
    | inr f ↦ rw e (rw f (trim_right-ends s))
  ]
]

trim_right-starts :
    (s : String) → starts_with_space s ≡ false → starts_with_space (trim_right s) ≡ false
unfolding trim_right
trim_right-starts String.[] h = refl
trim_right-starts (String.◌∷◌ c s) h = ground arith

pub trim_space-Trimmed : (s : String) → Trimmed (trim_space s)
unfolding trim_space
trim_space-Trimmed s =
    (trim_right-starts (trim_left s) (trim_left-starts s), trim_right-ends (trim_left s))
