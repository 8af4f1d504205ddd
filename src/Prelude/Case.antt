-- ===== src/Prelude/Case.antt =====
-- strings.Contains(strings.ToLower(s), p) and its upper case twin, on the codes of the characters.
-- Only what becomes ASCII is folded, since the texts looked for are ASCII.
use Prim.Native.Char.{code}
use we_term.Prelude.{
  Bool, String, eqb, false, if◌then◌else◌, leb, refl, true, ℕ, ◌&&◌, ◌+◌, ◌-◌, ◌||◌, ◌≡◌,
}

-- unicode.ToLower, where the result is ASCII: A to Z, U+0130 and U+212A
abbrev pub lower_code : ℕ → ℕ
lower_code n =
    if leb 65 n && leb n 90
    then n + 32
    else if eqb n 304
    then 105
    else if eqb n 8490
    then 107
    else n

-- unicode.ToUpper, where the result is ASCII: a to z, U+0131 and U+017F
abbrev pub upper_code : ℕ → ℕ
upper_code n =
    if leb 97 n && leb n 122 then n - 32 else if eqb n 305 then 73 else if eqb n 383 then 83 else n

-- the folded text starts with the pattern
unfoldable pub starts_folded : (ℕ → ℕ) → String → String → Bool
starts_folded fold String.[] s = true
starts_folded fold (String.◌∷◌ p ps) String.[] = false
starts_folded fold (String.◌∷◌ p ps) (String.◌∷◌ c s) =
    eqb (code p) (fold (code c)) && starts_folded fold ps s

-- the pattern occurs in the folded text
unfoldable pub contains_folded : (ℕ → ℕ) → String → String → Bool
unfolding starts_folded
contains_folded fold String.[] p = starts_folded fold p ""
contains_folded fold (String.◌∷◌ c s) p =
    starts_folded fold p (String.◌∷◌ c s) || contains_folded fold s p

-- strings.EqualFold(s, name) for an ASCII name: besides the letters of the other case, U+017F folds
-- to s and U+212A to k
abbrev fold_code : ℕ → ℕ
fold_code n = if eqb n 383 then 115 else if eqb n 304 then n else lower_code n

unfoldable pub equal_fold : String → String → Bool
equal_fold String.[] String.[] = true
equal_fold String.[] (String.◌∷◌ d t) = false
equal_fold (String.◌∷◌ c s) String.[] = false
equal_fold (String.◌∷◌ c s) (String.◌∷◌ d t) =
    eqb (fold_code (code c)) (lower_code (code d)) && equal_fold s t

contains_folded_test :
    contains_folded lower_code "dial: Connection Refused" "connection refused" ≡ true
unfolding contains_folded starts_folded
contains_folded_test = refl
