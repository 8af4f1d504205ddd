-- ===== src/Prelude/Numerals.antt =====
-- strconv.Atoi, which reads what `itoa` prints.
pub mod RoundTrip
use Prim.Native.Char.{Char, code}
use we_term.Prelude.{
  Option, String, eqb, if◌then◌else◌, leb, none, some, suc, zero, ℕ, ◌&&◌, ◌*◌, ◌+◌, ◌-◌, ◌==◌, ◌^◌,
}
use we_term.Prelude.Int.{negsuc, pos, ℤ}

-- the value of a decimal digit
abbrev pub digit_value : Char → Option ℕ
digit_value c = if leb 48 (code c) && leb (code c) 57 then some (code c - 48) else none

-- the loop over the digits, with the number read so far
unfoldable pub digits_onto : ℕ → String → Option ℕ
digits_onto n String.[] = some n
digits_onto n (String.◌∷◌ c s) = elim (digit_value c) [
  | none ↦ none
  | some d ↦ digits_onto (10 * n + d) s
]

-- one digit or more
unfoldable pub digits : String → Option ℕ
unfolding digits_onto
digits s = if s == "" then none else digits_onto 0 s

abbrev pub at_most : ℕ → Option ℕ → Option ℕ
at_most limit none = none
at_most limit (some n) = if leb n limit then some n else none

-- The number that a text names, or nothing: an optional sign, then digits, within the range of
-- int64.
unfoldable pub atoi : String → Option ℤ
unfolding digits
atoi String.[] = none
atoi (String.◌∷◌ c s) =
    if eqb (code c) 45
    then elim (at_most (2 ^ 63) (digits s)) [
      | none ↦ none
      | some zero ↦ some (pos zero)
      | some (suc n) ↦ some (negsuc n)
    ]
    else if eqb (code c) 43
    then elim (at_most (2 ^ 63 - 1) (digits s)) [ none ↦ none | some n ↦ some (pos n) ]
    else elim (at_most (2 ^ 63 - 1) (digits (String.◌∷◌ c s))) [
      | none ↦ none
      | some n ↦ some (pos n)
    ]

-- v, _ := strconv.Atoi(s): 0 where the text is no number, and the end of the range of int64 where
-- the number lies beyond it
abbrev clamp : ℕ → ℕ → ℕ
clamp limit n = if leb n limit then n else limit

unfoldable pub atoi_value : String → ℤ
unfolding digits
atoi_value String.[] = pos 0
atoi_value (String.◌∷◌ c s) =
    if eqb (code c) 45
    then elim (digits s) [
      | none ↦ pos 0
      | some zero ↦ pos zero
      | some (suc n) ↦ negsuc (clamp (2 ^ 63 - 1) n)
    ]
    else if eqb (code c) 43
    then elim (digits s) [ none ↦ pos 0 | some n ↦ pos (clamp (2 ^ 63 - 1) n) ]
    else elim (digits (String.◌∷◌ c s)) [ none ↦ pos 0 | some n ↦ pos (clamp (2 ^ 63 - 1) n) ]

-- strconv.ParseUint(s, 10, 64), with none for an error
unfoldable pub parse_uint : String → Option ℕ
unfolding digits
parse_uint s = at_most (2 ^ 64 - 1) (digits s)
