-- ===== src/Prelude/Text.antt =====
-- Go's `string`, as the native text. `concat` is `+`; the walks over a text go by its characters.
use Prim.Native.String.{String}
use Prim.Native.Nat.{ℕ, zero, suc, ◌+◌, ◌/◌, ◌%◌}
use mathlib.Core.Path.{◌≡◌, refl, ap}
use mathlib.Core.List.{List, [], ◌∷◌}
use we_term.Prelude.Tests.{eqb, if◌then◌else◌, leb}
use we_term.Prelude.Int.{ℤ, pos, negsuc}

-- s + t
unfoldable pub append : String → String → String
append String.[] t = t
append (String.◌∷◌ c s) t = String.◌∷◌ c (append s t)

-- a + b + …
unfoldable pub concat : List String → String
unfolding append
concat [] = ""
concat (s ∷ ss) = append s (concat ss)

-- the number of characters, by the clauses of a text
abbrev pub size : String → ℕ
size String.[] = 0
size (String.◌∷◌ c s) = suc (size s)

abbrev pub digit : ℕ → String
digit n =
    if eqb n 0
    then "0"
    else if eqb n 1
    then "1"
    else if eqb n 2
    then "2"
    else if eqb n 3
    then "3"
    else if eqb n 4
    then "4"
    else if eqb n 5
    then "5"
    else if eqb n 6
    then "6"
    else if eqb n 7
    then "7"
    else if eqb n 8
    then "8"
    else "9"

-- the decimal digits of `n` in front of `rest`; the fuel `n` is enough, since a division by ten
-- shrinks `n`
unfoldable pub decimal_onto : ℕ → ℕ → String → String
unfolding append
decimal_onto zero n rest = append (digit (n % 10)) rest
decimal_onto (suc fuel) n rest =
    let shown = append (digit (n % 10)) rest in
    let more = decimal_onto fuel (n / 10) shown in if leb n 9 then shown else more

-- strconv.Itoa, and `%d` of fmt.Sprintf
unfoldable pub itoa : ℤ → String
unfolding decimal_onto
itoa (pos n) = decimal_onto n n ""
itoa (negsuc n) = append "-" (decimal_onto n (n + 1) "")

pub append-nil : (s : String) → append s "" ≡ s
unfolding append
append-nil String.[] = refl
append-nil (String.◌∷◌ c s) = ap (String.◌∷◌ c) (append-nil s)

pub append_assoc : (s t u : String) → append (append s t) u ≡ append s (append t u)
unfolding append
append_assoc String.[] t u = refl
append_assoc (String.◌∷◌ c s) t u = ap (String.◌∷◌ c) (append_assoc s t u)

itoa_test : itoa (negsuc 1029) ≡ "-1030"
unfolding itoa
itoa_test = refl
