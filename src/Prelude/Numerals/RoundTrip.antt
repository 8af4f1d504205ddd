-- ===== src/Prelude/Numerals/RoundTrip.antt =====
-- What `itoa` prints, the parsers read back.
use Prim.Native.Char.{Char, code}
use we_term.Prelude.{
  Bool, Bool-cases, String, ap, arith, eq_iff, eqb, false, if◌then◌else◌, inl, inr, leb, not, refl,
  some, suc, sym, true, zero, ℕ, ◌%◌, ◌&&◌, ◌*◌, ◌+◌, ◌/◌, ◌<◌, ◌==◌, ◌^◌, ◌∙◌, ◌≡◌, ◌≤◌, ◌⊎◌,
}
use we_term.Prelude.Int.{pos}
use we_term.Prelude.Numerals.{digit_value, digits, digits_onto, parse_uint}
use we_term.Prelude.Text.{append, decimal_onto, digit, itoa}

-- a decimal digit is one of ten
small :
    (d : ℕ)
    → d < 10
    → (d ≡ 0)
      ⊎ ((d ≡ 1)
          ⊎ ((d ≡ 2)
              ⊎ ((d ≡ 3) ⊎ ((d ≡ 4) ⊎ ((d ≡ 5) ⊎ ((d ≡ 6) ⊎ ((d ≡ 7) ⊎ ((d ≡ 8) ⊎ ((d ≡ 9))))))))))
small d h = ground arith

digits_onto-digit :
    (m d : ℕ) (rest : String)
    → d < 10
    → digits_onto m (append (digit d) rest) ≡ digits_onto (10 * m + d) rest
unfolding digits_onto append
digits_onto-digit m d rest h = elim (small d h) [
  | inl e ↦ rw e refl
  | inr (inl e) ↦ rw e refl
  | inr (inr (inl e)) ↦ rw e refl
  | inr (inr (inr (inl e))) ↦ rw e refl
  | inr (inr (inr (inr (inl e)))) ↦ rw e refl
  | inr (inr (inr (inr (inr (inl e))))) ↦ rw e refl
  | inr (inr (inr (inr (inr (inr (inl e)))))) ↦ rw e refl
  | inr (inr (inr (inr (inr (inr (inr (inl e))))))) ↦ rw e refl
  | inr (inr (inr (inr (inr (inr (inr (inr (inl e)))))))) ↦ rw e refl
  | inr (inr (inr (inr (inr (inr (inr (inr (inr (e))))))))) ↦ rw e refl
]

digits_onto-decimal_onto :
    (fuel n : ℕ) (rest : String)
    → n ≤ fuel
    → digits_onto 0 (decimal_onto fuel n rest) ≡ digits_onto n rest
unfolding decimal_onto
digits_onto-decimal_onto zero n rest h =
    digits_onto-digit 0 (n % 10) rest (omega arith) ∙ ap (λ k. digits_onto k rest) (omega arith)
digits_onto-decimal_onto (suc fuel) n rest h = elim (Bool-cases (leb n 9)) [
  | inl e ↦ rw e (
      digits_onto-digit 0 (n % 10) rest (omega arith) ∙ ap (λ k. digits_onto k rest) (ground arith))
  | inr e ↦ rw e (
      digits_onto-decimal_onto fuel (n / 10) (append (digit (n % 10)) rest) (ground arith)
      ∙ digits_onto-digit (n / 10) (n % 10) rest (omega arith)
      ∙ ap (λ k. digits_onto k rest) (omega arith))
]

-- no character of the text is the one with this code
abbrev pub has_no : ℕ → String → Bool
has_no k String.[] = true
has_no k (String.◌∷◌ c s) = not (eqb (code c) k) && has_no k s

has_no-digit :
    (k d : ℕ) (rest : String)
    → d < 10
    → k < 48
    → has_no k rest ≡ true
    → has_no k (append (digit d) rest) ≡ true
unfolding append
has_no-digit k d rest h l r = elim (small d h) [
  | inl e ↦ rw e (ground arith)
  | inr (inl e) ↦ rw e (ground arith)
  | inr (inr (inl e)) ↦ rw e (ground arith)
  | inr (inr (inr (inl e))) ↦ rw e (ground arith)
  | inr (inr (inr (inr (inl e)))) ↦ rw e (ground arith)
  | inr (inr (inr (inr (inr (inl e))))) ↦ rw e (ground arith)
  | inr (inr (inr (inr (inr (inr (inl e)))))) ↦ rw e (ground arith)
  | inr (inr (inr (inr (inr (inr (inr (inl e))))))) ↦ rw e (ground arith)
  | inr (inr (inr (inr (inr (inr (inr (inr (inl e)))))))) ↦ rw e (ground arith)
  | inr (inr (inr (inr (inr (inr (inr (inr (inr (e))))))))) ↦ rw e (ground arith)
]

has_no-decimal_onto :
    (k fuel n : ℕ) (rest : String)
    → k < 48
    → has_no k rest ≡ true
    → has_no k (decimal_onto fuel n rest) ≡ true
unfolding decimal_onto
has_no-decimal_onto k zero n rest l r = has_no-digit k (n % 10) rest (omega arith) l r
has_no-decimal_onto k (suc fuel) n rest l r = elim (Bool-cases (leb n 9)) [
  | inl e ↦ rw e (has_no-digit k (n % 10) rest (omega arith) l r)
  | inr e ↦ rw e (
      has_no-decimal_onto k fuel (n / 10) (append (digit (n % 10)) rest) l
        (has_no-digit k (n % 10) rest (omega arith) l r))
]

-- the digits of a number hold no character below '0'
pub has_no-itoa : (k n : ℕ) → k < 48 → has_no k (itoa (pos n)) ≡ true
unfolding itoa
has_no-itoa k n l = has_no-decimal_onto k n n "" l refl

-- a printed number has a digit: nothing is read from the empty text but 0
not_empty-decimal_onto : (n : ℕ) → (decimal_onto n n "" == "") ≡ false
unfolding decimal_onto append digits_onto
not_empty-decimal_onto zero = refl
not_empty-decimal_onto (suc n) = elim (Bool-cases (decimal_onto (suc n) (suc n) "" == "")) [
  | inr e ↦ e
  | inl e ↦
      let none_read : digits_onto 0 "" ≡ some (suc n) =
        ap (digits_onto 0) (sym ((eq_iff (decimal_onto (suc n) (suc n) "") "").0 e))
        ∙ digits_onto-decimal_onto (suc n) (suc n) "" (omega arith) in
      absurd (ground arith)
]

-- strconv.ParseUint reads back what is printed of a number in its range.
pub parse_uint-itoa : (n : ℕ) → n < 2 ^ 64 → parse_uint (itoa (pos n)) ≡ some n
unfolding parse_uint digits itoa digits_onto
parse_uint-itoa n h =
    rw (not_empty-decimal_onto n)
      (rw (digits_onto-decimal_onto n n "" (omega arith)) (ground arith))

-- the character of a decimal digit
unfoldable pub digit_char : ℕ → Char
digit_char n =
    if eqb n 0
    then "0"
    else if eqb n 1
    then "1"
    else if eqb n 2
    then "2"
    else if eqb n 3
    then "3"
    else if eqb n 4
    then "4"
    else if eqb n 5
    then "5"
    else if eqb n 6
    then "6"
    else if eqb n 7
    then "7"
    else if eqb n 8
    then "8"
    else "9"

pub digit-digit_char : (d : ℕ) → d < 10 → digit d ≡ String.◌∷◌ (digit_char d) ""
unfolding digit_char
digit-digit_char d h = elim (small d h) [
  | inl e ↦ rw e refl
  | inr (inl e) ↦ rw e refl
  | inr (inr (inl e)) ↦ rw e refl
  | inr (inr (inr (inl e))) ↦ rw e refl
  | inr (inr (inr (inr (inl e)))) ↦ rw e refl
  | inr (inr (inr (inr (inr (inl e))))) ↦ rw e refl
  | inr (inr (inr (inr (inr (inr (inl e)))))) ↦ rw e refl
  | inr (inr (inr (inr (inr (inr (inr (inl e))))))) ↦ rw e refl
  | inr (inr (inr (inr (inr (inr (inr (inr (inl e)))))))) ↦ rw e refl
  | inr (inr (inr (inr (inr (inr (inr (inr (inr (e))))))))) ↦ rw e refl
]

pub digit_value-digit_char : (d : ℕ) → d < 10 → digit_value (digit_char d) ≡ some d
unfolding digit_char
digit_value-digit_char d h = elim (small d h) [
  | inl e ↦ rw e refl
  | inr (inl e) ↦ rw e refl
  | inr (inr (inl e)) ↦ rw e refl
  | inr (inr (inr (inl e))) ↦ rw e refl
  | inr (inr (inr (inr (inl e)))) ↦ rw e refl
  | inr (inr (inr (inr (inr (inl e))))) ↦ rw e refl
  | inr (inr (inr (inr (inr (inr (inl e)))))) ↦ rw e refl
  | inr (inr (inr (inr (inr (inr (inr (inl e))))))) ↦ rw e refl
  | inr (inr (inr (inr (inr (inr (inr (inr (inl e)))))))) ↦ rw e refl
  | inr (inr (inr (inr (inr (inr (inr (inr (inr (e))))))))) ↦ rw e refl
]
