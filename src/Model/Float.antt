-- ===== src/Model/Float.antt =====
-- Go's `float64` is abstract: a type with the operations of the language and of `fmt` and
-- `strconv` that the program uses. No law is assumed of them, so NaN and rounding are covered.
use we_term.Prelude.{Bool, String, ℕ}
use we_term.Prelude.Int.{ℤ}

pub record FloatOps (F : Type 0) : Type 0 where
  pub zero_float : F
  -- float64(i)
  pub of_int : ℤ → F
  -- a < b and a <= b; a > b is `less b a`, a >= b is `less_eq b a`
  pub less : F → F → Bool
  pub less_eq : F → F → Bool
  -- a == b
  pub equal : F → F → Bool
  -- a + b, a - b, a * b and a / b
  pub plus : F → F → F
  pub minus : F → F → F
  pub times : F → F → F
  pub over : F → F → F
  -- int(a)
  pub truncate : F → ℤ
  -- "%.Nf" of fmt.Sprintf
  pub show_fixed : ℕ → F → String
  -- strconv.FormatFloat(r, 'f', -1, 64)
  pub show_short : F → String
  -- strconv.ParseFloat(s, 64): the value returned, and whether the error is nil
  pub parse_float : String → F × Bool
