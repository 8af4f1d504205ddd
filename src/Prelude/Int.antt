-- ===== src/Prelude/Int.antt =====
-- Go's `int` as a signed integer over the native numbers. Ranges are stated where they matter.
use Prim.Native.Nat.{ℕ, suc, ◌+◌, ◌-◌, ◌*◌, ◌/◌, ◌%◌, ◌^◌}
use mathlib.Core.Bool.{Bool}
use we_term.Prelude.Tests.{ltb, leb, eqb, if◌then◌else◌}

-- `negsuc n` is -(n + 1).
pub data ℤ : Type 0 where
  pos : ℕ → ℤ
  negsuc : ℕ → ℤ

abbrev pub pos_part : ℤ → ℕ
pos_part (pos n) = n
pos_part (negsuc n) = 0

abbrev pub neg_part : ℤ → ℕ
neg_part (pos n) = 0
neg_part (negsuc n) = suc n

-- a - b, as an integer.
abbrev pub sub_ℕ : ℕ → ℕ → ℤ
sub_ℕ a b = if leb b a then pos (a - b) else negsuc (b - a - 1)

infixl 65 ◌+ℤ◌
unfoldable pub ◌+ℤ◌ : ℤ → ℤ → ℤ
a +ℤ b = sub_ℕ (pos_part a + pos_part b) (neg_part a + neg_part b)

-- a > b is `ltb_ℤ b a`, a >= b is `leb_ℤ b a`.
abbrev pub ltb_ℤ : ℤ → ℤ → Bool
ltb_ℤ a b = ltb (pos_part a + neg_part b) (pos_part b + neg_part a)

abbrev pub leb_ℤ : ℤ → ℤ → Bool
leb_ℤ a b = leb (pos_part a + neg_part b) (pos_part b + neg_part a)

abbrev pub eqb_ℤ : ℤ → ℤ → Bool
eqb_ℤ a b = eqb (pos_part a + neg_part b) (pos_part b + neg_part a)

infixl 70 ◌*ℤ◌
unfoldable pub ◌*ℤ◌ : ℤ → ℤ → ℤ
a *ℤ b =
    sub_ℕ (pos_part a * pos_part b + neg_part a * neg_part b)
      (pos_part a * neg_part b + neg_part a * pos_part b)

-- the int64 that the low 64 bits of an integer stand for
unfoldable pub wrap64 : ℤ → ℤ
wrap64 z =
    let low : ℕ = (pos_part z + (2 ^ 64 - neg_part z % 2 ^ 64)) % 2 ^ 64 in
    if ltb low (2 ^ 63) then pos low else negsuc (2 ^ 64 - low - 1)

-- a / n and a % n for n > 0, which Go rounds towards 0
abbrev pub quot_ℤ : ℤ → ℕ → ℤ
quot_ℤ (pos a) n = pos (a / n)
quot_ℤ (negsuc a) n = sub_ℕ 0 (suc a / n)

abbrev pub rem_ℤ : ℤ → ℕ → ℤ
rem_ℤ (pos a) n = pos (a % n)
rem_ℤ (negsuc a) n = sub_ℕ 0 (suc a % n)
