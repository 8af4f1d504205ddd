-- ===== src/Prelude/Attempt.antt =====
-- A Go result with an error, `(A, error)`, where the caller stops at the first error.
use we_term.Prelude.{Bool, false, refl, true, ◌≡◌}

pub data Attempt {ℓ κ} (E : Type κ) (A : Type ℓ) : Type (ℓ ⊔ κ) where
  fail : E → Attempt E A
  done : A → Attempt E A

infixl 5 ◌>>=◌
abbrev pub ◌>>=◌ {ℓ κ} :
    {A : Type ℓ} {B : Type κ} {E : Type 0} → Attempt E A → (A → Attempt E B) → Attempt E B
done a >>= f = f a
fail e >>= f = fail e

abbrev pub is_done {ℓ} : {A : Type ℓ} {E : Type 0} → Attempt E A → Bool
is_done (done a) = true
is_done (fail e) = false

-- A step that went through gave a value, with which the rest went through.
pub >>=-done {ℓ κ} :
    {A : Type ℓ} {B : Type κ} {E : Type 0} (m : Attempt E A) (f : A → Attempt E B) {b : B}
    → (m >>= f) ≡ done b
    → (a : A) × (m ≡ done a) × (f a ≡ done b)
>>=-done (done a) f h = (a, refl, h)
>>=-done (fail e) f h = cc
