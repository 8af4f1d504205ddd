-- ===== src/Checker/Result/Loops.antt =====
-- Rules for the loops over slices.
use we_term.Checker.Result.{check_each}
use we_term.Model.Status.{CheckResult}
use we_term.Prelude.{
  All, All-append, Bool, List, [], arith, count_if, count_if-append, if◌then◌else◌, refl, ◌++◌, ◌+◌,
  ◌∷◌, ◌≡◌,
}

module _ {ℓ} {A : Type ℓ} (f : A → List CheckResult × A) where
  -- A loop whose body gives one result of a kind for the items of a class counts that class.
  pub count_if-check_each :
      (p : CheckResult → Bool) (q : A → Bool)
      → ((x : A) → count_if p (f x).0 ≡ (if q x then 1 else 0))
      → (xs : List A) → count_if p (check_each f xs).0 ≡ count_if q xs
  unfolding check_each
  count_if-check_each p q h [] = refl
  count_if-check_each p q h (x ∷ xs) =
      omega
        (arith, count_if-append p (f x).0 (check_each f xs).0, h x, count_if-check_each p q h xs)

  pub count_if-check_each_none :
      (p : CheckResult → Bool)
      → ((x : A) → count_if p (f x).0 ≡ 0)
      → (xs : List A) → count_if p (check_each f xs).0 ≡ 0
  unfolding check_each
  count_if-check_each_none p h [] = refl
  count_if-check_each_none p h (x ∷ xs) =
      omega
        (arith, count_if-append p (f x).0 (check_each f xs).0, h x, count_if-check_each_none p h xs)

  -- What holds of the results of each body holds of those of the loop.
  pub All-check_each {κ} :
      (P : CheckResult → Type κ)
      → ((x : A) → All P (f x).0)
      → (xs : List A) → All P (check_each f xs).0
  unfolding check_each
  All-check_each P h [] = tt
  All-check_each P h (x ∷ xs) =
      All-append P (f x).0 (check_each f xs).0 (h x) (All-check_each P h xs)

  -- A loop whose body does the same again when it is repeated does so too.
  pub check_each_idem :
      ((x : A) → f (f x).1 ≡ f x)
      → (xs : List A) → check_each f (check_each f xs).1 ≡ check_each f xs
  unfolding check_each
  check_each_idem h [] = refl
  check_each_idem h (x ∷ xs) = rw (h x) (rw (check_each_idem h xs) refl)

-- the count over five stretches of results
pub count_if-append_five {ℓ} :
    {A : Type ℓ} (p : A → Bool) (a b c d e : List A)
    → count_if p (a ++ (b ++ (c ++ (d ++ e))))
      ≡ count_if p a + count_if p b + count_if p c + count_if p d + count_if p e
count_if-append_five p a b c d e = omega (
  arith,
  count_if-append p a (b ++ (c ++ (d ++ e))),
  count_if-append p b (c ++ (d ++ e)),
  count_if-append p c (d ++ e),
  count_if-append p d e,
)
