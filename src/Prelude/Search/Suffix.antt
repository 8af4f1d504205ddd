-- ===== src/Prelude/Search/Suffix.antt =====
-- What is put at the end of a text is found, cut off and taken from there.
use we_term.Prelude.{
  Bool-cases, String, ap, arith, eq_iff, eqb, false, inl, inr, refl, true, ◌+◌, ◌==◌, ◌≡◌,
}
use we_term.Prelude.Search.{has_suffix, trim_suffix}
use we_term.Prelude.Text.{append, size}
use text.Mathlib.TextPositions.{eq_refl}

pub size-append : (s t : String) → size (append s t) ≡ size s + size t
unfolding append
size-append String.[] t = omega arith
size-append (String.◌∷◌ c s) t = omega (arith, size-append s t)

-- a text of another size is another one
size_differs : (s t : String) → eqb (size s) (size t) ≡ false → (s == t) ≡ false
size_differs s t h = elim (Bool-cases (s == t)) [
  | inr e ↦ e
  | inl e ↦ let same : size s ≡ size t = ap size ((eq_iff s t).0 e) in absurd (ground arith)
]

pub has_suffix-append : (s p : String) → has_suffix (append s p) p ≡ true
unfolding has_suffix append
has_suffix-append String.[] String.[] = refl
has_suffix-append String.[] (String.◌∷◌ c p) = simp (eq_refl (String.◌∷◌ c p)) refl
has_suffix-append (String.◌∷◌ c s) p = ground (arith, has_suffix-append s p)

pub trim_suffix-append : (s p : String) → eqb (size p) 0 ≡ false → trim_suffix p (append s p) ≡ s
unfolding trim_suffix append
trim_suffix-append String.[] String.[] h = refl
trim_suffix-append String.[] (String.◌∷◌ c p) h = simp (eq_refl (String.◌∷◌ c p)) refl
trim_suffix-append (String.◌∷◌ c s) p h =
    simp (size_differs (String.◌∷◌ c (append s p)) p (ground (arith, size-append s p)))
      (ap (String.◌∷◌ c) (trim_suffix-append s p h))
