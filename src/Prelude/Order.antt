-- ===== src/Prelude/Order.antt =====
-- Go's `<` on strings, and sorting. The order of UTF-8 bytes is the order of code points.
use Prim.Native.Char.{code}
use we_term.Prelude.{
  Bool, List, String, [], arith, eqb, false, if◌then◌else◌, ltb, refl, true, ◌&&◌, ◌||◌, ◌∷◌, ◌≡◌,
}
use mathlib.Core.Path.{ap₂}
use text.Mathlib.TextEquality.{Char-path}

-- s <= t
unfoldable pub text_leb : String → String → Bool
text_leb String.[] t = true
text_leb (String.◌∷◌ c s) String.[] = false
text_leb (String.◌∷◌ c s) (String.◌∷◌ d t) =
    ltb (code c) (code d) || (eqb (code c) (code d) && text_leb s t)

-- Insertion sort by a test for "at most".
unfoldable pub insert_by {ℓ} : {A : Type ℓ} → (A → A → Bool) → A → List A → List A
insert_by le x [] = x ∷ []
insert_by le x (y ∷ ys) = if le x y then x ∷ y ∷ ys else y ∷ insert_by le x ys

unfoldable pub sort_by {ℓ} : {A : Type ℓ} → (A → A → Bool) → List A → List A
unfolding insert_by
sort_by le [] = []
sort_by le (x ∷ xs) = insert_by le x (sort_by le xs)

pub text_leb-total : (s t : String) → (text_leb s t || text_leb t s) ≡ true
unfolding text_leb
text_leb-total String.[] t = refl
text_leb-total (String.◌∷◌ c s) String.[] = refl
text_leb-total (String.◌∷◌ c s) (String.◌∷◌ d t) = ground (arith, text_leb-total s t)

pub text_leb_trans :
    (s t u : String) → text_leb s t ≡ true → text_leb t u ≡ true → text_leb s u ≡ true
unfolding text_leb
text_leb_trans String.[] t u h k = refl
text_leb_trans (String.◌∷◌ c s) String.[] u h k = cc
text_leb_trans (String.◌∷◌ c s) (String.◌∷◌ d t) String.[] h k = cc
text_leb_trans (String.◌∷◌ c s) (String.◌∷◌ d t) (String.◌∷◌ e u) h k =
    ground (arith, text_leb_trans s t u)

pub text_leb-antisym : (s t : String) → text_leb s t ≡ true → text_leb t s ≡ true → s ≡ t
unfolding text_leb
text_leb-antisym String.[] String.[] h k = refl
text_leb-antisym String.[] (String.◌∷◌ d t) h k = cc
text_leb-antisym (String.◌∷◌ c s) String.[] h k = cc
text_leb-antisym (String.◌∷◌ c s) (String.◌∷◌ d t) h k =
    ap₂ (String.◌∷◌) (Char-path c d (ground arith))
      (text_leb-antisym s t (ground arith) (ground arith))
