-- ===== src/Prelude/Sorting.antt =====
-- Sorted lists of distinct texts: one for each set of texts.
use mathlib.Core.Path.{ap₂}
use text.Mathlib.TextPositions.{eq_refl}
use we_term.Prelude.{
  Bool, Bool-cases, List, String, [], ap, arith, eq_iff, false, inl, inr, refl, sym, true, ◌==◌,
  ◌||◌, ◌∙◌, ◌∷◌, ◌≡◌, ◌≢◌,
}
use we_term.Prelude.Order.{
  insert_by, sort_by, text_leb, text_leb-antisym, text_leb-total, text_leb_trans,
}

abbrev pub mem : String → List String → Bool
mem k [] = false
mem k (j ∷ js) = j == k || mem k js

abbrev pub Distinct : List String → Type 0
Distinct [] = Unit
Distinct (k ∷ ks) = (mem k ks ≡ false) × Distinct ks

-- `x` stands strictly before every text of the list.
abbrev Before : String → List String → Type 0
Before x ys = (k : String) → mem k ys ≡ true → (text_leb x k ≡ true) × (x ≢ k)

abbrev StrictlySorted : List String → Type 0
StrictlySorted [] = Unit
StrictlySorted (x ∷ xs) = Before x xs × StrictlySorted xs

mem-insert_by :
    (k x : String) (ys : List String) → mem k (insert_by text_leb x ys) ≡ (x == k || mem k ys)
unfolding insert_by
mem-insert_by k x [] = refl
mem-insert_by k x (y ∷ ys) = ground (arith, mem-insert_by k x ys)

pub mem-sort_by : (k : String) (ks : List String) → mem k (sort_by text_leb ks) ≡ mem k ks
unfolding sort_by
mem-sort_by k [] = refl
mem-sort_by k (x ∷ xs) = ground (arith, mem-insert_by k x (sort_by text_leb xs), mem-sort_by k xs)

not-mem-ne : (x k : String) (ys : List String) → mem x ys ≡ false → mem k ys ≡ true → x ≢ k
not-mem-ne x k ys h m e = cc (rw e at h)

Before-cons_le :
    (x y : String) (ys : List String)
    → text_leb x y ≡ true
    → mem x (y ∷ ys) ≡ false
    → Before y ys
    → Before x (y ∷ ys)
Before-cons_le x y ys l n b k m = (le, not-mem-ne x k (y ∷ ys) n m)
  where
    le : text_leb x k ≡ true
    le = elim (Bool-cases (mem k ys)) [
      | inl i ↦ text_leb_trans x y k l (b k i).0
      | inr o ↦ rw (← (eq_iff y k).0 (ground arith)) l
    ]

Before-insert_by :
    (x y : String) (ys : List String)
    → text_leb y x ≡ true
    → y ≢ x
    → Before y ys
    → Before y (insert_by text_leb x ys)
Before-insert_by x y ys l n b k m = elim (Bool-cases (x == k)) [
  | inl e ↦ let e' : x ≡ k = (eq_iff x k).0 e in (rw (← e') l, rw (← e') n)
  | inr o ↦ b k (ground (arith, mem-insert_by k x ys))
]

insert_by-StrictlySorted :
    (x : String) (ys : List String)
    → mem x ys ≡ false
    → StrictlySorted ys
    → StrictlySorted (insert_by text_leb x ys)
unfolding insert_by
insert_by-StrictlySorted x [] n s = ((λ k m. absurd (ground arith)), tt)
insert_by-StrictlySorted x (y ∷ ys) n s = elim (Bool-cases (text_leb x y)) [
  | inl l ↦ rw l (Before-cons_le x y ys l n s.0, s)
  | inr g ↦ rw g (
    Before-insert_by x y ys (ground (arith, text_leb-total x y))
        (λ e. ground (arith, (eq_iff y x).1 e)) s.0,
    insert_by-StrictlySorted x ys (ground arith) s.1,
  )
]

pub sort_by-StrictlySorted : (ks : List String) → Distinct ks → StrictlySorted (sort_by text_leb ks)
unfolding sort_by
sort_by-StrictlySorted [] d = tt
sort_by-StrictlySorted (x ∷ xs) d =
    insert_by-StrictlySorted x (sort_by text_leb xs) (mem-sort_by x xs ∙ d.0)
      (sort_by-StrictlySorted xs d.1)

head-mem : (x : String) (xs : List String) → mem x (x ∷ xs) ≡ true
head-mem x xs = rw (eq_refl x)

-- The heads of two such lists with the same members are one text.
same_head :
    (x y : String) (xs ys : List String)
    → Before x xs
    → Before y ys
    → mem x (x ∷ xs) ≡ mem x (y ∷ ys)
    → mem y (x ∷ xs) ≡ mem y (y ∷ ys)
    → x ≡ y
same_head x y xs ys s t h k = elim (Bool-cases (y == x)) [
  | inl e ↦ sym ((eq_iff y x).0 e)
  | inr n ↦
      text_leb-antisym x y (s y (ground (arith, head-mem y ys, eq_iff x y, eq_iff y x))).0
        (t x (ground (arith, head-mem x xs))).0
]

not-mem-Before :
    (x k : String) (xs : List String) → Before x xs → (x == k) ≡ true → mem k xs ≡ false
not-mem-Before x k xs s e = elim (Bool-cases (mem k xs)) [
  | inl m ↦ absurd ((s k m).1 ((eq_iff x k).0 e))
  | inr m ↦ m
]

same_tail :
    (x k : String) (xs ys : List String)
    → Before x xs
    → Before x ys
    → mem k (x ∷ xs) ≡ mem k (x ∷ ys)
    → mem k xs ≡ mem k ys
same_tail x k xs ys s t h = elim (Bool-cases (x == k)) [
  | inl e ↦ not-mem-Before x k xs s e ∙ sym (not-mem-Before x k ys t e)
  | inr n ↦ ground arith
]

-- A strictly sorted list is determined by its members.
pub StrictlySorted-eq :
    (xs ys : List String)
    → StrictlySorted xs
    → StrictlySorted ys
    → ((k : String) → mem k xs ≡ mem k ys)
    → xs ≡ ys
StrictlySorted-eq [] [] s t h = refl
StrictlySorted-eq [] (y ∷ ys) s t h = cc (h y, head-mem y ys)
StrictlySorted-eq (x ∷ xs) [] s t h = cc (h x, head-mem x xs)
StrictlySorted-eq (x ∷ xs) (y ∷ ys) s t h =
    let e : x ≡ y = same_head x y xs ys s.0 t.0 (h x) (h y) in
    ap₂ ◌∷◌ e (
      StrictlySorted-eq xs ys s.1 t.1
        (λ k. same_tail x k xs ys s.0 (rw e t.0) (h k ∙ ap (λ z. mem k (z ∷ ys)) (sym e))))
