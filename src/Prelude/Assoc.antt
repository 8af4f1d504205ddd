-- ===== src/Prelude/Assoc.antt =====
-- Go maps with string keys as association lists: a write replaces the entry of its key.
use we_term.Prelude.{
  List, Option, String, [], arith, eq_iff, if◌then◌else◌, none, refl, some, ◌==◌, ◌∷◌, ◌≡◌,
}

module _ {ℓ} {V : Type ℓ} where
  -- v, ok := m[k]
  unfoldable pub lookup : String → List (String × V) → Option V
  lookup key [] = none
  lookup key ((name, value) ∷ entries) =
      let behind = lookup key entries in if name == key then some value else behind

  -- m[k] = v
  unfoldable pub insert : String → V → List (String × V) → List (String × V)
  insert key new [] = (key, new) ∷ []
  insert key new ((name, value) ∷ entries) =
      let behind = insert key new entries in
      if name == key then (key, new) ∷ entries else (name, value) ∷ behind

  -- m[k], with the zero value for a missing key
  unfoldable pub lookup_or : V → String → List (String × V) → V
  unfolding lookup
  lookup_or d k m = elim (lookup k m) [ none ↦ d | some v ↦ v ]

  -- a read behind a write
  pub lookup-insert :
      (written read : String) (new : V) (entries : List (String × V))
      → lookup read (insert written new entries)
        ≡ (if written == read then some new else lookup read entries)
  unfolding insert lookup
  lookup-insert written read new [] = refl
  lookup-insert written read new (entry ∷ entries) = ground (
    arith,
    lookup-insert written read new entries,
    eq_iff entry.0 read,
    eq_iff entry.0 written,
    eq_iff written read,
  )

-- a read of a map with a default is a read of the map
module _ {ℓ} {V : Type ℓ} where
  pub lookup_or-insert :
      (d : V) (k j : String) (v : V) (m : List (String × V))
      → lookup_or d j (insert k v m) ≡ (if k == j then v else lookup_or d j m)
  unfolding lookup_or
  lookup_or-insert d k j v m = ground (arith, lookup-insert k j v m)
