-- ===== src/Notify/Signature/Set.antt =====
-- The signature is a function of the set of alert keys.
use text.Mathlib.TextPositions.{eq_refl}
use we_term.Notify.Item.{AlertItem}
use we_term.Notify.Signature.{add_key, hash_input, seen_keys, signature, signature_key}
use we_term.Prelude.{
  Bool, List, String, [], ap, arith, eq_iff, false, if◌then◌else◌, is_empty, refl, sym, ◌==◌, ◌||◌,
  ◌∙◌, ◌∷◌, ◌≡◌,
}
use we_term.Prelude.Order.{sort_by, text_leb}
use we_term.Prelude.Sorting.{Distinct, StrictlySorted-eq, mem, mem-sort_by, sort_by-StrictlySorted}
use mathlib.Core.Path.{ap₂}

mem-add_key : (k j : String) (ks : List String) → mem k (add_key j ks) ≡ (j == k || mem k ks)
unfolding add_key
mem-add_key k j [] = refl
mem-add_key k j (i ∷ ks) = ground (arith, mem-add_key k j ks, eq_iff i j, eq_iff i k, eq_iff j k)

add_key-Distinct : (j : String) (ks : List String) → Distinct ks → Distinct (add_key j ks)
unfolding add_key
add_key-Distinct j [] d = (refl, tt)
add_key-Distinct j (i ∷ ks) d =
    ground (arith, add_key-Distinct j ks d.1, mem-add_key i j ks, eq_iff i j, eq_iff j i)

-- Some alert has this signature key.
abbrev pub has_signature_key : String → List AlertItem → Bool
has_signature_key k [] = false
has_signature_key k (a ∷ items) = signature_key a == k || has_signature_key k items

mem-seen_keys :
    (k : String) (items : List AlertItem) (ks : List String)
    → mem k (seen_keys items ks) ≡ (has_signature_key k items || mem k ks)
unfolding seen_keys
mem-seen_keys k [] ks = refl
mem-seen_keys k (a ∷ items) ks = ground (
  arith,
  mem-seen_keys k items (add_key (signature_key a) ks),
  mem-add_key k (signature_key a) ks,
)

seen_keys-Distinct :
    (items : List AlertItem) (ks : List String) → Distinct ks → Distinct (seen_keys items ks)
unfolding seen_keys
seen_keys-Distinct [] ks d = d
seen_keys-Distinct (a ∷ items) ks d =
    seen_keys-Distinct items _ (add_key-Distinct (signature_key a) ks d)

sorted_keys : List AlertItem → List String
sorted_keys items = sort_by text_leb (seen_keys items [])

sorted_keys-eq :
    (items items' : List AlertItem)
    → ((k : String) → has_signature_key k items ≡ has_signature_key k items')
    → sorted_keys items ≡ sorted_keys items'
unfolding sorted_keys
sorted_keys-eq items items' h =
    StrictlySorted-eq _ _ (sort_by-StrictlySorted _ (seen_keys-Distinct items [] tt))
      (sort_by-StrictlySorted _ (seen_keys-Distinct items' [] tt))
      λ k.
        mem-sort_by k (seen_keys items [])
        ∙ mem-seen_keys k items []
        ∙ ap (λ b. b || false) (h k)
        ∙ sym (mem-sort_by k (seen_keys items' []) ∙ mem-seen_keys k items' [])

same_emptiness :
    (items items' : List AlertItem)
    → ((k : String) → has_signature_key k items ≡ has_signature_key k items')
    → is_empty items ≡ is_empty items'
same_emptiness [] [] h = refl
same_emptiness [] (a ∷ items') h = cc (h (signature_key a), eq_refl (signature_key a))
same_emptiness (a ∷ items) [] h = cc (h (signature_key a), eq_refl (signature_key a))
same_emptiness (a ∷ items) (b ∷ items') h = refl

-- Two lists of alerts with the same set of keys (host, normalised field) have the same signature:
-- order, repetitions, values and thresholds do not count.
pub signature_of_keys :
    (digest : String → String) (items items' : List AlertItem)
    → ((k : String) → has_signature_key k items ≡ has_signature_key k items')
    → signature digest items ≡ signature digest items'
unfolding signature sorted_keys
signature_of_keys digest items items' h =
    ap₂ (λ b ks. if b then "" else digest (hash_input ks)) (same_emptiness items items' h)
      (sorted_keys-eq items items' h)
