-- ===== src/Notify/Persistence/Filter.antt =====
-- What one pass of ApplyPersistence does, key by key.
use mathlib.Core.List.{append-nil, append_assoc}
use we_term.Notify.Item.{AlertItem, PendingItem, item_key}
use we_term.Notify.Persistence.{
  PersistenceResult, apply_persistence, confirmed, empty_result, next_entry, persist_item,
  persist_items,
}
use we_term.Prelude.{
  Bool, List, String, [], arith, eq_iff, false, if◌then◌else◌, keep, none, not, refl, some, sym,
  true, ℕ, ◌&&◌, ◌++◌, ◌==◌, ◌||◌, ◌∙◌, ◌∷◌, ◌≡◌,
}
use we_term.Prelude.Assoc.{lookup, lookup-insert, lookup_or, lookup_or-insert}
use we_term.Prelude.Int.{leb_ℤ, ltb_ℤ, pos, ℤ}

-- Some item has this key.
unfoldable pub has_key : String → List AlertItem → Bool
has_key k [] = false
has_key k (it ∷ items) = item_key it == k || has_key k items

-- The run leaves the key pending.
abbrev pub waits : List (String × PendingItem) → ℤ → ℕ → String → Bool
waits prev n now k = not (confirmed prev n now k)

module _ (prev : List (String × PendingItem)) (n : ℤ) (now : ℕ) where
  filtered-persist_item :
      (res : PersistenceResult) (it : AlertItem)
      → (persist_item prev n now res it).filtered
        ≡ (if confirmed prev n now (item_key it) then res.filtered ++ it ∷ [] else res.filtered)
  unfolding persist_item
  filtered-persist_item res it = ground arith

  next-persist_item :
      (k : String) (res : PersistenceResult) (it : AlertItem)
      → lookup k (persist_item prev n now res it).next_pending ≡ (
          if item_key it == k && waits prev n now k
          then some (next_entry prev now k)
          else lookup k res.next_pending)
  unfolding persist_item
  next-persist_item k res it = ground (
    arith,
    eq_iff (item_key it) k,
    lookup-insert (item_key it) k (next_entry prev now (item_key it)) res.next_pending,
  )

  keys-persist_item :
      (k : String) (res : PersistenceResult) (it : AlertItem)
      → lookup_or false k (persist_item prev n now res it).pending_keys
        ≡ ((item_key it == k && waits prev n now k) || lookup_or false k res.pending_keys)
  unfolding persist_item
  keys-persist_item k res it =
      ground (
        arith,
        eq_iff (item_key it) k,
        lookup_or-insert false (item_key it) k true res.pending_keys,
      )

  filtered-persist_items :
      (res : PersistenceResult) (items : List AlertItem)
      → (persist_items prev n now res items).filtered
        ≡ res.filtered ++ keep (λ it. confirmed prev n now (item_key it)) items
  unfolding persist_items
  filtered-persist_items res [] = sym (append-nil res.filtered)
  filtered-persist_items res (it ∷ items) = ground (
    arith,
    filtered-persist_items (persist_item prev n now res it) items,
    filtered-persist_item res it,
    append_assoc res.filtered (it ∷ []) (keep (λ x. confirmed prev n now (item_key x)) items),
  )

  next-persist_items :
      (k : String) (res : PersistenceResult) (items : List AlertItem)
      → lookup k (persist_items prev n now res items).next_pending ≡ (
          if has_key k items && waits prev n now k
          then some (next_entry prev now k)
          else lookup k res.next_pending)
  unfolding persist_items has_key
  next-persist_items k res [] = refl
  next-persist_items k res (it ∷ items) = ground (
    arith,
    next-persist_items k (persist_item prev n now res it) items,
    next-persist_item k res it,
  )

  keys-persist_items :
      (k : String) (res : PersistenceResult) (items : List AlertItem)
      → lookup_or false k (persist_items prev n now res items).pending_keys
        ≡ ((has_key k items && waits prev n now k) || lookup_or false k res.pending_keys)
  unfolding persist_items has_key
  keys-persist_items k res [] = refl
  keys-persist_items k res (it ∷ items) = ground (
    arith,
    keys-persist_items k (persist_item prev n now res it) items,
    keys-persist_item k res it,
  )

apply_persistence_on :
    (items : List AlertItem) (prev : List (String × PendingItem)) (n : ℤ) (now : ℕ)
    → ltb_ℤ (pos 1) n ≡ true
    → apply_persistence items prev n now ≡ persist_items prev n now empty_result items
unfolding apply_persistence
apply_persistence_on items prev n now h = ground arith

-- With confirmation on, one pass is exact: it lets through, in their order, the items whose key is
-- confirmed, stores the next count of exactly the keys that are present and not confirmed, and
-- flags those same keys for demotion.
pub apply_persistence_exact :
    (items : List AlertItem) (prev : List (String × PendingItem)) (n : ℤ) (now : ℕ) (k : String)
    → ltb_ℤ (pos 1) n ≡ true
    → ((apply_persistence items prev n now).filtered
        ≡ keep (λ it. confirmed prev n now (item_key it)) items)
      × (lookup k (apply_persistence items prev n now).next_pending
          ≡ (if has_key k items && waits prev n now k then some (next_entry prev now k) else none))
      × (lookup_or false k (apply_persistence items prev n now).pending_keys
          ≡ (has_key k items && waits prev n now k))
unfolding lookup lookup_or
apply_persistence_exact items prev n now k h = rw (apply_persistence_on items prev n now h) (
  filtered-persist_items prev n now empty_result items,
  next-persist_items prev n now k empty_result items,
  keys-persist_items prev n now k empty_result items ∙ or-false _,
)
  where
    or-false : (b : Bool) → (b || false) ≡ b
    or-false true = refl
    or-false false = refl

-- With `consecutive_runs` at most 1 every item passes, and nothing is left pending or demoted.
pub apply_persistence_off :
    (items : List AlertItem) (prev : List (String × PendingItem)) (n : ℤ) (now : ℕ)
    → leb_ℤ n (pos 1) ≡ true
    → (apply_persistence items prev n now).filtered ≡ items
      × ((apply_persistence items prev n now).next_pending ≡ [])
      × ((apply_persistence items prev n now).pending_keys ≡ [])
unfolding apply_persistence
apply_persistence_off items prev n now h = ground arith
