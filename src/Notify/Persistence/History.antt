-- ===== src/Notify/Persistence/History.antt =====
-- ApplyPersistence over a sequence of runs, each of which stored its pending map for the next.
use we_term.Notify.Clock.{pending_ttl, sub_time}
use we_term.Notify.Item.{AlertItem, PendingItem, item_key}
use we_term.Notify.Persistence.{apply_persistence, confirmed, entry_from, next_entry}
use we_term.Notify.Persistence.Filter.{apply_persistence_exact, has_key, waits}
use we_term.Prelude.{
  Bool, Bool-cases, List, Option, String, [], ap, arith, eq_iff, false, if◌then◌else◌, inl, inr,
  keep, none, refl, some, suc, sym, true, zero, ℕ, ◌&&◌, ◌<◌, ◌∙◌, ◌∷◌, ◌≡◌, ◌≤◌,
}
use we_term.Prelude.Assoc.{lookup}
use we_term.Prelude.Int.{leb_ℤ, ltb_ℤ, pos, ℤ, ◌+ℤ◌}

-- The raw alerts of a run, and its time.
pub record Run : Type 0 where
  pub items : List AlertItem
  pub now : ℕ

-- The pending map after the runs, the newest run first, from an empty map.
unfoldable pub pending_after : ℤ → List Run → List (String × PendingItem)
pending_after n [] = []
pending_after n (run ∷ older) =
    (apply_persistence run.items (pending_after n older) n run.now).next_pending

-- The newest run lets an item with this key through.
unfoldable pub fires : ℤ → String → List Run → Bool
fires n k [] = false
fires n k (run ∷ older) =
    has_key k (apply_persistence run.items (pending_after n older) n run.now).filtered

-- The key was among the raw alerts of each of the newest `m` runs, and there were as many.
abbrev pub PresentFor : ℕ → String → List Run → Type 0
PresentFor zero k h = Unit
PresentFor (suc m) k [] = ⊥
PresentFor (suc m) k (run ∷ older) = (has_key k run.items ≡ true) × PresentFor m k older

has_key-keep :
    (k : String) (p : String → Bool) (items : List AlertItem)
    → has_key k (keep (λ it. p (item_key it)) items) ≡ (has_key k items && p k)
unfolding has_key
has_key-keep k p [] = refl
has_key-keep k p (it ∷ items) = ground (arith, eq_iff (item_key it) k, has_key-keep k p items)

module _ (n : ℤ) (on : ltb_ℤ (pos 1) n ≡ true) (k : String) (run : Run) (older : List Run) where
  pub fires-cons :
      fires n k (run ∷ older)
      ≡ (has_key k run.items && confirmed (pending_after n older) n run.now k)
  unfolding fires
  fires-cons =
      ap (has_key k) (apply_persistence_exact run.items (pending_after n older) n run.now k on).0
      ∙ has_key-keep k (confirmed (pending_after n older) n run.now) run.items

  pub lookup-pending_after : lookup k (pending_after n (run ∷ older)) ≡ (
      if has_key k run.items && waits (pending_after n older) n run.now k
      then some (next_entry (pending_after n older) run.now k)
      else none)
  unfolding pending_after
  lookup-pending_after =
      (apply_persistence_exact run.items (pending_after n older) n run.now k on).1

PresentFor-le : (m p : ℕ) (k : String) (h : List Run) → p ≤ m → PresentFor m k h → PresentFor p k h
PresentFor-le m zero k h l s = tt
PresentFor-le zero (suc p) k h l s = absurd (omega arith)
PresentFor-le (suc m) (suc p) k [] l s = absurd s
PresentFor-le (suc m) (suc p) k (run ∷ older) l s =
    (s.0, PresentFor-le m p k older (omega arith) s.1)

-- What a stored count is: a number of runs, up to the newest, that all had the key.
record Counted (k : String) (h : List Run) (e : PendingItem) : Type 0 where
  runs : ℕ
  count_is : e.count ≡ pos runs
  present : PresentFor runs k h

abbrev CountedOption : String → List Run → Option PendingItem → Type 0
CountedOption k h none = Unit
CountedOption k h (some e) = Counted k h e

module _ (k : String) (run : Run) (older : List Run) (here : has_key k run.items ≡ true) where
  restart : (e : PendingItem) → e.count ≡ pos 1 → Counted k (run ∷ older) e
  restart e c = record { runs = 1; count_is = c; present = (here, tt) }

  continue :
      (old e : PendingItem)
      → Counted k older old
      → e.count ≡ old.count +ℤ pos 1
      → Counted k (run ∷ older) e
  unfolding ◌+ℤ◌
  continue old e c eq = record {
    runs = suc c.runs;
    count_is = ground (arith, c.count_is, eq);
    present = (here, c.present);
  }

  entry_from-Counted :
      (o : Option PendingItem)
      → CountedOption k older o
      → Counted k (run ∷ older) (entry_from o run.now)
  unfolding entry_from
  entry_from-Counted none c = restart _ refl
  entry_from-Counted (some old) c =
      elim (Bool-cases (ltb_ℤ (sub_time run.now old.first_seen) pending_ttl)) [
        | inl young ↦ rw young (continue old _ c refl)
        | inr stale ↦ rw stale (restart _ refl)
      ]

module _ (n : ℤ) (on : ltb_ℤ (pos 1) n ≡ true) (k : String) where
  pending_after-Counted : (h : List Run) → CountedOption k h (lookup k (pending_after n h))
  unfolding lookup pending_after
  pending_after-Counted [] = tt
  pending_after-Counted (run ∷ older) =
      rw (lookup-pending_after n on k run older)
        (elim (Bool-cases (has_key k run.items && waits (pending_after n older) n run.now k)) [
          | inl b ↦
              rw b (entry_from-Counted k run older (ground arith) _ (pending_after-Counted older))
          | inr b ↦ rw b tt
        ])

both : (b c : Bool) → (b && c) ≡ true → (b ≡ true) × (c ≡ true)
both b c h = ground arith

enough_runs : (m p : ℕ) (e : PendingItem) → e.count ≡ pos m → leb_ℤ (pos p) e.count ≡ true → p ≤ m
enough_runs m p e c h = ground arith

-- Where each run stored its pending map, an alert is let through only if its key was among the raw
-- alerts of each of the last N runs, for every N greater than 1.
pub fires-PresentFor :
    (n : ℕ) (k : String) (h : List Run) → 1 < n → fires (pos n) k h ≡ true → PresentFor n k h
unfolding fires
fires-PresentFor n k [] l f = cc
fires-PresentFor n k (run ∷ older) l f =
    PresentFor-le counted.runs n k (run ∷ older)
      (enough_runs counted.runs n (next_entry (pending_after (pos n) older) run.now k)
        counted.count_is (unfold confirmed in firing.1))
      counted.present
  where
    on : ltb_ℤ (pos 1) (pos n) ≡ true
    on = ground arith

    firing :
        (has_key k run.items ≡ true)
        × (confirmed (pending_after (pos n) older) (pos n) run.now k ≡ true)
    firing = both _ _ (sym (fires-cons (pos n) on k run older) ∙ f)

    counted : Counted k (run ∷ older) (next_entry (pending_after (pos n) older) run.now k)
    counted = entry_from-Counted k run older firing.0 _ (pending_after-Counted (pos n) on k older)
