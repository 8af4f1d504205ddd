-- ===== src/Notify/Persistence/Cadence.antt =====
-- What ApplyPersistence does with an alert that every run reports: since a promoted key leaves the
-- pending map, its count starts again, and the alert is let through in every N-th run only.
use native.Mathlib.Nat.{mod-eq_of_lt, mod-lt, mod_self, suc-mod}
use we_term.Notify.Clock.{pending_ttl, sub_time}
use we_term.Notify.Item.{PendingItem}
use we_term.Notify.Persistence.{confirmed, entry_from, next_entry}
use we_term.Notify.Persistence.Filter.{has_key}
use we_term.Notify.Persistence.History.{Run, fires, fires-cons, lookup-pending_after, pending_after}
use we_term.Prelude.{
  Bool-cases, List, Option, String, [], ap, arith, eqb, if◌then◌else◌, inl, inr, length, none, not,
  some, suc, true, ℕ, ◌%◌, ◌+◌, ◌<◌, ◌∙◌, ◌∷◌, ◌≡◌, ◌≤◌,
}
use we_term.Prelude.Assoc.{lookup}
use we_term.Prelude.Int.{leb_ℤ, ltb_ℤ, pos, ◌+ℤ◌}

-- Every run has the key, and lies in a window of 24 hours that begins at `t0`.
abbrev pub AlwaysIn : ℕ → String → List Run → Type 0
AlwaysIn t0 k [] = Unit
AlwaysIn t0 k (run ∷ older) =
    (has_key k run.items ≡ true)
    × (t0 ≤ run.now)
    × (run.now < t0 + 86_400_000_000_000)
    × AlwaysIn t0 k older

-- Times of one such window are fresh for one another.
fresh :
    (t0 now first : ℕ)
    → t0 ≤ first
    → now < t0 + 86_400_000_000_000
    → ltb_ℤ (sub_time now first) pending_ttl ≡ true
unfolding sub_time
fresh t0 now first h l = ground arith

mod_step : (l n : ℕ) → 1 < n → (suc l % n) ≡ (if eqb (suc (l % n)) n then 0 else suc (l % n))
mod_step l n h =
    suc-mod l n
    ∙ ground (
      arith,
      mod-lt l {m = n},
      mod-eq_of_lt {n = suc (l % n)} {m = n},
      mod_self n,
      ap (λ (x : ℕ). x % n) {x = suc (l % n)} {y = n},
    )

-- What the pending map has of the key after `l` runs.
abbrev Phase : ℕ → ℕ → ℕ → Option PendingItem → Type 0
Phase n t0 l none = l % n ≡ 0
Phase n t0 l (some e) = (e.count ≡ pos (l % n)) × (t0 ≤ e.first_seen)

module _ (n t0 l now : ℕ) (before : t0 ≤ now) (inside : now < t0 + 86_400_000_000_000) where
  -- The next entry counts one run more.
  entry_from-Phase :
      (o : Option PendingItem)
      → Phase n t0 l o
      → ((entry_from o now).count ≡ pos (suc (l % n))) × (t0 ≤ (entry_from o now).first_seen)
  unfolding entry_from
  entry_from-Phase none h = ground arith
  entry_from-Phase (some e) h =
      rw (fresh t0 now e.first_seen h.1 inside) (unfold ◌+ℤ◌ in (ground (arith, h.0), h.1))

module _ (n t0 : ℕ) (on : 1 < n) (k : String) where
  on_int : ltb_ℤ (pos 1) (pos n) ≡ true
  on_int = ground arith

  -- An entry with one run more is let through exactly when a multiple of N is reached.
  reaches :
      (l : ℕ) (e : PendingItem)
      → e.count ≡ pos (suc (l % n))
      → leb_ℤ (pos n) e.count ≡ eqb (suc l % n) 0
  reaches l e c = ground (arith, mod_step l n on, mod-lt l {m = n}, c)

  Phase-next :
      (l : ℕ) (e : PendingItem)
      → e.count ≡ pos (suc (l % n))
      → t0 ≤ e.first_seen
      → Phase n t0 (suc l) (if not (leb_ℤ (pos n) e.count) then some e else none)
  Phase-next l e c t = elim (Bool-cases (eqb (suc l % n) 0)) [
    | inl z ↦ rw (reaches l e c) (rw z (ground arith))
    | inr z ↦ rw (reaches l e c) (rw z (ground (arith, mod_step l n on, mod-lt l {m = n}, c), t))
  ]

  -- The next entry of the key, given its phase.
  next_entry-Phase :
      (run : Run) (older : List Run)
      → t0 ≤ run.now
      → run.now < t0 + 86_400_000_000_000
      → Phase n t0 (length older) (lookup k (pending_after (pos n) older))
      → ((next_entry (pending_after (pos n) older) run.now k).count ≡ pos (suc (length older % n)))
        × (t0 ≤ (next_entry (pending_after (pos n) older) run.now k).first_seen)
  next_entry-Phase run older l u p = entry_from-Phase n t0 (length older) run.now l u _ p

  lookup-Phase :
      (h : List Run) → AlwaysIn t0 k h → Phase n t0 (length h) (lookup k (pending_after (pos n) h))
  unfolding lookup pending_after confirmed
  lookup-Phase [] a = ground arith
  lookup-Phase (run ∷ older) a =
      let next = next_entry-Phase run older a.1 a.2 (lookup-Phase older a.3) in
      rw (lookup-pending_after (pos n) on_int k run older)
        (rw a.0 (Phase-next (length older) _ next.0 next.1))

-- From an empty pending map, where each run stored its pending map: an alert that every run of a 24
-- hour window reports is let through in exactly those runs whose number, from the first one, is a
-- multiple of N.
pub fires_every :
    (n t0 : ℕ) (k : String) (run : Run) (older : List Run)
    → 1 < n
    → AlwaysIn t0 k (run ∷ older)
    → fires (pos n) k (run ∷ older) ≡ eqb (length (run ∷ older) % n) 0
unfolding confirmed
fires_every n t0 k run older on a =
    let next = next_entry-Phase n t0 on k run older a.1 a.2 (lookup-Phase n t0 on k older a.3) in
    fires-cons (pos n) (on_int n t0 on k) k run older
    ∙ rw a.0 (
        reaches n t0 on k (length older) (next_entry (pending_after (pos n) older) run.now k)
          next.0)
