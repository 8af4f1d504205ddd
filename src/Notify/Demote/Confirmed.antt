-- ===== src/Notify/Demote/Confirmed.antt =====
-- The confirmed alerts of a run are the alerts that its demoted report still shows.
use we_term.Model.Report.{InspectReport}
use we_term.Notify.Alerts.{extract_alerts}
use we_term.Notify.Demote.{demote_pending}
use we_term.Notify.Demote.Agrees.{extract_alerts-demote_pending, keep-unflagged_nil, unflagged}
use we_term.Notify.Item.{AlertItem, PendingItem, item_key}
use we_term.Notify.Persistence.{apply_persistence, confirmed}
use we_term.Notify.Persistence.Filter.{apply_persistence_exact, apply_persistence_off, has_key}
use we_term.Prelude.{
  All, All-map_imp, Bool, Bool-cases, List, String, [], arith, eq_iff, inl, inr, keep, refl, some,
  sym, true, ℕ, ◌∙◌, ◌∷◌, ◌≡◌,
}
use we_term.Prelude.Int.{ltb_ℤ, pos, ℤ}

keep_cong :
    (p q : AlertItem → Bool) (its : List AlertItem)
    → All (λ it. p it ≡ q it) its
    → keep p its ≡ keep q its
keep_cong p q [] h = refl
keep_cong p q (it ∷ its) h = rw h.0 (rw (keep_cong p q its h.1) refl)

has_key-cons :
    (k : String) (it : AlertItem) (its : List AlertItem)
    → has_key k its ≡ true
    → has_key k (it ∷ its) ≡ true
unfolding has_key
has_key-cons k it its h = ground arith

has_key-head : (it : AlertItem) (its : List AlertItem) → has_key (item_key it) (it ∷ its) ≡ true
unfolding has_key
has_key-head it its = ground (arith, eq_iff (item_key it) (item_key it))

-- Every item of a list has its key in the list.
has_key-All : (its : List AlertItem) → All (λ it. has_key (item_key it) its ≡ true) its
has_key-All [] = tt
has_key-All (it ∷ its) = (
  has_key-head it its,
  All-map_imp (λ x. has_key (item_key x) its ≡ true) (λ x. has_key (item_key x) (it ∷ its) ≡ true)
      (λ x h. has_key-cons (item_key x) it its h) its (has_key-All its),
)

unflagged-confirmed :
    (items : List AlertItem) (prev : List (String × PendingItem)) (n : ℤ) (now : ℕ)
    → ltb_ℤ (pos 1) n ≡ true
    → (it : AlertItem) → has_key (item_key it) items ≡ true
    → unflagged (apply_persistence items prev n now).pending_keys it
      ≡ confirmed prev n now (item_key it)
unflagged-confirmed items prev n now on it h =
    ground (arith, (apply_persistence_exact items prev n now (item_key it) on).2)

pub keep-unflagged_confirmed :
    (items : List AlertItem) (prev : List (String × PendingItem)) (n : ℤ) (now : ℕ)
    → keep (unflagged (apply_persistence items prev n now).pending_keys) items
      ≡ (apply_persistence items prev n now).filtered
keep-unflagged_confirmed items prev n now = elim (Bool-cases (ltb_ℤ (pos 1) n)) [
  | inl on ↦
      keep_cong _ _ items (
        All-map_imp (λ it. has_key (item_key it) items ≡ true) _
          (unflagged-confirmed items prev n now on) items (has_key-All items))
      ∙ sym (apply_persistence_exact items prev n now "" on).0
  | inr off ↦
      let plain = apply_persistence_off items prev n now (ground arith) in
      keep-unflagged_nil _ items plain.2 ∙ sym plain.0
]

-- Whatever N is: once the pending alerts of a run are demoted, the alerts of its report are
-- exactly the confirmed ones, in their order.
pub extract_alerts-confirmed :
    {F : Type 0} (report : InspectReport F) (prev : List (String × PendingItem)) (n : ℤ) (now : ℕ)
    → extract_alerts (
        some (
          demote_pending report
            (apply_persistence (extract_alerts (some report)) prev n now).pending_keys))
      ≡ (apply_persistence (extract_alerts (some report)) prev n now).filtered
extract_alerts-confirmed report prev n now =
    extract_alerts-demote_pending report _
    ∙ keep-unflagged_confirmed (extract_alerts (some report)) prev n now
