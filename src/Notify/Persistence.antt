-- ===== src/Notify/Persistence.antt =====
-- inspect/notify/persistence.go: an alert is let through only after N consecutive runs.
pub mod Filter
pub mod History
pub mod Cadence
use we_term.Notify.Clock.{pending_ttl, sub_time}
use we_term.Notify.Item.{AlertItem, PendingItem, item_key, status_alert}
use we_term.Prelude.{
  Bool, List, Option, String, [], if◌then◌else◌, none, not, some, true, ℕ, ◌++◌, ◌==◌, ◌∷◌,
}
use we_term.Prelude.Assoc.{insert, lookup}
use we_term.Prelude.Int.{eqb_ℤ, leb_ℤ, ltb_ℤ, pos, ℤ, ◌+ℤ◌}

-- PersistenceResult
pub record PersistenceResult : Type 0 where
  pub filtered : List AlertItem
  pub next_pending : List (String × PendingItem)
  pub pending_keys : List (String × Bool)

-- The entry that the loop computes for a key, `newCount` and `firstSeen`, from what `prev` has of
-- it. An old entry counts only while it is younger than the TTL.
unfoldable pub entry_from : Option PendingItem → ℕ → PendingItem
unfolding sub_time ◌+ℤ◌
entry_from none now = record { count = pos 1; first_seen = now }
entry_from (some entry) now =
    if ltb_ℤ (sub_time now entry.first_seen) pending_ttl
    then record { count = entry.count +ℤ pos 1; first_seen = entry.first_seen }
    else record { count = pos 1; first_seen = now }

abbrev pub next_entry : List (String × PendingItem) → ℕ → String → PendingItem
next_entry prev now key = entry_from (lookup key prev) now

-- newCount >= n: the key is let through in this run
unfoldable pub confirmed : List (String × PendingItem) → ℤ → ℕ → String → Bool
confirmed prev n now key = leb_ℤ n (next_entry prev now key).count

-- One round of the loop over the items.
unfoldable pub persist_item :
    List (String × PendingItem) → ℤ → ℕ → PersistenceResult → AlertItem → PersistenceResult
persist_item prev n now res it =
    let key = item_key it in
    if confirmed prev n now key
    then record res { filtered = res.filtered ++ it ∷ [] }
    else record res {
      next_pending = insert key (next_entry prev now key) res.next_pending;
      pending_keys = insert key true res.pending_keys;
    }

unfoldable pub persist_items :
    List (String × PendingItem) → ℤ → ℕ → PersistenceResult → List AlertItem → PersistenceResult
persist_items prev n now res [] = res
persist_items prev n now res (it ∷ items) =
    persist_items prev n now (persist_item prev n now res it) items

abbrev pub empty_result : PersistenceResult
empty_result = record { filtered = []; next_pending = []; pending_keys = [] }

-- if n < 1 { n = 1 }
abbrev pub at_least_one : ℤ → ℤ
at_least_one n = if ltb_ℤ n (pos 1) then pos 1 else n

-- ApplyPersistence; a nil `prev` is the empty map
unfoldable pub apply_persistence :
    List AlertItem → List (String × PendingItem) → ℤ → ℕ → PersistenceResult
apply_persistence items prev n now =
    let m = at_least_one n in
    if eqb_ℤ m (pos 1)
    then record empty_result { filtered = items }
    else persist_items prev m now empty_result items

-- UpdateRecoveryStreak
unfoldable pub update_recovery_streak : ℤ → String → Bool → ℤ
unfolding ◌+ℤ◌
update_recovery_streak prev_streak prev_status raw_warns_empty =
    if not (prev_status == status_alert)
    then pos 0
    else if not raw_warns_empty
    then pos 0
    else prev_streak +ℤ pos 1
