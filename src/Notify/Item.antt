-- ===== src/Notify/Item.antt =====
-- The data of inspect/notify: alerts.go (AlertItem), state.go (PendingItem, State) and the keys
-- of persistence.go.
use we_term.Prelude.{List, String, [], ℕ, ◌∷◌}
use we_term.Prelude.Int.{pos, ℤ}
use we_term.Prelude.Text.{concat}

-- AlertItem
pub record AlertItem : Type 0 where
  pub host : String
  pub field : String
  pub value : String
  pub threshold : String

-- PendingItem; `first_seen` is a point in time, see `Notify.Clock`
pub record PendingItem : Type 0 where
  pub count : ℤ
  pub first_seen : ℕ

-- State
pub record State : Type 0 where
  pub last_sent_at : ℕ
  pub last_signature : String
  pub last_status : String
  pub pending : List (String × PendingItem)
  pub recovery_streak : ℤ

-- StatusAlert and StatusOK; StatusEmpty is ""
abbrev pub status_alert : String
status_alert = "alert"

abbrev pub status_ok : String
status_ok = "ok"

-- &State{Pending: map[string]PendingItem{}}: the time is Go's zero time
abbrev pub cold_state : State
cold_state = record {
  last_sent_at = 0;
  last_signature = "";
  last_status = "";
  pending = [];
  recovery_streak = pos 0;
}

-- PendingKey(host, field)
unfoldable pub pending_key : String → String → String
unfolding concat
pending_key host field = concat (host ∷ "|" ∷ field ∷ [])

abbrev pub item_key : AlertItem → String
item_key it = pending_key it.host it.field
