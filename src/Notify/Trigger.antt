-- ===== src/Notify/Trigger.antt =====
-- inspect/notify/trigger.go: the decision matrix.
pub mod Table
use we_term.Notify.Clock.{sub_time}
use we_term.Notify.Item.{State, cold_state, status_alert}
use we_term.Prelude.{Bool, Option, String, if◌then◌else◌, none, not, some, ℕ, ◌&&◌, ◌==◌}
use we_term.Prelude.Int.{leb_ℤ, ltb_ℤ, pos, ℤ}

-- Action
pub data Action : Type 0 where
  no_action send_alert send_recovery : Action

-- prev.LastStatus == StatusAlert
abbrev pub was_alert : State → Bool
was_alert s = s.last_status == status_alert

-- Decide, for `prev` other than nil; a nil `prev` is the zero state, `cold_state`
unfoldable pub decide : ℕ → State → ℤ → String → ℤ → Action
decide now prev warn_count sig_now cooldown =
    let has_alerts = ltb_ℤ (pos 0) warn_count in
    if not has_alerts && not (was_alert prev)
    then no_action
    else if not has_alerts && was_alert prev
    then send_recovery
    else if has_alerts && not (was_alert prev)
    then send_alert
    else if not (sig_now == prev.last_signature)
    then send_alert
    else if leb_ℤ cooldown (sub_time now prev.last_sent_at)
    then send_alert
    else no_action

-- Decide with the pointer that it is given
unfoldable pub decide_ptr : ℕ → Option State → ℤ → String → ℤ → Action
unfolding decide
decide_ptr now none warn_count sig_now cooldown = decide now cold_state warn_count sig_now cooldown
decide_ptr now (some prev) warn_count sig_now cooldown = decide now prev warn_count sig_now cooldown
