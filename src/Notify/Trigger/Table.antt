-- ===== src/Notify/Trigger/Table.antt =====
-- The decision matrix, read off as conditions.
use we_term.Notify.Clock.{sub_time}
use we_term.Notify.Item.{State}
use we_term.Notify.Trigger.{decide, send_alert, send_recovery, was_alert}
use we_term.Prelude.{String, arith, eq_iff, false, true, ℕ, ◌↔◌, ◌≡◌, ◌≢◌, ◌⊎◌}
use we_term.Prelude.Int.{leb_ℤ, ltb_ℤ, pos, ℤ}

-- What calls for an alert mail, given that there are alerts.
abbrev pub AlertIsDue : ℕ → State → String → ℤ → Type 0
AlertIsDue now prev sig_now cooldown =
    (was_alert prev ≡ false)
    ⊎ (sig_now ≢ prev.last_signature)
    ⊎ (leb_ℤ cooldown (sub_time now prev.last_sent_at) ≡ true)

-- An alert mail is decided exactly when there are alerts and either the last mail was no alert, or
-- the signature has changed, or the cooldown has passed; a recovery mail exactly when there are
-- none and the last mail was an alert.
pub decide_exact :
    (now : ℕ) (prev : State) (warn_count : ℤ) (sig_now : String) (cooldown : ℤ)
    → ((decide now prev warn_count sig_now cooldown ≡ send_alert)
        ↔ ((ltb_ℤ (pos 0) warn_count ≡ true) × AlertIsDue now prev sig_now cooldown))
      × ((decide now prev warn_count sig_now cooldown ≡ send_recovery)
          ↔ ((ltb_ℤ (pos 0) warn_count ≡ false) × (was_alert prev ≡ true)))
unfolding decide
decide_exact now prev warn_count sig_now cooldown = (
  (
    (λ h. ground (arith, eq_iff sig_now prev.last_signature)),
    (λ h. ground (arith, eq_iff sig_now prev.last_signature)),
  ),
  ((λ h. ground arith), (λ h. ground arith)),
)
