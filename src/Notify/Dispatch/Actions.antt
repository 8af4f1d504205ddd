-- ===== src/Notify/Dispatch/Actions.antt =====
-- What Dispatch does with its decision: when it mails, and what it stores.
use we_term.Model.Report.{InspectReport}
use we_term.Notify.Clock.{cooldown_of, sub_time}
use we_term.Notify.Config.{NotifyConfig}
use we_term.Notify.Dispatch.{
  Mail, PrepContext, StateFile, World, choose_action, dispatch, file_after, file_with,
}
use we_term.Notify.Item.{State}
use we_term.Notify.Signature.{signature}
use we_term.Notify.Trigger.{decide, send_alert, send_recovery, was_alert}
use we_term.Prelude.{
  List, Option, String, [], arith, eq_iff, eqb, false, is_empty, length, none, refl, some, true,
  ◌<◌, ◌↔◌, ◌∷◌, ◌≡◌, ◌≢◌, ◌⊎◌,
}
use we_term.Prelude.Int.{leb_ℤ}

is_empty-length {ℓ} : {A : Type ℓ} (l : List A) → is_empty l ≡ eqb (length l) 0
is_empty-length [] = refl
is_empty-length (x ∷ l) = ground arith

-- A recovery mail is chosen exactly when it is wanted, the last mail was an alert, no alert is
-- confirmed, the run has no warning at all, and the streak of such runs has reached N.
pub choose_recovery_exact :
    (w : World) (ctx : PrepContext) (cfg : NotifyConfig)
    → (choose_action w ctx cfg ≡ send_recovery) ↔ (
        (cfg.trigger.send_recovery_mail ≡ true)
        × (was_alert ctx.prev ≡ true)
        × (is_empty ctx.filtered ≡ true)
        × (ctx.raw_warns_empty ≡ true)
        × (leb_ℤ cfg.persistence.consecutive_runs ctx.new_streak ≡ true))
unfolding choose_action decide
choose_recovery_exact w ctx cfg = (
  (λ h. ground (arith, is_empty-length ctx.filtered)),
  (λ h. ground (arith, is_empty-length ctx.filtered)),
)

undelivered_saves :
    {F : Type 0} (w : World) (ctx : PrepContext) (cfg : NotifyConfig) (report : InspectReport F)
    (path : String) (read : Option String) (mail : Mail)
    → (dispatch w (some ctx) cfg report path read).attempted ≡ some mail
    → w.deliver cfg mail ≡ false
    → (dispatch w (some ctx) cfg report path read).saved ≡ none
unfolding dispatch
undelivered_saves w ctx cfg report path read mail h d = ground arith

-- A mail that could not be delivered leaves the state file as it was, whatever the action.
pub undelivered_keeps_file :
    {F : Type 0} (w : World) (ctx : PrepContext) (cfg : NotifyConfig) (report : InspectReport F)
    (path : String) (read : Option String) (file : StateFile) (mail : Mail)
    → (dispatch w (some ctx) cfg report path read).attempted ≡ some mail
    → w.deliver cfg mail ≡ false
    → file_after w (dispatch w (some ctx) cfg report path read) file ≡ file
unfolding file_after
undelivered_keeps_file w ctx cfg report path read file mail h d =
    rw (undelivered_saves w ctx cfg report path read mail h d) (unfold file_with in refl)

-- A run without a delivered mail never changes the time, the signature and the status of the last
-- mail.
pub undelivered_keeps_last :
    {F : Type 0} (w : World) (ctx : PrepContext) (cfg : NotifyConfig) (report : InspectReport F)
    (path : String) (read : Option String) (s : State)
    → (dispatch w (some ctx) cfg report path read).delivered ≡ false
    → (dispatch w (some ctx) cfg report path read).saved ≡ some s
    → (s.last_sent_at ≡ ctx.prev.last_sent_at)
      × (s.last_signature ≡ ctx.prev.last_signature)
      × (s.last_status ≡ ctx.prev.last_status)
unfolding dispatch
undelivered_keeps_last w ctx cfg report path read s d h = ground arith

-- An alert mail is chosen only with confirmed alerts at hand, and if the last mail was an alert
-- with the same signature, only once the cooldown has passed since then.
pub choose_alert_cooldown :
    (w : World) (ctx : PrepContext) (cfg : NotifyConfig)
    → choose_action w ctx cfg ≡ send_alert
    → (0 < length ctx.filtered)
      × ((was_alert ctx.prev ≡ false)
          ⊎ (signature w.digest ctx.filtered ≢ ctx.prev.last_signature)
          ⊎ (leb_ℤ
                (cooldown_of cfg.trigger.min_interval_minutes)
                (sub_time ctx.now ctx.prev.last_sent_at)
              ≡ true))
unfolding choose_action decide
choose_alert_cooldown w ctx cfg h = ground (
  arith,
  is_empty-length ctx.filtered,
  eq_iff (signature w.digest ctx.filtered) ctx.prev.last_signature,
)
