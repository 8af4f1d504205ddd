-- ===== src/Notify/Dispatch.antt =====
-- inspect/notify/notify.go: Prepare and Dispatch, and Process, which runs one after the other.
-- state.go: LoadState and SaveState, on the state file.
pub mod Actions
pub mod Rounds
pub mod Resend
pub mod Lasting
pub mod Report
use we_term.Model.Report.{InspectReport}
use we_term.Notify.Alerts.{extract_alerts}
use we_term.Notify.Clock.{cooldown_of}
use we_term.Notify.Config.{NotifyConfig, validate_notify}
use we_term.Notify.Demote.{demote_pending}
use we_term.Notify.Email.{
  build_alert_body, build_alert_subject, build_recovery_body, build_recovery_subject,
}
use we_term.Notify.HtmlFrag.{load_html_body}
use we_term.Notify.Item.{AlertItem, PendingItem, State, cold_state, status_alert, status_ok}
use we_term.Notify.Persistence.{apply_persistence, update_recovery_streak}
use we_term.Notify.Signature.{signature}
use we_term.Notify.Trigger.{Action, decide, no_action, send_alert, send_recovery, was_alert}
use we_term.Prelude.{
  Bool, List, Option, String, false, if◌then◌else◌, is_empty, length, none, not, some, true, ℕ,
  ◌&&◌,
}
use we_term.Prelude.Int.{leb_ℤ, pos, ℤ}

-- What the state file holds for LoadState.
pub data StateFile : Type 0 where
  missing unreadable corrupt : StateFile
  stored : State → StateFile

-- LoadState
unfoldable pub load_state : StateFile → State
load_state missing = cold_state
load_state unreadable = cold_state
load_state corrupt = cold_state
load_state (stored s) = s

-- SaveState writes a temporary file and renames it: when a step fails the file stays as it was.
-- The steps are mkdir, marshal, create, write, chmod, close and rename.
pub data SaveStep : Type 0 where
  mkdir marshal create write chmod close rename : SaveStep

-- the new file, and the step at which SaveState returned its error
unfoldable pub save_state : Option SaveStep → State → StateFile → StateFile × Option SaveStep
save_state none s file = (stored s, none)
save_state (some step) s file = (file, some step)

-- A mail, as Send takes it.
pub record Mail : Type 0 where
  pub subject : String
  pub body : String
  pub html_body : String
  pub attachment : String

-- PrepContext
pub record PrepContext : Type 0 where
  pub prev : State
  pub filtered : List AlertItem
  pub next_pending : List (String × PendingItem)
  pub new_streak : ℤ
  pub raw_warns_empty : Bool
  pub now : ℕ

-- What the run meets outside the program: SHA-256, the mail library (`deliver` says whether Send
-- returns no error), and the step at which the state file cannot be written, if there is one.
pub record World : Type 0 where
  pub digest : String → String
  pub deliver : NotifyConfig → Mail → Bool
  pub save_fails : Option SaveStep

-- What Dispatch did: the mail that it tried to send, whether that was delivered, and the state
-- that it handed to SaveState.
pub record Outcome : Type 0 where
  pub attempted : Option Mail
  pub delivered : Bool
  pub saved : Option State

-- if action == ActionSendRecovery && !cfg.Trigger.SendRecovery { action = ActionNone }
unfoldable pub drop_recovery : Bool → Action → Action
drop_recovery wanted no_action = no_action
drop_recovery wanted send_alert = send_alert
drop_recovery wanted send_recovery = if wanted then send_recovery else no_action

-- The switch that chooses the action, and the test of SendRecovery behind it.
unfoldable pub choose_action : World → PrepContext → NotifyConfig → Action
unfolding drop_recovery
choose_action w ctx cfg = drop_recovery cfg.trigger.send_recovery_mail (
    if was_alert ctx.prev && is_empty ctx.filtered
    then (if ctx.raw_warns_empty && leb_ℤ cfg.persistence.consecutive_runs ctx.new_streak
        then send_recovery
        else no_action)
    else decide ctx.now ctx.prev (pos (length ctx.filtered)) (signature w.digest ctx.filtered)
        (cooldown_of cfg.trigger.min_interval_minutes))

module _ {F : Type 0} where
  -- The mail of an action.
  unfoldable pub alert_mail : InspectReport F → PrepContext → String → String → Mail
  alert_mail report ctx html_body html_path = record {
    subject = build_alert_subject report.summary;
    body = build_alert_body report ctx.filtered;
    html_body = html_body;
    attachment = html_path;
  }

  unfoldable pub recovery_mail : InspectReport F → String → String → Mail
  recovery_mail report html_body html_path = record {
    subject = build_recovery_subject report.summary;
    body = build_recovery_body report;
    html_body = html_body;
    attachment = html_path;
  }

-- The state that each action hands to SaveState.
abbrev pub suppressed_state : PrepContext → State
suppressed_state ctx = record ctx.prev {
  pending = ctx.next_pending;
  recovery_streak = ctx.new_streak;
}

abbrev pub alerted_state : World → PrepContext → State
alerted_state w ctx = record {
  last_sent_at = ctx.now;
  last_signature = signature w.digest ctx.filtered;
  last_status = status_alert;
  pending = ctx.next_pending;
  recovery_streak = pos 0;
}

abbrev pub recovered_state : PrepContext → State
recovered_state ctx = record {
  last_sent_at = ctx.now;
  last_signature = "";
  last_status = status_ok;
  pending = ctx.next_pending;
  recovery_streak = pos 0;
}

-- Send, and SaveState only if there was no error.
unfoldable pub send_then_save : World → NotifyConfig → Mail → State → Outcome
send_then_save w cfg mail next =
    if w.deliver cfg mail
    then record { attempted = some mail; delivered = true; saved = some next }
    else record { attempted = some mail; delivered = false; saved = none }

module _ {F : Type 0} where
  unfoldable pub perform :
      Action → World → PrepContext → NotifyConfig → InspectReport F → String → String → Outcome
  unfolding send_then_save alert_mail recovery_mail
  perform no_action w ctx cfg report html_body html_path = record {
    attempted = none;
    delivered = false;
    saved = some (suppressed_state ctx);
  }
  perform send_alert w ctx cfg report html_body html_path =
      send_then_save w cfg (alert_mail report ctx html_body html_path) (alerted_state w ctx)
  perform send_recovery w ctx cfg report html_body html_path =
      send_then_save w cfg (recovery_mail report html_body html_path) (recovered_state ctx)

  -- Dispatch; `none` is a nil context, and `read` is what reading the HTML report answers
  unfoldable pub dispatch :
      World → Option PrepContext → NotifyConfig → InspectReport F → String → Option String → Outcome
  unfolding choose_action perform
  dispatch w none cfg report html_path read = record {
    attempted = none;
    delivered = false;
    saved = none;
  }
  dispatch w (some ctx) cfg report html_path read =
      perform (choose_action w ctx cfg) w ctx cfg report (load_html_body html_path read) html_path

  -- The context that Prepare makes once the configuration is in order.
  unfoldable pub prepare_context : NotifyConfig → State → ℕ → InspectReport F → PrepContext
  unfolding extract_alerts
  prepare_context cfg prev now report =
      let raw = extract_alerts (some report) in
      let res = apply_persistence raw prev.pending cfg.persistence.consecutive_runs now in
      record {
        prev = prev;
        filtered = res.filtered;
        next_pending = res.next_pending;
        new_streak = update_recovery_streak prev.recovery_streak prev.last_status (is_empty raw);
        raw_warns_empty = is_empty raw;
        now = now;
      }

  -- The report that Prepare leaves: its pending warnings are demoted.
  unfoldable pub prepare_report : NotifyConfig → State → ℕ → InspectReport F → InspectReport F
  unfolding extract_alerts
  prepare_report cfg prev now report =
      demote_pending report
        (apply_persistence (extract_alerts (some report)) prev.pending
          cfg.persistence.consecutive_runs now).pending_keys

  -- Prepare; the first `none` is a nil configuration
  unfoldable pub prepare :
      Option NotifyConfig → StateFile → ℕ → InspectReport F → Option PrepContext × InspectReport F
  prepare none file now report = (none, report)
  prepare (some cfg) file now report =
      if not cfg.email.enabled then (none, report) else elim (validate_notify cfg) [
        | some _ ↦ (none, report)
        | none ↦ (
          some (prepare_context cfg (load_state file) now report),
          prepare_report cfg (load_state file) now report,
        )
      ]

-- the file after a state was handed to SaveState, or none was
unfoldable pub file_with : Option SaveStep → Option State → StateFile → StateFile
unfolding save_state
file_with fails none file = file
file_with fails (some s) file = (save_state fails s file).0

-- The state file after Dispatch.
unfoldable pub file_after : World → Outcome → StateFile → StateFile
file_after w o file = file_with w.save_fails o.saved file
