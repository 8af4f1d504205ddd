-- ===== src/Tests/Rounds.antt =====
-- Concrete cases of the theorems about the decision, the dispatch and the rounds.
use we_term.Notify.Alerts.{attribute_checks, attribute_hosts, extract_alerts, extract_checks}
use we_term.Notify.Clock.{cooldown_of, sub_time}
use we_term.Notify.Dispatch.{
  PrepContext, StateFile, alert_mail, choose_action, dispatch, drop_recovery, file_after, file_with,
  load_state, missing, perform, prepare_context, save_state, send_then_save, stored,
  suppressed_state,
}
use we_term.Notify.Dispatch.Actions.{choose_recovery_exact, undelivered_keeps_file}
use we_term.Notify.Dispatch.Lasting.{
  file_of_rounds, filtered-PresentFor, filtered_every, is_some, run_of, stored_rounds,
}
use we_term.Notify.Dispatch.Resend.{file_of_round, more, resend_waits, stop}
use we_term.Notify.Dispatch.Rounds.{
  CalmFor, Round, next, recovery_needs_calm, round_action, round_outcome, start,
}
use we_term.Notify.HtmlFrag.{load_html_body}
use we_term.Notify.Item.{State, cold_state, pending_key, status_alert}
use we_term.Notify.Persistence.{
  apply_persistence, confirmed, entry_from, persist_item, persist_items, update_recovery_streak,
}
use we_term.Notify.Persistence.Cadence.{AlwaysIn}
use we_term.Notify.Persistence.Filter.{has_key}
use we_term.Notify.Persistence.History.{PresentFor}
use we_term.Notify.Signature.{add_key, hash_input, normalize_field, seen_keys, signature}
use we_term.Notify.Signature.Set.{signature_of_keys}
use we_term.Notify.Trigger.{decide, send_alert, send_recovery, was_alert}
use we_term.Notify.Trigger.Table.{AlertIsDue, decide_exact}
use we_term.Prelude.{
  [], arith, eqb, false, is_empty, map, none, not, refl, some, true, ℕ, ◌%◌, ◌↔◌, ◌∷◌, ◌≡◌,
}
use we_term.Prelude.Assoc.{insert, lookup, lookup_or}
use we_term.Prelude.Int.{leb_ℤ, ltb_ℤ, pos, wrap64, ℤ, ◌*ℤ◌, ◌+ℤ◌}
use we_term.Prelude.Order.{insert_by, sort_by, text_leb}
use we_term.Prelude.Search.{strip_prefix}
use we_term.Prelude.Text.{append, concat}
use we_term.Tests.Data.{
  calm_report, down_alert, eager_config, int_floats, mail_config, no_mail_world, warned_report,
  world,
}

-- a state behind an alert mail about `down_alert`, sent at 0; the digest of `world` is the text
-- itself
abbrev after_mail : State
after_mail = record {
  last_sent_at = 0;
  last_signature = "|mysql.down\0";
  last_status = status_alert;
  pending = [];
  recovery_streak = pos 0;
}

abbrev round_at : ℕ → Round ℤ
round_at now = record {
  world = world;
  now = now;
  report = warned_report;
  html_path = "r.html";
  html_read = none;
}

hash_test : signature world.digest (down_alert ∷ []) ≡ "|mysql.down\0"
unfolding signature seen_keys add_key hash_input sort_by insert_by text_leb normalize_field
    strip_prefix concat append
hash_test = refl

decide_exact_example :
    ((decide 500 after_mail (pos 1) "x" (pos 7) ≡ send_alert)
      ↔ ((ltb_ℤ (pos 0) (pos 1) ≡ true) × AlertIsDue 500 after_mail "x" (pos 7)))
    × ((decide 500 after_mail (pos 1) "x" (pos 7) ≡ send_recovery)
        ↔ ((ltb_ℤ (pos 0) (pos 1) ≡ false) × (was_alert after_mail ≡ true)))
decide_exact_example = decide_exact 500 after_mail (pos 1) "x" (pos 7)

-- a context behind two calm rounds
abbrev calm_context : PrepContext
calm_context = record {
  prev = after_mail;
  filtered = [];
  next_pending = [];
  new_streak = pos 2;
  raw_warns_empty = true;
  now = 500;
}

-- a context with the alert, before any mail
abbrev alert_context : PrepContext
alert_context = record {
  prev = cold_state;
  filtered = down_alert ∷ [];
  next_pending = [];
  new_streak = pos 0;
  raw_warns_empty = false;
  now = 500;
}

choose_recovery_exact_example : (choose_action world calm_context mail_config ≡ send_recovery) ↔ (
    (mail_config.trigger.send_recovery_mail ≡ true)
    × (was_alert calm_context.prev ≡ true)
    × (is_empty calm_context.filtered ≡ true)
    × (calm_context.raw_warns_empty ≡ true)
    × (leb_ℤ mail_config.persistence.consecutive_runs calm_context.new_streak ≡ true))
choose_recovery_exact_example = choose_recovery_exact world calm_context mail_config

alert_chosen : choose_action world alert_context mail_config ≡ send_alert
unfolding choose_action decide drop_recovery
alert_chosen = refl

alert_tried :
    (dispatch no_mail_world (some alert_context) mail_config warned_report "r.html" none).attempted
    ≡ some (alert_mail warned_report alert_context (load_html_body "r.html" none) "r.html")
unfolding dispatch choose_action decide drop_recovery perform send_then_save
alert_tried = refl

undelivered_keeps_file_example :
    file_after no_mail_world
      (dispatch no_mail_world (some alert_context) mail_config warned_report "r.html" none)
      (stored after_mail)
    ≡ stored after_mail
undelivered_keeps_file_example =
    undelivered_keeps_file no_mail_world alert_context mail_config warned_report "r.html" none
      (stored after_mail)
      (alert_mail warned_report alert_context (load_html_body "r.html" none) "r.html") alert_tried
      refl

-- a context with nothing to say
abbrev idle_context : PrepContext
idle_context = record calm_context { prev = cold_state }

idle_undelivered :
    (dispatch world (some idle_context) mail_config calm_report "r.html" none).delivered ≡ false
unfolding dispatch choose_action decide drop_recovery perform send_then_save
idle_undelivered = refl

idle_saved :
    (dispatch world (some idle_context) mail_config calm_report "r.html" none).saved
    ≡ some (suppressed_state idle_context)
unfolding dispatch choose_action decide drop_recovery perform send_then_save
idle_saved = refl

signature_of_keys_example :
    signature world.digest (down_alert ∷ down_alert ∷ [])
    ≡ signature world.digest (record down_alert { value = "2" } ∷ [])
signature_of_keys_example =
    signature_of_keys world.digest (down_alert ∷ down_alert ∷ [])
      (record down_alert { value = "2" } ∷ []) (λ k. ground arith)

-- one hour and three hours, in nanoseconds
abbrev one_hour : ℕ
one_hour = 3_600_000_000_000

abbrev three_hours : ℕ
three_hours = 10_800_000_000_000

-- the state file behind a first round that mails the alert
abbrev mailed_file : StateFile
mailed_file = file_of_round eager_config missing (round_at 100)

first_action : round_action eager_config (load_state missing) (round_at 100) ≡ send_alert
unfolding round_outcome dispatch choose_action decide drop_recovery perform send_then_save
    prepare_context extract_alerts extract_checks attribute_hosts attribute_checks lookup_or lookup
    apply_persistence update_recovery_streak cooldown_of sub_time ◌*ℤ◌ ◌+ℤ◌ wrap64 signature
    seen_keys add_key hash_input sort_by insert_by text_leb normalize_field strip_prefix concat
    append load_state file_after file_with save_state
first_action = refl

first_delivered : (round_outcome eager_config (load_state missing) (round_at 100)).delivered ≡ true
unfolding round_outcome dispatch choose_action decide drop_recovery perform send_then_save
    prepare_context extract_alerts extract_checks attribute_hosts attribute_checks lookup_or lookup
    apply_persistence update_recovery_streak cooldown_of sub_time ◌*ℤ◌ ◌+ℤ◌ wrap64 signature
    seen_keys add_key hash_input sort_by insert_by text_leb normalize_field strip_prefix concat
    append load_state file_after file_with save_state
first_delivered = refl

quiet_delivered :
    (round_outcome eager_config (load_state mailed_file) (round_at one_hour)).delivered ≡ false
unfolding round_outcome dispatch choose_action decide drop_recovery perform send_then_save
    prepare_context extract_alerts extract_checks attribute_hosts attribute_checks lookup_or lookup
    apply_persistence update_recovery_streak cooldown_of sub_time ◌*ℤ◌ ◌+ℤ◌ wrap64 signature
    seen_keys add_key hash_input sort_by insert_by text_leb normalize_field strip_prefix concat
    append load_state file_after file_with save_state
quiet_delivered = refl

-- the state file behind a second round, in which nothing is sent
abbrev quiet_file : StateFile
quiet_file = file_of_round eager_config mailed_file (round_at one_hour)

later_action : round_action eager_config (load_state quiet_file) (round_at three_hours) ≡ send_alert
unfolding round_outcome dispatch choose_action decide drop_recovery perform send_then_save
    prepare_context extract_alerts extract_checks attribute_hosts attribute_checks lookup_or lookup
    apply_persistence update_recovery_streak cooldown_of sub_time ◌*ℤ◌ ◌+ℤ◌ wrap64 signature
    seen_keys add_key hash_input sort_by insert_by text_leb normalize_field strip_prefix concat
    append load_state file_after file_with save_state
later_action = refl

later_signature :
    signature world.digest
      (prepare_context eager_config (load_state quiet_file) three_hours warned_report).filtered
    ≡ signature world.digest
        (prepare_context eager_config (load_state missing) 100 warned_report).filtered
unfolding round_outcome dispatch choose_action decide drop_recovery perform send_then_save
    prepare_context extract_alerts extract_checks attribute_hosts attribute_checks lookup_or lookup
    apply_persistence update_recovery_streak cooldown_of sub_time ◌*ℤ◌ ◌+ℤ◌ wrap64 signature
    seen_keys add_key hash_input sort_by insert_by text_leb normalize_field strip_prefix concat
    append load_state file_after file_with save_state
later_signature = refl

resend_waits_example :
    leb_ℤ (cooldown_of eager_config.trigger.min_interval_minutes) (sub_time three_hours 100) ≡ true
resend_waits_example =
    resend_waits missing (round_at 100) (round_at three_hours) first_action first_delivered refl
      (more (round_at one_hour) stop quiet_delivered) later_action later_signature

-- the state behind a first round that mails the alert
abbrev mailed : State
mailed = record after_mail { last_sent_at = one_hour }

abbrev calm_round : Round ℤ
calm_round = record (round_at three_hours) { report = calm_report }

first_saved : (round_outcome eager_config cold_state (round_at one_hour)).saved ≡ some mailed
unfolding round_outcome dispatch choose_action decide drop_recovery perform send_then_save
    prepare_context extract_alerts extract_checks attribute_hosts attribute_checks lookup_or lookup
    apply_persistence update_recovery_streak cooldown_of sub_time ◌*ℤ◌ ◌+ℤ◌ wrap64 signature
    seen_keys add_key hash_input sort_by insert_by text_leb normalize_field strip_prefix concat
    append
first_saved = refl

recovers : round_action eager_config mailed calm_round ≡ send_recovery
unfolding round_outcome dispatch choose_action decide drop_recovery perform send_then_save
    prepare_context extract_alerts extract_checks attribute_hosts attribute_checks lookup_or lookup
    apply_persistence update_recovery_streak cooldown_of sub_time ◌*ℤ◌ ◌+ℤ◌ wrap64 signature
    seen_keys add_key hash_input sort_by insert_by text_leb normalize_field strip_prefix concat
    append
recovers = refl

recovery_needs_calm_example : CalmFor 1 (calm_round ∷ round_at one_hour ∷ [])
recovery_needs_calm_example =
    recovery_needs_calm eager_config 1 calm_round refl (next (round_at one_hour) start first_saved)
      recovers

-- with two runs to confirm an alert: a first round that stores it as pending, and one that mails it
abbrev waiting : StateFile
waiting = file_of_rounds mail_config (round_at 100 ∷ [])

second_fires :
    has_key "|mysql.down"
      (prepare_context mail_config (load_state waiting) 700 warned_report).filtered
    ≡ true
unfolding file_of_rounds has_key persist_items persist_item confirmed entry_from insert pending_key
    round_outcome dispatch choose_action decide drop_recovery perform send_then_save prepare_context
    extract_alerts extract_checks attribute_hosts attribute_checks lookup_or lookup
    apply_persistence update_recovery_streak cooldown_of sub_time ◌*ℤ◌ ◌+ℤ◌ wrap64 signature
    seen_keys add_key hash_input sort_by insert_by text_leb normalize_field strip_prefix concat
    append load_state file_after file_with save_state
second_fires = refl

first_stores : stored_rounds mail_config (round_at 100 ∷ []) ≡ round_at 100 ∷ []
unfolding stored_rounds file_of_rounds has_key persist_items persist_item confirmed entry_from
    insert pending_key round_outcome dispatch choose_action decide drop_recovery perform
    send_then_save prepare_context extract_alerts extract_checks attribute_hosts attribute_checks
    lookup_or lookup apply_persistence update_recovery_streak cooldown_of sub_time ◌*ℤ◌ ◌+ℤ◌ wrap64
    signature seen_keys add_key hash_input sort_by insert_by text_leb normalize_field strip_prefix
    concat append load_state file_after file_with save_state
first_stores = refl

filtered-PresentFor_example :
    PresentFor 2 "|mysql.down"
      (map (run_of mail_config) (round_at 700 ∷ stored_rounds mail_config (round_at 100 ∷ [])))
filtered-PresentFor_example =
    filtered-PresentFor mail_config 2 "|mysql.down" (round_at 100 ∷ []) (round_at 700) refl
      (omega arith) second_fires

-- the state behind the first of these rounds
abbrev waiting_state : State
waiting_state = record cold_state {
  pending = ("|mysql.down", record { count = pos 1; first_seen = 100 }) ∷ [];
}

waiting_saved : (round_outcome mail_config cold_state (round_at 100)).saved ≡ some waiting_state
unfolding has_key persist_items persist_item confirmed entry_from insert pending_key round_outcome
    dispatch choose_action decide drop_recovery perform send_then_save prepare_context
    extract_alerts extract_checks attribute_hosts attribute_checks lookup_or lookup
    apply_persistence update_recovery_streak cooldown_of sub_time ◌*ℤ◌ ◌+ℤ◌ wrap64 signature
    seen_keys add_key hash_input sort_by insert_by text_leb normalize_field strip_prefix concat
    append load_state file_after file_with save_state
waiting_saved = refl

always_down :
    AlwaysIn 100 "|mysql.down" (map (run_of mail_config) (round_at 700 ∷ round_at 100 ∷ []))
unfolding has_key pending_key concat append extract_alerts extract_checks lookup_or lookup
    attribute_hosts
always_down = (refl, omega arith, omega arith, (refl, omega arith, omega arith, tt))

filtered_every_example :
    (has_key "|mysql.down" (prepare_context mail_config waiting_state 700 warned_report).filtered
      ≡ eqb (2 % 2) 0)
    × (is_some (
          lookup "|mysql.down"
            (prepare_context mail_config waiting_state 700 warned_report).next_pending)
        ≡ not (eqb (2 % 2) 0))
filtered_every_example =
    filtered_every mail_config 2 100 "|mysql.down" (round_at 700) refl (omega arith)
      (next (round_at 100) start waiting_saved) always_down
