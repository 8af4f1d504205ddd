-- ===== src/Tests/Notify.antt =====
-- Concrete cases of the theorems about inspect/notify.
use we_term.Checker.Summary.{summarize, summarize_onto, tally}
use we_term.Notify.Alerts.{extract_alerts}
use we_term.Notify.Config.{
  fill_defaults, load_notify, load_notify-positive, parsed, validate_notify,
}
use we_term.Notify.Demote.{demote_pending}
use we_term.Notify.Demote.Agrees.{SummaryMatches, extract_alerts-demote_pending, unflagged}
use we_term.Notify.Demote.Confirmed.{extract_alerts-confirmed}
use we_term.Notify.Demote.Hosts.{is_held, shown_on_hosts}
use we_term.Notify.Dispatch.{load_state, missing, prepare, prepare_context, prepare_report}
use we_term.Notify.Dispatch.Report.{prepare_agrees}
use we_term.Notify.HtmlFrag.{element, extract_body, from_first, inner}
use we_term.Notify.HtmlFrag.Sound.{ElementOf, extract_body-ElementOf}
use we_term.Notify.Item.{AlertItem, cold_state, item_key}
use we_term.Notify.Persistence.{apply_persistence, confirmed, next_entry}
use we_term.Notify.Persistence.Filter.{apply_persistence_exact, has_key, waits}
use we_term.Notify.Signature.Queues.{stalled_field}
use we_term.Prelude.{
  String, [], false, if◌then◌else◌, keep, length, none, not, refl, some, true, ◌&&◌, ◌∷◌, ◌≡◌,
}
use we_term.Prelude.Assoc.{lookup, lookup_or}
use we_term.Prelude.Int.{leb_ℤ, ltb_ℤ, pos}
use we_term.Prelude.Search.{cut, strip_prefix}
use we_term.Prelude.Text.{append}
use we_term.Tests.Data.{down_alert, flagged, int_floats, mail_config, seen_once, warned_report}

warned_matches : SummaryMatches warned_report
unfolding summarize summarize_onto tally
warned_matches = refl

prepares : prepare (some mail_config) missing 500 warned_report ≡ (
  some (prepare_context mail_config cold_state 500 warned_report),
  prepare_report mail_config cold_state 500 warned_report,
)
unfolding prepare validate_notify load_state
prepares = refl

prepare_agrees_example :
    (extract_alerts (some (prepare_report mail_config cold_state 500 warned_report))
      ≡ (prepare_context mail_config cold_state 500 warned_report).filtered)
    × ((prepare_report mail_config cold_state 500 warned_report).summary.warn_count
        ≡ length (prepare_context mail_config cold_state 500 warned_report).filtered)
    × SummaryMatches (prepare_report mail_config cold_state 500 warned_report)
    × (shown_on_hosts (prepare_report mail_config cold_state 500 warned_report).hosts
        ≡ keep
            (λ it. not (
              is_held
                (extract_alerts (some warned_report))
                (load_state missing).pending
                mail_config.persistence.consecutive_runs
                500
                it))
            (shown_on_hosts warned_report.hosts))
prepare_agrees_example =
    prepare_agrees mail_config missing 500 warned_report
      (prepare_report mail_config cold_state 500 warned_report)
      (prepare_context mail_config cold_state 500 warned_report) warned_matches prepares

apply_persistence_exact_example :
    ((apply_persistence (down_alert ∷ []) seen_once (pos 2) 700).filtered
      ≡ keep (λ it. confirmed seen_once (pos 2) 700 (item_key it)) (down_alert ∷ []))
    × (lookup "|mysql.down" (apply_persistence (down_alert ∷ []) seen_once (pos 2) 700).next_pending
        ≡ (if has_key "|mysql.down" (down_alert ∷ []) && waits seen_once (pos 2) 700 "|mysql.down"
            then some (next_entry seen_once 700 "|mysql.down")
            else none))
    × (lookup_or false "|mysql.down"
          (apply_persistence (down_alert ∷ []) seen_once (pos 2) 700).pending_keys
        ≡ (has_key "|mysql.down" (down_alert ∷ []) && waits seen_once (pos 2) 700 "|mysql.down"))
apply_persistence_exact_example =
    apply_persistence_exact (down_alert ∷ []) seen_once (pos 2) 700 "|mysql.down" refl

extract_alerts-confirmed_example :
    extract_alerts (
      some (
        demote_pending warned_report
          (apply_persistence
            (extract_alerts (some warned_report))
            seen_once
            (pos 2)
            700).pending_keys))
    ≡ (apply_persistence (extract_alerts (some warned_report)) seen_once (pos 2) 700).filtered
extract_alerts-confirmed_example = extract_alerts-confirmed warned_report seen_once (pos 2) 700

extract_alerts-demote_pending_example :
    extract_alerts (some (demote_pending warned_report flagged))
    ≡ keep (unflagged flagged) (extract_alerts (some warned_report))
extract_alerts-demote_pending_example = extract_alerts-demote_pending warned_report flagged

load_notify-positive_example :
    (ltb_ℤ (pos 0) (fill_defaults "/etc/n.json" mail_config).trigger.min_interval_minutes ≡ true)
    × (leb_ℤ (pos 1) (fill_defaults "/etc/n.json" mail_config).persistence.consecutive_runs ≡ true)
    × ((fill_defaults "/etc/n.json" mail_config).path ≡ "/etc/n.json")
unfolding load_notify
load_notify-positive_example =
    load_notify-positive "/etc/n.json" (parsed mail_config)
      (fill_defaults "/etc/n.json" mail_config) refl

abbrev page : String
page = "<html><body class=x><p>hi</p></body></html>"

page_extracted : extract_body page ≡ some "<p>hi</p>"
unfolding extract_body element from_first inner cut strip_prefix append
page_extracted = refl

extract_body-ElementOf_example : ElementOf "<body" "</body>" page "<p>hi</p>"
extract_body-ElementOf_example = extract_body-ElementOf page "<p>hi</p>" page_extracted

abbrev stalled_alert : String → AlertItem
stalled_alert queue = record {
  host = "";
  field = stalled_field "prod" queue;
  value = "7";
  threshold = "";
}
