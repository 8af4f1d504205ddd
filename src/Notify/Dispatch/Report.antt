-- ===== src/Notify/Dispatch/Report.antt =====
-- What Prepare leaves in the report agrees with what Dispatch mails.
use we_term.Model.Report.{HostCheckResult, InspectReport}
use we_term.Model.Status.{CheckResult}
use we_term.Notify.Alerts.{extract_alerts}
use we_term.Notify.Config.{NotifyConfig, validate_notify}
use we_term.Notify.Demote.Agrees.{
  SummaryMatches, demote_pending-SummaryMatches, length-extract_alerts,
}
use we_term.Notify.Demote.Confirmed.{extract_alerts-confirmed}
use we_term.Notify.Demote.Hosts.{is_held, shown_on_hosts, shown_on_hosts-confirmed}
use we_term.Notify.Demote.OneHost.{filtered-one_host}
use we_term.Notify.Dispatch.{
  PrepContext, StateFile, World, dispatch, file_after, file_with, load_state, prepare,
  prepare_context, prepare_report,
}
use we_term.Notify.Item.{AlertItem, State}
use we_term.Prelude.{
  List, Option, String, [], ap, arith, false, keep, length, none, not, refl, some, sym, ℕ, ◌++◌,
  ◌∙◌, ◌∷◌, ◌≡◌, ◌⊎◌,
}

module _ {F : Type 0} (cfg : NotifyConfig) (prev : State) (now : ℕ) (report : InspectReport F) where
  alerts-prepare_report :
      extract_alerts (some (prepare_report cfg prev now report))
      ≡ (prepare_context cfg prev now report).filtered
  unfolding prepare_report prepare_context
  alerts-prepare_report =
      extract_alerts-confirmed report prev.pending cfg.persistence.consecutive_runs now

  hosts-prepare_report :
      shown_on_hosts (prepare_report cfg prev now report).hosts
      ≡ keep
          (λ it. not (
            is_held
              (extract_alerts (some report))
              prev.pending
              cfg.persistence.consecutive_runs
              now
              it))
          (shown_on_hosts report.hosts)
  unfolding prepare_report
  hosts-prepare_report =
      shown_on_hosts-confirmed report (extract_alerts (some report)) prev.pending
        cfg.persistence.consecutive_runs now

  prepare_report-SummaryMatches :
      SummaryMatches report → SummaryMatches (prepare_report cfg prev now report)
  unfolding prepare_report
  prepare_report-SummaryMatches h = demote_pending-SummaryMatches report _ h

pub prepared :
    {F : Type 0} (cfg : NotifyConfig) (file : StateFile) (now : ℕ)
    (report report' : InspectReport F) (ctx : PrepContext)
    → prepare (some cfg) file now report ≡ (some ctx, report')
    → (ctx ≡ prepare_context cfg (load_state file) now report)
      × (report' ≡ prepare_report cfg (load_state file) now report)
unfolding prepare
prepared cfg file now report report' ctx h = (ground arith, ground arith)

not_prepared :
    {F : Type 0} (cfg : NotifyConfig) (file : StateFile) (now : ℕ) (report : InspectReport F)
    (why : String)
    → (cfg.email.enabled ≡ false) ⊎ (validate_notify cfg ≡ some why)
    → prepare (some cfg) file now report ≡ (none, report)
unfolding prepare
not_prepared cfg file now report why h = ground arith

-- When Prepare succeeds on a report whose summary matches its checks: the warnings that are left
-- among AllChecks are, as alerts, exactly those that go into the mail; the number of warnings in the
-- summary is their number, and the summary still matches AllChecks; and of the warnings at the
-- single hosts the report still shows exactly those whose key, with the host's own address, is not
-- held back, that is, is not a key of the raw alerts that was there for fewer than N runs.
pub prepare_agrees :
    {F : Type 0} (cfg : NotifyConfig) (file : StateFile) (now : ℕ)
    (report report' : InspectReport F) (ctx : PrepContext)
    → SummaryMatches report
    → prepare (some cfg) file now report ≡ (some ctx, report')
    → (extract_alerts (some report') ≡ ctx.filtered)
      × (report'.summary.warn_count ≡ length ctx.filtered)
      × SummaryMatches report'
      × (shown_on_hosts report'.hosts
          ≡ keep
              (λ it. not (
                is_held
                  (extract_alerts (some report))
                  (load_state file).pending
                  cfg.persistence.consecutive_runs
                  now
                  it))
              (shown_on_hosts report.hosts))
prepare_agrees cfg file now report report' ctx m h =
    let p = prepared cfg file now report report' ctx h in
    let prev = load_state file in
    let shown = alerts-prepare_report cfg prev now report in
    let matches = prepare_report-SummaryMatches cfg prev now report m in
    let counted = length-extract_alerts (prepare_report cfg prev now report) matches in
    rw (p.0, p.1)
      (shown, sym counted ∙ ap length shown, matches, hosts-prepare_report cfg prev now report)

-- With one host, whose checks stand first among AllChecks: when Prepare succeeds, the alerts of the
-- mail are the warnings that the report still shows at the host, and behind them others.
pub prepare_one_host :
    {F : Type 0} (cfg : NotifyConfig) (file : StateFile) (now : ℕ)
    (report report' : InspectReport F) (ctx : PrepContext) (h : HostCheckResult F)
    (more : List CheckResult)
    → report.hosts ≡ h ∷ []
    → report.all_checks ≡ h.checks ++ more
    → prepare (some cfg) file now report ≡ (some ctx, report')
    → (others : List AlertItem) × (ctx.filtered ≡ shown_on_hosts report'.hosts ++ others)
unfolding prepare_context prepare_report
prepare_one_host cfg file now report report' ctx h more one all e =
    let p = prepared cfg file now report report' ctx e in
    rw (p.0, p.1)
      (filtered-one_host report h more one all (load_state file).pending
        cfg.persistence.consecutive_runs now)

-- With mails disabled or with a required setting missing, Prepare gives no
-- context and leaves the report as it is, and Dispatch then sends and stores nothing.
prepare_idle :
    {F : Type 0} (cfg : NotifyConfig) (file : StateFile) (now : ℕ) (report : InspectReport F)
    (w : World) (path : String) (read : Option String) (why : String)
    → (cfg.email.enabled ≡ false) ⊎ (validate_notify cfg ≡ some why)
    → (prepare (some cfg) file now report ≡ (none, report))
      × (file_after w (dispatch w (prepare (some cfg) file now report).0 cfg report path read) file
          ≡ file)
      × ((dispatch w (prepare (some cfg) file now report).0 cfg report path read).attempted ≡ none)
unfolding dispatch file_after file_with
prepare_idle cfg file now report w path read why h =
    rw (not_prepared cfg file now report why h) (refl, refl, refl)
