-- ===== src/Notify/Demote.antt =====
-- demotePending and recomputeSummary of inspect/notify/notify.go.
pub mod Agrees
pub mod Confirmed
pub mod Hosts
pub mod OneHost
use we_term.Model.Report.{HostCheckResult, InspectReport}
use we_term.Model.Status.{
  CheckResult, CheckStatus, CheckSummary, is_warn, notice, ok, unknown, warn,
}
use we_term.Notify.Alerts.{host_by_field}
use we_term.Notify.Item.{pending_key}
use we_term.Prelude.{Bool, List, String, [], false, if◌then◌else◌, is_empty, map, ◌+◌, ◌∷◌}
use we_term.Prelude.Assoc.{lookup_or}

-- The switch of recomputeSummary, which names no case for a notice.
unfoldable pub recompute_tally : CheckStatus → CheckSummary → CheckSummary
recompute_tally ok s = record s { ok_count = s.ok_count + 1; total = s.total + 1 }
recompute_tally warn s = record s { warn_count = s.warn_count + 1; total = s.total + 1 }
recompute_tally unknown s = record s { unknown_count = s.unknown_count + 1; total = s.total + 1 }
recompute_tally _ s = s

unfoldable pub recompute_onto : CheckSummary → List CheckResult → CheckSummary
unfolding recompute_tally
recompute_onto s [] = s
recompute_onto s (r ∷ results) = recompute_onto (recompute_tally r.status s) results

-- recomputeSummary
unfoldable pub recompute_summary : List CheckResult → CheckSummary
unfolding recompute_onto
recompute_summary results =
    recompute_onto (record { total = 0; ok_count = 0; warn_count = 0; unknown_count = 0 }) results

-- A Warn check whose key is flagged becomes a Notice.
unfoldable pub demote_check : List (String × Bool) → String → CheckResult → CheckResult
demote_check pending_keys host c =
    if is_warn c
    then (if lookup_or false (pending_key host c.field) pending_keys
        then record c { status = notice }
        else c)
    else c

unfoldable pub demote_all :
    List (String × Bool) → List (String × String) → List CheckResult → List CheckResult
unfolding demote_check
demote_all pending_keys by_field checks =
    map (λ c. demote_check pending_keys (lookup_or "" c.field by_field) c) checks

module _ {F : Type 0} where
  unfoldable pub demote_host : List (String × Bool) → HostCheckResult F → HostCheckResult F
  unfolding demote_check
  demote_host pending_keys h = record h {
    checks = map (demote_check pending_keys h.metrics.ip) h.checks;
  }

  -- demotePending
  unfoldable pub demote_pending : InspectReport F → List (String × Bool) → InspectReport F
  demote_pending report pending_keys =
      let hosts' = map (demote_host pending_keys) report.hosts in
      let checks' = demote_all pending_keys (host_by_field hosts') report.all_checks in
      if is_empty pending_keys then report else record report {
        hosts = hosts';
        all_checks = checks';
        summary = recompute_summary checks';
      }
