-- ===== src/Notify/Alerts.antt =====
-- inspect/notify/alerts.go: the Warn entries of a report as alert items, with a host each.
pub mod Attribution
use we_term.Model.Report.{HostCheckResult, InspectReport}
use we_term.Model.Status.{CheckResult, is_unknown, is_warn}
use we_term.Notify.Item.{AlertItem}
use we_term.Prelude.{List, Option, String, [], count_if, if◌then◌else◌, none, some, ℕ, ◌∷◌}
use we_term.Prelude.Assoc.{insert, lookup_or}

-- hostByField: the loops over the hosts and their checks. A later write of a field replaces an
-- earlier one.
unfoldable pub attribute_checks :
    String → List CheckResult → List (String × String) → List (String × String)
attribute_checks ip [] m = m
attribute_checks ip (c ∷ cs) m = attribute_checks ip cs (insert c.field ip m)

module _ {F : Type 0} where
  unfoldable pub attribute_hosts :
      List (HostCheckResult F) → List (String × String) → List (String × String)
  unfolding attribute_checks
  attribute_hosts [] m = m
  attribute_hosts (h ∷ hs) m = attribute_hosts hs (attribute_checks h.metrics.ip h.checks m)

  abbrev pub host_by_field : List (HostCheckResult F) → List (String × String)
  host_by_field hs = attribute_hosts hs []

-- The alert item of a check; a field of no host has the host "".
abbrev pub alert_of : List (String × String) → CheckResult → AlertItem
alert_of by_field c = record {
  host = lookup_or "" c.field by_field;
  field = c.field;
  value = c.value;
  threshold = c.threshold;
}

-- The loop over AllChecks.
unfoldable pub extract_checks : List (String × String) → List CheckResult → List AlertItem
extract_checks by_field [] = []
extract_checks by_field (c ∷ cs) =
    let rest = extract_checks by_field cs in if is_warn c then alert_of by_field c ∷ rest else rest

-- ExtractAlerts; `none` is a nil report
unfoldable pub extract_alerts : {F : Type 0} → Option (InspectReport F) → List AlertItem
unfolding extract_checks attribute_hosts
extract_alerts none = []
extract_alerts (some report) = extract_checks (host_by_field report.hosts) report.all_checks

-- ExtractUnknowns
unfoldable pub extract_unknowns : {F : Type 0} → Option (InspectReport F) → ℕ
extract_unknowns none = 0
extract_unknowns (some report) = count_if is_unknown report.all_checks
