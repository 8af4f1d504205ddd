-- ===== src/Notify/Alerts/Attribution.antt =====
-- inspect/notify/alerts.go: which host an alert is attributed to.
use we_term.Model.Report.{HostCheckResult, InspectReport}
use we_term.Model.Status.{CheckResult, is_warn}
use we_term.Notify.Alerts.{
  attribute_checks, attribute_hosts, extract_alerts, extract_checks, host_by_field,
}
use we_term.Notify.Item.{AlertItem}
use we_term.Prelude.{
  All, Bool, Bool-cases, List, String, [], ap, arith, false, if◌then◌else◌, inl, inr, refl, some,
  ◌==◌, ◌||◌, ◌∙◌, ◌∷◌, ◌≡◌,
}
use we_term.Prelude.Assoc.{insert, lookup_or, lookup_or-insert}

-- whether one of the checks is of the field
abbrev pub has_field : String → List CheckResult → Bool
has_field f [] = false
has_field f (c ∷ cs) = c.field == f || has_field f cs

pub lookup_or-attribute_checks :
    (f ip : String) (cs : List CheckResult) (m : List (String × String))
    → lookup_or "" f (attribute_checks ip cs m) ≡ (if has_field f cs then ip else lookup_or "" f m)
unfolding attribute_checks
lookup_or-attribute_checks f ip [] m = refl
lookup_or-attribute_checks f ip (c ∷ cs) m = ground (
  arith,
  lookup_or-attribute_checks f ip cs (insert c.field ip m),
  lookup_or-insert "" c.field f ip m,
)

module _ {F : Type 0} where
  -- the address of the last host with a check of the field
  abbrev pub last_host_of : String → String → List (HostCheckResult F) → String
  last_host_of f found [] = found
  last_host_of f found (h ∷ hs) =
      last_host_of f (if has_field f h.checks then h.metrics.ip else found) hs

  lookup_or-attribute_hosts :
      (f : String) (hs : List (HostCheckResult F)) (m : List (String × String))
      → lookup_or "" f (attribute_hosts hs m) ≡ last_host_of f (lookup_or "" f m) hs
  unfolding attribute_hosts
  lookup_or-attribute_hosts f [] m = refl
  lookup_or-attribute_hosts f (h ∷ hs) m =
      lookup_or-attribute_hosts f hs (attribute_checks h.metrics.ip h.checks m)
      ∙ ap (λ ip. last_host_of f ip hs) (lookup_or-attribute_checks f h.metrics.ip h.checks m)

  -- the alert names the last host with a check of its field
  abbrev Attributed : List (HostCheckResult F) → AlertItem → Type 0
  Attributed hs a = a.host ≡ last_host_of a.field "" hs

  extract_checks-Attributed :
      (hs : List (HostCheckResult F)) (cs : List CheckResult)
      → All (Attributed hs) (extract_checks (host_by_field hs) cs)
  unfolding extract_checks lookup_or
  extract_checks-Attributed hs [] = tt
  extract_checks-Attributed hs (c ∷ cs) = elim (Bool-cases (is_warn c)) [
    | inr e ↦ rw e (extract_checks-Attributed hs cs)
    | inl e ↦ rw e (lookup_or-attribute_hosts c.field hs [], extract_checks-Attributed hs cs)
  ]

  -- Every alert carries the address of the last host, in the report's order, that has a check of
  -- the alert's field, whichever host the warning is about.
  pub extract_alerts_last_host :
      (report : InspectReport F)
      → All (λ a. a.host ≡ last_host_of a.field "" report.hosts) (extract_alerts (some report))
  unfolding extract_alerts
  extract_alerts_last_host report = extract_checks-Attributed report.hosts report.all_checks
