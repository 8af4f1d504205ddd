-- ===== src/Notify/Demote/OneHost.antt =====
-- The alerts of a report with one host: they are attributed to that host.
use mathlib.Core.List.{append-nil}
use we_term.Model.Report.{HostCheckResult, InspectReport}
use we_term.Model.Status.{CheckResult}
use we_term.Notify.Alerts.{attribute_checks, attribute_hosts, extract_alerts, extract_checks}
use we_term.Notify.Alerts.Attribution.{has_field, lookup_or-attribute_checks}
use we_term.Notify.Demote.{demote_pending}
use we_term.Notify.Demote.Confirmed.{keep-unflagged_confirmed}
use we_term.Notify.Demote.Hosts.{
  host_items, is_held, keep-append, keep_all_same, shown_on_hosts, shown_on_hosts-confirmed,
  unflagged-held,
}
use we_term.Notify.Item.{AlertItem, PendingItem}
use we_term.Notify.Persistence.{apply_persistence}
use we_term.Prelude.{
  All, All-map_imp, Bool, List, String, [], ap, arith, eq_iff, keep, not, refl, some, sym, true, ℕ,
  ◌++◌, ◌∙◌, ◌∷◌, ◌≡◌,
}
use we_term.Prelude.Assoc.{lookup_or}
use we_term.Prelude.Int.{ℤ}

extract_checks-append :
    (m : List (String × String)) (xs ys : List CheckResult)
    → extract_checks m (xs ++ ys) ≡ extract_checks m xs ++ extract_checks m ys
unfolding extract_checks
extract_checks-append m [] ys = refl
extract_checks-append m (c ∷ cs) ys = ground (arith, extract_checks-append m cs ys)

-- Checks whose fields all belong to one address give the items of that address.
extract_checks-own :
    (m : List (String × String)) (ip : String) (cs : List CheckResult)
    → All (λ c. lookup_or "" c.field m ≡ ip) cs
    → extract_checks m cs ≡ host_items ip cs
unfolding extract_checks
extract_checks-own m ip [] h = refl
extract_checks-own m ip (c ∷ cs) h = ground (arith, h.0, extract_checks-own m ip cs h.1)

has_field-cons :
    (c d : CheckResult) (cs : List CheckResult)
    → has_field c.field cs ≡ true
    → has_field c.field (d ∷ cs) ≡ true
has_field-cons c d cs h = ground arith

has_field-All : (cs : List CheckResult) → All (λ c. has_field c.field cs ≡ true) cs
has_field-All [] = tt
has_field-All (c ∷ cs) = (
  ground (arith, eq_iff c.field c.field),
  All-map_imp (λ d. has_field d.field cs ≡ true) (λ d. has_field d.field (c ∷ cs) ≡ true)
      (λ d h. has_field-cons d c cs h) cs (has_field-All cs),
)

own_fields :
    (ip : String) (cs : List CheckResult)
    → All (λ c. lookup_or "" c.field (attribute_checks ip cs []) ≡ ip) cs
own_fields ip cs =
    All-map_imp (λ c. has_field c.field cs ≡ true) _
      (λ c h. lookup_or-attribute_checks c.field ip cs [] ∙ rw h refl) cs (has_field-All cs)

module _ {F : Type 0} (report : InspectReport F) (h : HostCheckResult F) (more : List CheckResult)
    (one : report.hosts ≡ h ∷ []) (all : report.all_checks ≡ h.checks ++ more) where
  -- the alerts behind those of the host
  abbrev other_alerts : List AlertItem
  other_alerts = extract_checks (attribute_checks h.metrics.ip h.checks []) more

  raw_of_one_host : extract_alerts (some report) ≡ host_items h.metrics.ip h.checks ++ other_alerts
  unfolding extract_alerts attribute_hosts
  raw_of_one_host =
      rw (one, all)
        (extract_checks-append (attribute_checks h.metrics.ip h.checks []) h.checks more
          ∙ ap (λ its. its ++ other_alerts)
              (extract_checks-own _ h.metrics.ip h.checks (own_fields h.metrics.ip h.checks)))

  -- The confirmed alerts are those warnings that the demoted report shows at the host, and behind
  -- them others.
  pub filtered-one_host :
      (prev : List (String × PendingItem)) (n : ℤ) (now : ℕ)
      → let r = apply_persistence (extract_alerts (some report)) prev n now in
        (others : List AlertItem) × (r.filtered
          ≡ shown_on_hosts (demote_pending report r.pending_keys).hosts ++ others)
  filtered-one_host prev n now =
      let raw = extract_alerts (some report) in
      let p : AlertItem → Bool = λ it. not (is_held raw prev n now it) in
      let shown : shown_on_hosts report.hosts ≡ host_items h.metrics.ip h.checks ++ [] =
        ap shown_on_hosts one in
      (
        keep p other_alerts,
        sym (keep-unflagged_confirmed raw prev n now)
            ∙ keep_all_same _ p (unflagged-held raw prev n now) raw
            ∙ ap (keep p) raw_of_one_host
            ∙ keep-append p (host_items h.metrics.ip h.checks) other_alerts
            ∙ ap (λ its. keep p its ++ keep p other_alerts)
                (sym (shown ∙ append-nil (host_items h.metrics.ip h.checks)))
            ∙ ap (λ its. its ++ keep p other_alerts)
                (sym (shown_on_hosts-confirmed report raw prev n now)),
      )
