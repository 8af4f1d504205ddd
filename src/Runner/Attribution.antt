-- ===== src/Runner/Attribution.antt =====
-- inspect/runner/runner.go with inspect/notify/alerts.go: the host of the alerts that every host
-- can have.
use we_term.Checker.Host.{check_host, grade}
use we_term.Config.Settings.{Config}
use we_term.Config.Thresholds.{Thresholds}
use we_term.Model.Float.{FloatOps}
use we_term.Model.Host.{HostMetrics}
use we_term.Model.Report.{HostCheckResult, InspectReport}
use we_term.Notify.Alerts.{extract_alerts}
use we_term.Notify.Alerts.Attribution.{extract_alerts_last_host, has_field, last_host_of}
use we_term.Notify.Item.{AlertItem}
use we_term.Prelude.{
  All, Bool-cases, List, String, [], ap, eq_iff, inl, inr, keep, map, refl, some, true, ◌++◌, ◌==◌,
  ◌∙◌, ◌∷◌, ◌≡◌,
}
use we_term.Prelude.Attempt.{done}
use we_term.Runner.{Probes, host_result}
use we_term.Runner.Report.{run-done}
use we_term.Runner.Run.{collect_hosts, component_phase, run}

module _ {F : Type 0} ⦃fl : FloatOps F⦄ where
  check_host-cpu :
      (h : HostMetrics F) (t : Thresholds F) → has_field "cpu_usage" (check_host h t) ≡ true
  unfolding check_host grade
  check_host-cpu h t = refl

  last_host_of-cpu :
      (t : Thresholds F) (hms : List (HostMetrics F)) (hm : HostMetrics F) (found : String)
      → last_host_of "cpu_usage" found (map (host_result t) (hms ++ hm ∷ [])) ≡ hm.ip
  unfolding host_result
  last_host_of-cpu t [] hm found = rw (check_host-cpu hm t) refl
  last_host_of-cpu t (h ∷ hms) hm found = last_host_of-cpu t hms hm _

module _ {F : Type 0} where
  keep-All_field :
      (field ip : String) (hs : List (HostCheckResult F)) (items : List AlertItem)
      → last_host_of field "" hs ≡ ip
      → All (λ a. a.host ≡ last_host_of a.field "" hs) items
      → All (λ a. a.host ≡ ip) (keep (λ a. a.field == field) items)
  keep-All_field field ip hs [] e h = tt
  keep-All_field field ip hs (a ∷ items) e h = elim (Bool-cases (a.field == field)) [
    | inr g ↦ rw g (keep-All_field field ip hs items e h.1)
    | inl g ↦ rw g (
      h.0 ∙ ap (λ f. last_host_of f "" hs) ((eq_iff a.field field).0 g) ∙ e,
      keep-All_field field ip hs items e h.1,
    )
  ]

-- In the report of a finished run every alert about the CPU names the last host whose metrics were
-- collected, whichever host exceeds its threshold.
pub run_cpu_alerts :
    {F : Type 0} (fl : FloatOps F) (p : Probes F) (cfg : Config F) (report : InspectReport F)
    (hms : List (HostMetrics F)) (hm : HostMetrics F)
    → (run ⦃fl = fl⦄ p cfg).result ≡ done report
    → p.all_hosts cfg.all_hosts cfg.check_mount_path cfg.disk_include_nfs ≡ hms ++ hm ∷ []
    → All (λ a. a.host ≡ hm.ip) (keep (λ a. a.field == "cpu_usage") (extract_alerts (some report)))
unfolding component_phase collect_hosts
run_cpu_alerts fl p cfg report hms hm h k =
    keep-All_field "cpu_usage" hm.ip report.hosts (extract_alerts (some report))
      (ap (λ r. last_host_of "cpu_usage" "" r.hosts) (run-done fl p cfg report h)
        ∙ ap (λ ms. last_host_of "cpu_usage" "" (map (host_result ⦃fl = fl⦄ cfg.thresholds) ms)) k
        ∙ last_host_of-cpu ⦃fl = fl⦄ cfg.thresholds hms hm "")
      (extract_alerts_last_host report)
