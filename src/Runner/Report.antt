-- ===== src/Runner/Report.antt =====
-- inspect/runner/runner.go: when a run gives a report, and how the report's parts agree.
use mathlib.Core.List.{append-nil, append_assoc}
use we_term.Checker.Host.{check_host}
use we_term.Checker.Result.{collect}
use we_term.Config.Settings.{Config}
use we_term.Model.Float.{FloatOps}
use we_term.Model.Host.{HostMetrics}
use we_term.Model.Report.{InspectReport}
use we_term.Model.Status.{CheckResult}
use we_term.Notify.Config.{NotifyConfig}
use we_term.Notify.Demote.Agrees.{SummaryMatches}
use we_term.Notify.Demote.Hosts.{shown_on_hosts}
use we_term.Notify.Dispatch.{PrepContext, StateFile, prepare}
use we_term.Notify.Dispatch.Report.{prepare_agrees, prepare_one_host}
use we_term.Notify.Item.{AlertItem}
use we_term.Prelude.{
  List, Option, Option-cases, String, [], ap, inl, inr, length, map, none, refl, some, sym, ℕ, ◌++◌,
  ◌∙◌, ◌∷◌, ◌≡◌,
}
use we_term.Prelude.Attempt.{Attempt, done, fail}
use we_term.Prelude.Text.{append}
use we_term.Runner.{Probes, host_result}
use we_term.Runner.Run.{
  collect_hosts, component_phase, full_report, host_checks, run, service_phase,
}

-- The error, if any, at which a run stops.
abbrev pub first_error :
    Option String → Option String → Option String → Option String → Option String
first_error (some e) a b c = some (append "SSH 客户端初始化失败: " e)
first_error none (some e) b c = some e
first_error none none (some e) c = some e
first_error none none none c = c

-- How many phases a run has begun by then.
abbrev pub phases_begun : Option String → Option String → Option String → Option String → ℕ
phases_begun (some e) a b c = 0
phases_begun none (some e) b c = 0
phases_begun none none (some e) c = 1
phases_begun none none none (some e) = 2
phases_begun none none none none = 3

abbrev pub outcome_of {ℓ} : {A : Type ℓ} → Option String → A → Attempt String A
outcome_of none a = done a
outcome_of (some e) a = fail e

-- A run ends with the first error of the SSH client and of the checks before the phases, after as
-- many progress messages as phases were begun, and with the full report if there is no error.
pub run_exact :
    {F : Type 0} (fl : FloatOps F) (p : Probes F) (cfg : Config F)
    → ((run ⦃fl = fl⦄ p cfg).result
        ≡ outcome_of
            (first_error p.ssh_error (p.ctx_err 1) (p.ctx_err 2) (p.ctx_err 3))
            (full_report ⦃fl = fl⦄ p cfg))
      × (length (run ⦃fl = fl⦄ p cfg).progress
          ≡ phases_begun p.ssh_error (p.ctx_err 1) (p.ctx_err 2) (p.ctx_err 3))
unfolding run
run_exact fl p cfg = elim (Option-cases p.ssh_error) [
  | inr e ↦ rw e.1 (refl, refl)
  | inl e ↦ rw e (elim (Option-cases (p.ctx_err 1)) [
    | inr f ↦ rw f.1 (refl, refl)
    | inl f ↦ rw f (elim (Option-cases (p.ctx_err 2)) [
      | inr g ↦ rw g.1 (refl, refl)
      | inl g ↦ rw g (elim (Option-cases (p.ctx_err 3)) [
        | inr k ↦ rw k.1 (refl, refl)
        | inl k ↦ rw k (refl, refl)
      ])
    ])
  ])
]

outcome_of-done {ℓ} : {A : Type ℓ} (e : Option String) (a b : A) → outcome_of e a ≡ done b → b ≡ a
outcome_of-done none a b h = cc
outcome_of-done (some e) a b h = cc

-- The report of a finished run is the full report.
pub run-done :
    {F : Type 0} (fl : FloatOps F) (p : Probes F) (cfg : Config F) (report : InspectReport F)
    → (run ⦃fl = fl⦄ p cfg).result ≡ done report
    → report ≡ full_report ⦃fl = fl⦄ p cfg
run-done fl p cfg report h = outcome_of-done _ _ report (sym (run_exact fl p cfg).0 ∙ h)

-- The summary of the report of a finished run is that of all its checks.
pub run-SummaryMatches :
    {F : Type 0} (fl : FloatOps F) (p : Probes F) (cfg : Config F) (report : InspectReport F)
    → (run ⦃fl = fl⦄ p cfg).result ≡ done report
    → SummaryMatches report
unfolding component_phase
run-SummaryMatches fl p cfg report h = rw (run-done fl p cfg report h) refl

first_checks :
    (first all services others : List CheckResult)
    → all ≡ first ++ []
    → (more : List CheckResult) × (((all ++ services) ++ others) ≡ first ++ more)
first_checks first all services others e = (
  services ++ others,
  ap (λ xs. (xs ++ services) ++ others) (e ∙ append-nil first) ∙ append_assoc first services others,
)

-- With one host the report has its checks first.
full_report-one_host :
    {F : Type 0} (fl : FloatOps F) (p : Probes F) (cfg : Config F) (host : HostMetrics F)
    → p.all_hosts cfg.all_hosts cfg.check_mount_path cfg.disk_include_nfs ≡ host ∷ []
    → (more : List CheckResult) × ((full_report ⦃fl = fl⦄ p cfg).hosts
        ≡ host_result ⦃fl = fl⦄ cfg.thresholds host ∷ [])
      × ((full_report ⦃fl = fl⦄ p cfg).all_checks
          ≡ (host_result ⦃fl = fl⦄ cfg.thresholds host).checks ++ more)
unfolding component_phase collect_hosts host_checks collect host_result
full_report-one_host fl p cfg host one =
    let (more, e) =
      first_checks (check_host ⦃fl = fl⦄ host cfg.thresholds) (host_checks ⦃fl = fl⦄ p cfg)
        (service_phase ⦃fl = fl⦄ p cfg).0 _
        (ap (collect (λ hm. check_host ⦃fl = fl⦄ hm cfg.thresholds)) one) in
    (more, ap (map (host_result ⦃fl = fl⦄ cfg.thresholds)) one, e)

-- In a run that collects the metrics of one host: when it gives a report and Prepare succeeds on
-- it, the alerts of the mail are the warnings that the report still shows at that host, and behind
-- them others, and the number of warnings in its summary is the number of alerts in the mail.
pub run-prepare :
    {F : Type 0} (fl : FloatOps F) (p : Probes F) (cfg : Config F)
    (report report' : InspectReport F) (notify : NotifyConfig) (file : StateFile) (now : ℕ)
    (ctx : PrepContext) (host : HostMetrics F)
    → p.all_hosts cfg.all_hosts cfg.check_mount_path cfg.disk_include_nfs ≡ host ∷ []
    → (run ⦃fl = fl⦄ p cfg).result ≡ done report
    → prepare (some notify) file now report ≡ (some ctx, report')
    → ((others : List AlertItem) × (ctx.filtered ≡ shown_on_hosts report'.hosts ++ others))
      × (report'.summary.warn_count ≡ length ctx.filtered)
run-prepare fl p cfg report report' notify file now ctx host one h k =
    let full : report ≡ full_report ⦃fl = fl⦄ p cfg = run-done fl p cfg report h in
    let alone = full_report-one_host fl p cfg host one in
    (
      prepare_one_host notify file now report report' ctx
          (host_result ⦃fl = fl⦄ cfg.thresholds host) alone.0 (rw full alone.1) (rw full alone.2) k,
      (prepare_agrees notify file now report report' ctx (run-SummaryMatches fl p cfg report h)
          k).1,
    )
