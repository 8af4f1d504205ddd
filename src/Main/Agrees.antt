-- ===== src/Main/Agrees.antt =====
-- inspect/main.go: the mail of a run and the two report files tell the same.
use we_term.Config.Settings.{Config}
use we_term.Lock.{Kernel}
use we_term.Main.{
  Ended, Session, after_prepare, after_run, after_write, closed, dispatch_config, inspect, main,
}
use we_term.Main.Ends.{main-ind}
use we_term.Model.Float.{FloatOps}
use we_term.Model.Report.{InspectReport}
use we_term.Notify.Alerts.{extract_alerts}
use we_term.Notify.Config.{NotifyConfig}
use we_term.Notify.Demote.Hosts.{is_held, shown_on_hosts}
use we_term.Notify.Dispatch.{
  Mail, PrepContext, StateFile, World, alert_mail, choose_action, dispatch, load_state, perform,
  prepare, recovery_mail, send_then_save,
}
use we_term.Notify.Dispatch.Actions.{choose_recovery_exact}
use we_term.Notify.Dispatch.Report.{prepare_agrees}
use we_term.Notify.Item.{State}
use we_term.Notify.Trigger.{Action, no_action, send_alert, send_recovery}
use we_term.Output.{Hold, Reports, write_reports-Hold}
use we_term.Prelude.{
  Bool-cases, Option, String, inl, inr, is_empty, keep, length, none, not, refl, some, true, ◌≡◌,
  ◌⊎◌,
}
use we_term.Prelude.Attempt.{Attempt, done, fail}
use we_term.Runner.Report.{run-SummaryMatches}
use we_term.Runner.Run.{run}

attempted-send_then_save :
    (w : World) (cfg : NotifyConfig) (mail mail' : Mail) (next : State)
    → (send_then_save w cfg mail next).attempted ≡ some mail'
    → mail' ≡ mail
unfolding send_then_save
attempted-send_then_save w cfg mail mail' next h = elim (Bool-cases (w.deliver cfg mail)) [
  | inl e ↦ cc (simp e at h)
  | inr e ↦ cc (simp e at h)
]

module _ {F : Type 0} where
  -- the mail that goes with an action; a recovery is for a context without alerts
  abbrev pub IsMailOf : Action → InspectReport F → PrepContext → Mail → Type 0
  IsMailOf action report ctx mail =
      (html : String) × (path : String) × (((action ≡ send_alert)
          × (mail ≡ alert_mail report ctx html path))
        ⊎ ((action ≡ send_recovery)
            × (is_empty ctx.filtered ≡ true)
            × (mail ≡ recovery_mail report html path)))

  attempted-perform :
      (action : Action) (w : World) (ctx : PrepContext) (cfg : NotifyConfig)
      (report : InspectReport F) (html path : String) (mail : Mail)
      → choose_action w ctx cfg ≡ action
      → (perform action w ctx cfg report html path).attempted ≡ some mail
      → IsMailOf action report ctx mail
  unfolding perform
  attempted-perform no_action w ctx cfg report html path mail a h = absurd (cc h)
  attempted-perform send_alert w ctx cfg report html path mail a h =
      (html, path, inl (refl, attempted-send_then_save w cfg _ mail _ h))
  attempted-perform send_recovery w ctx cfg report html path mail a h = (
    html,
    path,
    inr (
      refl,
      ((choose_recovery_exact w ctx cfg).0 a).2,
      attempted-send_then_save w cfg _ mail _ h,
    ),
  )

module _ {F : Type 0} (fl : FloatOps F) (s : Session F) (state : StateFile) (files : Reports) where
  -- What a mail and the report files of one run of the program have in common.
  pub record Tells (e : Ended) (mail : Mail) : Type 0 where
    pub settings : Config F
    pub cfg : NotifyConfig
    pub raw : InspectReport F
    pub report : InspectReport F
    pub ctx : PrepContext
    pub dir : String
    -- the collected report, and what Prepare made of it
    pub ran : (run ⦃fl = fl⦄ s.probes settings).result ≡ done raw
    pub prepared : prepare (some cfg) state s.now raw ≡ (some ctx, report)
    -- both files hold the latter
    pub hold : Hold s.writer report dir e.reports
    -- the mail is made of the same report and context, for the action that was chosen, and a
    -- recovery is told of only if there is no alert
    pub is_mail : IsMailOf (choose_action s.world ctx cfg) report ctx mail
    -- the summary in the files counts the alerts of the mail
    pub warns : report.summary.warn_count ≡ length ctx.filtered
    -- the hosts in the files show all their warnings but those that are held back
    pub hosts :
        shown_on_hosts report.hosts
        ≡ keep
            (λ it. not (
              is_held
                (extract_alerts (some raw))
                (load_state state).pending
                cfg.persistence.consecutive_runs
                s.now
                it))
            (shown_on_hosts raw.hosts)

  abbrev Agree : Ended → Type 0
  Agree e = (mail : Mail) → e.attempted ≡ some mail → Tells e mail

  after_write-Agree :
      (settings : Config F) (cfg : NotifyConfig) (raw report : InspectReport F)
      (ctx : Option PrepContext) (dir : String) (written : Reports × Attempt String String)
      → (run ⦃fl = fl⦄ s.probes settings).result ≡ done raw
      → prepare (some cfg) state s.now raw ≡ (ctx, report)
      → ((path : String) → written.1 ≡ done path → Hold s.writer report dir written.0)
      → Agree (after_write s state files (some cfg) ctx report written)
  unfolding after_write closed dispatch_config dispatch
  after_write-Agree settings cfg raw report ctx dir (files', fail e) m p hold =
      λ mail h. absurd (cc h)
  after_write-Agree settings cfg raw report none dir (files', done path) m p hold =
      λ mail h. absurd (cc h)
  after_write-Agree settings cfg raw report (some ctx) dir (files', done path) m p hold = λ mail h.
      let agrees =
        prepare_agrees cfg state s.now raw report ctx
          (run-SummaryMatches fl s.probes settings raw m) p in
      record {
        settings = settings;
        cfg = cfg;
        raw = raw;
        report = report;
        ctx = ctx;
        dir = dir;
        ran = m;
        prepared = p;
        hold = hold path refl;
        is_mail = attempted-perform _ s.world ctx cfg report _ path mail refl h;
        warns = agrees.1;
        hosts = agrees.3;
      }

  after_write-without :
      (report : InspectReport F) (written : Reports × Attempt String String)
      → Agree (after_write s state files none none report written)
  unfolding after_write closed dispatch_config
  after_write-without report (files', fail e) = λ mail h. absurd (cc h)
  after_write-without report (files', done path) = λ mail h. absurd (cc h)

  after_run-Agree :
      (settings : Config F) (dir : String) (c : Option NotifyConfig)
      (result : Attempt String (InspectReport F))
      → (run ⦃fl = fl⦄ s.probes settings).result ≡ result
      → Agree (after_run s state files dir c result)
  unfolding after_run after_prepare prepare
  after_run-Agree settings dir c (fail e) m = λ mail h. absurd (cc h)
  after_run-Agree settings dir none (done raw) m = after_write-without raw _
  after_run-Agree settings dir (some cfg) (done raw) m =
      let p = prepare (some cfg) state s.now raw in
      after_write-Agree settings cfg raw p.1 p.0 dir _ m refl
        (λ path h. write_reports-Hold s.writer p.1 dir path files h)

-- When main attempts a mail, both report files are written before, and they and the mail are made
-- of one and the same report, the one that Prepare left of the collected report: the summary in the
-- files has as many warnings as the mail has alerts, and none for a recovery mail, which like an
-- alert mail goes out only if that action was chosen; and of the warnings that were collected at the
-- hosts the files show all but those whose keys, with the host's own address, are held back.
pub main-Tells :
    {F K : Type 0} (fl : FloatOps F) (s : Session F) (state : StateFile) (files : Reports)
    (kernel : Kernel K) (k : K) (mail : Mail)
    → (main s state files kernel k fl).0.attempted ≡ some mail
    → Tells fl s state files (main s state files kernel k fl).0 mail
unfolding inspect
main-Tells fl s state files kernel k =
    main-ind fl s state files kernel k (Agree fl s state files) (λ mail h. absurd (cc h))
      (λ mail h. absurd (cc h))
      (λ cfg. after_run-Agree fl s state files cfg cfg.output_dir _ _ refl)
