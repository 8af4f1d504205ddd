-- ===== src/Runner/Run.antt =====
-- inspect/runner/runner.go: Run and RunHostsOnly.
use we_term.Checker.Es.{check_es}
use we_term.Checker.Host.{check_host}
use we_term.Checker.Mongo.{check_bk_deps, check_mongo}
use we_term.Checker.RabbitMq.{check_rabbit_mq}
use we_term.Checker.Redis.{check_redis, check_redis_sentinel}
use we_term.Checker.Replication.{check_replication}
use we_term.Checker.Result.{check_each, collect}
use we_term.Checker.Summary.{summarize}
use we_term.Config.Settings.{Config}
use we_term.Model.Float.{FloatOps}
use we_term.Model.Host.{ServiceStatus}
use we_term.Model.RabbitMq.{BkMonitorSection, DependencyResult}
use we_term.Model.Report.{InspectReport}
use we_term.Model.Status.{CheckResult}
use we_term.Prelude.{List, Option, String, [], length, map, none, some, ◌++◌, ◌∷◌}
use we_term.Prelude.Attempt.{Attempt, done, fail}
use we_term.Prelude.Int.{pos}
use we_term.Prelude.Text.{append, concat, itoa}
use we_term.Runner.{Probes, check_module, cross_check_sentinel_master, empty_report, host_result}

-- What a run leaves: the messages that `progress` got, and the report or the error.
pub record Ran (F : Type 0) : Type 0 where
  pub progress : List String
  pub result : Attempt String (InspectReport F)

-- the section that Run makes of the dependencies, unless they are nil
abbrev deps_section : Option (List DependencyResult) → Option BkMonitorSection
deps_section none = none
deps_section (some deps) = some (record { dependencies = deps })

module _ {F : Type 0} ⦃fl : FloatOps F⦄ where
  -- one more message in front of what the rest emits
  abbrev pub emit : String → Ran F → Ran F
  emit m r = record r { progress = m ∷ r.progress }

  abbrev pub stop_with : String → Ran F
  stop_with e = record { progress = []; result = fail e }

  -- if err := ctx.Err(); err != nil { return nil, err }
  abbrev pub unless_cancelled : Option String → Ran F → Ran F
  unless_cancelled none rest = rest
  unless_cancelled (some e) rest = stop_with e

  -- the checks of phase 1
  unfoldable pub host_checks : Probes F → Config F → List CheckResult
  host_checks p cfg =
      collect (λ hm. check_host hm cfg.thresholds)
        (p.all_hosts cfg.all_hosts cfg.check_mount_path cfg.disk_include_nfs)

  -- the report behind phase 1
  unfoldable pub collect_hosts : Probes F → Config F → InspectReport F
  collect_hosts p cfg = record (empty_report p.timestamp) {
    hosts =
        map (host_result cfg.thresholds)
          (p.all_hosts cfg.all_hosts cfg.check_mount_path cfg.disk_include_nfs);
  }

  -- the statuses behind phase 2, with the checks of all modules
  unfoldable pub service_phase :
      Probes F → Config F → List CheckResult × List (String × List ServiceStatus)
  service_phase p cfg = check_each (check_module cfg.thresholds) (p.all_services cfg)

  -- phase 3 behind the checks of the others, with the summary
  unfoldable pub component_phase :
      Probes F → Config F → List CheckResult → InspectReport F → InspectReport F
  component_phase p cfg checks report =
      let t = cfg.thresholds in
      let es = check_es (p.es cfg) t in
      let redis = check_redis (p.redis_standalone cfg) t in
      let sentinel =
        check_redis_sentinel
          (cross_check_sentinel_master (p.redis_sentinel cfg) cfg.addresses.redis_master_ips) in
      let mongo = check_mongo (p.mongo cfg) in
      let rabbit = check_rabbit_mq (p.rabbit_mq cfg) t in
      let deps = check_bk_deps (deps_section (p.bk_monitor_deps cfg)) in
      let all =
        checks
        ++ (es.0
            ++ (redis.0
                ++ (sentinel.0
                    ++ (mongo.0
                        ++ (rabbit.0 ++ (deps.0 ++ check_replication (p.replication cfg) t)))))) in
      record report {
        es = es.1;
        mysql = p.mysql cfg;
        redis_standalone = redis.1;
        redis_sentinel = sentinel.1;
        mongo_db = mongo.1;
        rabbit_mq = rabbit.1;
        replication = p.replication cfg;
        bk_monitor_v3 = deps.1;
        summary = summarize all;
        all_checks = all;
      }

  -- the report of a run that is not stopped
  abbrev pub full_report : Probes F → Config F → InspectReport F
  full_report p cfg =
      component_phase p cfg (host_checks p cfg ++ (service_phase p cfg).0)
        (record (collect_hosts p cfg) { services = (service_phase p cfg).1 })

  -- Run
  unfoldable pub run : Probes F → Config F → Ran F
  run p cfg = elim p.ssh_error [
    | some e ↦ stop_with (append "SSH 客户端初始化失败: " e)
    | none ↦ unless_cancelled (p.ctx_err 1) (
        emit (concat ("[1/3] 采集主机指标 (" ∷ itoa (pos (length cfg.all_hosts)) ∷ " 台主机)..." ∷ [])) (
          unless_cancelled (p.ctx_err 2) (
            emit "[2/3] 采集蓝鲸模块状态..." (
              unless_cancelled (p.ctx_err 3) (
                emit "[3/3] 采集开源组件状态..."
                  (record { progress = []; result = done (full_report p cfg) }))))))
  ]

  -- the report of RunHostsOnly
  abbrev pub hosts_report : Probes F → Config F → InspectReport F
  hosts_report p cfg = record (collect_hosts p cfg) {
    summary = summarize (host_checks p cfg);
    all_checks = host_checks p cfg;
  }

  -- RunHostsOnly
  unfoldable pub run_hosts_only : Probes F → Config F → Ran F
  run_hosts_only p cfg = elim p.ssh_error [
    | some e ↦ stop_with (append "SSH 客户端初始化失败: " e)
    | none ↦ unless_cancelled (p.ctx_err 1) (
        emit (concat ("采集主机指标 (" ∷ itoa (pos (length cfg.all_hosts)) ∷ " 台主机)..." ∷ []))
          (record { progress = []; result = done (hosts_report p cfg) }))
  ]
