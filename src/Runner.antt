-- ===== src/Runner.antt =====
-- inspect/runner/runner.go, with collector/replication.go's CrossCheckSentinelMaster: a run
-- collects in three phases, applies the rules and sums up. What the collectors and the SSH client
-- answer is `Probes`.
pub mod Run
pub mod Report
pub mod Attribution
pub mod Sentinel
use Prim.Native.Char.{code}
use we_term.Checker.Host.{check_host}
use we_term.Checker.Result.{check_each}
use we_term.Checker.Service.{check_service, check_service_collect_error, check_service_containers}
use we_term.Checker.Summary.{zero_summary}
use we_term.Config.Settings.{Config}
use we_term.Config.Thresholds.{Thresholds}
use we_term.Model.Component.{EsCluster, MongoCluster, RedisNode, SentinelClusterStatus}
use we_term.Model.Float.{FloatOps}
use we_term.Model.Host.{HostMetrics, ServiceModule, ServiceStatus}
use we_term.Model.RabbitMq.{DependencyResult, RabbitMqStatus}
use we_term.Model.Replication.{MysqlCluster, ReplicationReport}
use we_term.Model.Report.{HostCheckResult, InspectReport}
use we_term.Model.Status.{CheckResult}
use we_term.Prelude.{
  Bool, List, Option, String, [], eqb, if◌then◌else◌, none, some, ℕ, ◌++◌, ◌==◌, ◌∷◌,
}
use we_term.Prelude.Sorting.{mem}

-- The answers of the outer world in one run. `ctx_err k` is what the check of ctx.Err() before the
-- phase `k` answers, and a collector's answer may depend on the settings.
pub record Probes (F : Type 0) : Type 0 where
  pub timestamp : String
  pub ssh_error : Option String
  pub ctx_err : ℕ → Option String
  pub all_hosts : List String → String → Bool → List (HostMetrics F)
  pub all_services : Config F → List (String × List ServiceStatus)
  pub es : Config F → List (EsCluster F)
  pub mysql : Config F → List MysqlCluster
  pub redis_standalone : Config F → List RedisNode
  pub redis_sentinel : Config F → Option SentinelClusterStatus
  pub mongo : Config F → List MongoCluster
  pub rabbit_mq : Config F → Option (RabbitMqStatus F)
  pub replication : Config F → Option ReplicationReport
  pub bk_monitor_deps : Config F → Option (List DependencyResult)

-- ip[:i] for i := strings.LastIndex(ip, ":")
unfoldable pub before_last_colon : String → Option String
before_last_colon String.[] = none
before_last_colon (String.◌∷◌ c s) = elim (before_last_colon s) [
  | some before ↦ some (String.◌∷◌ c before)
  | none ↦ if eqb (code c) 58 then some "" else none
]

-- the address of a master without its port, where something stands before the last colon
unfoldable pub master_ip : String → String
master_ip discovered = elim (before_last_colon discovered) [
  | none ↦ discovered
  | some before ↦ if before == "" then discovered else before
]

-- the MasterEnvMatch that CrossCheckSentinelMaster sets
unfoldable pub master_env_match : String → List String → String
master_env_match discovered [] = "N/A"
master_env_match discovered (m ∷ ms) =
    if discovered == ""
    then "warn"
    else if mem (master_ip discovered) (m ∷ ms)
    then "ok"
    else "warn"

-- CrossCheckSentinelMaster
unfoldable pub cross_check_sentinel_master :
    Option SentinelClusterStatus → List String → Option SentinelClusterStatus
cross_check_sentinel_master none ips = none
cross_check_sentinel_master (some s) ips =
    some (record s { master_env_match = master_env_match s.discovered_master ips })

module _ {F : Type 0} ⦃fl : FloatOps F⦄ where
  -- what phase 1 appends to report.Hosts for a host
  unfoldable pub host_result : Thresholds F → HostMetrics F → HostCheckResult F
  host_result t hm = record { metrics = hm; checks = check_host hm t }

  -- the loop body for one status of a module
  unfoldable pub check_status :
      String → Thresholds F → ServiceStatus → List CheckResult × ServiceStatus
  check_status module_key t s =
      let services =
        check_each (λ (sm : ServiceModule). check_service sm s.host_ip module_key) s.services in
      let containers = check_service_containers (record s { services = services.1 }) t in
      (check_service_collect_error s ++ (services.0 ++ containers.0), containers.1)

  -- the loop body for the statuses of a module
  unfoldable pub check_module :
      Thresholds F → String × List ServiceStatus → List CheckResult × (String × List ServiceStatus)
  check_module t (module_key, statuses) =
      let checked = check_each (check_status module_key t) statuses in
      (checked.0, (module_key, checked.1))

  -- the report before the first phase
  unfoldable pub empty_report : String → InspectReport F
  empty_report timestamp = record {
    timestamp = timestamp;
    hosts = [];
    services = [];
    es = [];
    mysql = [];
    redis_standalone = [];
    redis_sentinel = none;
    mongo_db = [];
    rabbit_mq = none;
    replication = none;
    bk_monitor_v3 = none;
    summary = zero_summary;
    all_checks = [];
  }
