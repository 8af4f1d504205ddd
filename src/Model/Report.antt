-- ===== src/Model/Report.antt =====
-- inspect/model/types.go: the report of one run.
use we_term.Model.Component.{EsCluster, MongoCluster, RedisNode, SentinelClusterStatus}
use we_term.Model.Host.{HostMetrics, ServiceStatus}
use we_term.Model.RabbitMq.{BkMonitorSection, RabbitMqStatus}
use we_term.Model.Replication.{MysqlCluster, ReplicationReport}
use we_term.Model.Status.{CheckResult, CheckSummary}
use we_term.Prelude.{List, Option, String}

pub record HostCheckResult (F : Type 0) : Type 0 where
  pub metrics : HostMetrics F
  pub checks : List CheckResult

-- `services` is the Go map as a list of its entries, in the order in which a `range` visits them.
pub record InspectReport (F : Type 0) : Type 0 where
  pub timestamp : String
  pub hosts : List (HostCheckResult F)
  pub services : List (String × List ServiceStatus)
  pub es : List (EsCluster F)
  pub mysql : List MysqlCluster
  pub redis_standalone : List RedisNode
  pub redis_sentinel : Option SentinelClusterStatus
  pub mongo_db : List MongoCluster
  pub rabbit_mq : Option (RabbitMqStatus F)
  pub replication : Option ReplicationReport
  pub bk_monitor_v3 : Option BkMonitorSection
  pub summary : CheckSummary
  pub all_checks : List CheckResult
