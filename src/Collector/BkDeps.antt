-- ===== src/Collector/BkDeps.antt =====
-- inspect/collector/bkmonitor_dep.go: the dependencies of bkmonitorv3, asked through commands and
-- TCP connections of the inspecting host.
pub mod Skips
use we_term.Collector.Redis.{join_host_port}
use we_term.Config.Settings.{Config}
use we_term.Model.RabbitMq.{DependencyResult}
use we_term.Model.Status.{unset}
use we_term.Prelude.{
  Bool, List, Option, String, [], if◌then◌else◌, is_empty, none, not, some, ◌&&◌, ◌++◌, ◌==◌, ◌||◌,
  ◌∷◌,
}
use we_term.Prelude.Attempt.{Attempt, done, fail}
use we_term.Prelude.Search.{cut}
use we_term.Prelude.Sorting.{mem}
use we_term.Prelude.Text.{append, concat}
use we_term.Prelude.Words.{trim_space}

-- An open TCP connection to a broker: the error of the write, and whether a byte was read.
pub record Connection : Type 0 where
  pub write_error : Option String
  pub answered : Bool

-- The answers of the host: exec.LookPath, runWithTimeout with its output and its error, and
-- net.DialTimeout.
pub record Tools : Type 0 where
  pub has_tool : String → Bool
  pub run_tool : String → List String → String × Option String
  pub dial : String → Attempt String Connection

unfoldable pub endpoint_of : String → String → String
endpoint_of host port = concat (host ∷ ":" ∷ port ∷ [])

abbrev dependency : String → String → String → String → DependencyResult
dependency item endpoint status detail = record {
  item = item;
  endpoint = endpoint;
  status = status;
  detail = detail;
  render_status = unset;
}

-- skipIfMissing, with what comes otherwise
unfoldable pub skip_if_missing : String → String → Bool → DependencyResult → DependencyResult
skip_if_missing item endpoint missing otherwise =
    if missing then dependency item endpoint "skip" "missing config" else otherwise

-- firstLine
unfoldable pub first_line : String → String → String
first_line out err =
    let s = trim_space out in
    if s == "" then err else elim (cut "\n" s) [ none ↦ s | some (line, rest) ↦ line ]

module _ (item endpoint : String) where
  -- what the output and the error of redis-cli say
  unfoldable pub redis_answer : String → Option String → DependencyResult
  redis_answer out (some e) = dependency item endpoint "unreachable" e
  redis_answer out none =
      if trim_space out == "PONG"
      then dependency item endpoint "ok" ""
      else dependency item endpoint "fail" (trim_space out)

  -- what the output and the error of mysql say
  unfoldable pub mysql_answer : String → Option String → DependencyResult
  mysql_answer out (some e) = dependency item endpoint "fail" (first_line out e)
  mysql_answer out none =
      if trim_space out == "1"
      then dependency item endpoint "ok" ""
      else dependency item endpoint "fail" (trim_space out)

  -- what the broker answers to the AMQP header
  unfoldable pub amqp_reply : String → Option String → Bool → DependencyResult
  amqp_reply vhost (some e) answered = dependency item endpoint "fail" e
  amqp_reply vhost none answered =
      if answered
      then dependency item endpoint "ok" (concat ("vhost=" ∷ vhost ∷ " (auth not validated)" ∷ []))
      else dependency item endpoint "fail" "no AMQP response"

  unfoldable pub amqp_connection : String → Attempt String Connection → DependencyResult
  amqp_connection vhost (fail e) = dependency item endpoint "unreachable" e
  amqp_connection vhost (done conn) = amqp_reply vhost conn.write_error conn.answered

  unfoldable pub zookeeper_connection : Attempt String Connection → DependencyResult
  zookeeper_connection (fail e) = dependency item endpoint "unreachable" e
  zookeeper_connection (done conn) =
      dependency item endpoint "ok" "TCP-only probe; 4lw whitelist may exclude ruok"

  -- the tests on the HTTP code that Elasticsearch and InfluxDB share, behind those for success
  unfoldable pub bad_http_code : String → DependencyResult
  bad_http_code http_code =
      if http_code == "" || http_code == "000"
      then dependency item endpoint "unreachable" "no HTTP response"
      else dependency item endpoint "fail" (append "HTTP " http_code)

  unfoldable pub es7_code : String → DependencyResult
  es7_code http_code =
      if http_code == "200"
      then dependency item endpoint "ok" ""
      else if http_code == "401" || http_code == "403"
      then dependency item endpoint "fail" (concat ("auth failed (HTTP " ∷ http_code ∷ ")" ∷ []))
      else bad_http_code http_code

  unfoldable pub es7_answer : String → Option String → DependencyResult
  es7_answer out (some e) = dependency item endpoint "unreachable" e
  es7_answer out none = es7_code (trim_space out)

  unfoldable pub influxdb_code : String → DependencyResult
  influxdb_code http_code =
      if http_code == "204" || http_code == "200"
      then dependency item endpoint "ok" ""
      else bad_http_code http_code

  unfoldable pub influxdb_answer : String → Option String → DependencyResult
  influxdb_answer out (some e) = dependency item endpoint "unreachable" e
  influxdb_answer out none = influxdb_code (trim_space out)

  -- where the command is not installed
  unfoldable pub with_tool : Tools → String → String → DependencyResult → DependencyResult
  with_tool tools name otherwise_detail otherwise =
      if not (tools.has_tool name)
      then dependency item endpoint "unreachable" otherwise_detail
      else otherwise

module _ (tools : Tools) (item host port : String) where
  -- probeRedisLogin
  unfoldable pub probe_redis_login : String → DependencyResult
  probe_redis_login password =
      let answer = tools.run_tool "redis-cli" args in
      skip_if_missing item endpoint (host == "" || port == "") (
        with_tool item endpoint tools "redis-cli" "redis-cli not available"
          (redis_answer item endpoint answer.0 answer.1))
    where
      endpoint : String
      endpoint = endpoint_of host port

      args : List String
      args =
          "-h"
          ∷ host
          ∷ "-p"
          ∷ port
          ∷ ((if not (password == "") then "-a" ∷ password ∷ "--no-auth-warning" ∷ [] else [])
              ++ ("PING" ∷ []))

  -- probeMySQLLogin
  unfoldable pub probe_mysql_login : String → String → DependencyResult
  probe_mysql_login user password =
      let answer = tools.run_tool "mysql" args in
      skip_if_missing item endpoint (host == "" || port == "" || user == "") (
        with_tool item endpoint tools "mysql" "mysql CLI not available"
          (mysql_answer item endpoint answer.0 answer.1))
    where
      endpoint : String
      endpoint = endpoint_of host port

      args : List String
      args =
          append "-u" user
          ∷ append "-p" password
          ∷ append "-h" host
          ∷ append "-P" port
          ∷ "-N"
          ∷ "-s"
          ∷ "-e"
          ∷ "SELECT 1"
          ∷ []

  -- probeRabbitMQ
  unfoldable pub probe_amqp : String → String → DependencyResult
  probe_amqp user vhost =
      skip_if_missing item (endpoint_of host port) (host == "" || port == "" || user == "")
        (amqp_connection item (endpoint_of host port) vhost (tools.dial (join_host_port host port)))

  -- probeZookeeper
  unfoldable pub probe_zookeeper : DependencyResult
  probe_zookeeper =
      skip_if_missing item (endpoint_of host port) (host == "" || port == "")
        (zookeeper_connection item (endpoint_of host port) (tools.dial (join_host_port host port)))

  -- probeES7
  unfoldable pub probe_es7 : String → String → DependencyResult
  probe_es7 user password =
      let answer = tools.run_tool "curl" args in
      skip_if_missing item endpoint (host == "" || port == "") (
        with_tool item endpoint tools "curl" "curl not available"
          (es7_answer item endpoint answer.0 answer.1))
    where
      endpoint : String
      endpoint = endpoint_of host port

      args : List String
      args =
          "-s"
          ∷ "--connect-timeout"
          ∷ "5"
          ∷ "-o"
          ∷ "/dev/null"
          ∷ "-w"
          ∷ "%{http_code}"
          ∷ ((if not (user == "") then "-u" ∷ concat (user ∷ ":" ∷ password ∷ []) ∷ [] else [])
              ++ (concat ("http://" ∷ host ∷ ":" ∷ port ∷ "/_cluster/health" ∷ []) ∷ []))

  -- probeInfluxDB
  unfoldable pub probe_influxdb : DependencyResult
  probe_influxdb =
      let answer = tools.run_tool "curl" args in
      skip_if_missing item endpoint (host == "" || port == "") (
        with_tool item endpoint tools "curl" "curl not available"
          (influxdb_answer item endpoint answer.0 answer.1))
    where
      endpoint : String
      endpoint = endpoint_of host port

      args : List String
      args =
          "-s"
          ∷ "--connect-timeout"
          ∷ "5"
          ∷ "-o"
          ∷ "/dev/null"
          ∷ "-w"
          ∷ "%{http_code}"
          ∷ concat ("http://" ∷ host ∷ ":" ∷ port ∷ "/ping" ∷ [])
          ∷ []

-- CollectBKMonitorV3Deps; `none` is a nil slice
unfoldable pub collect_bk_monitor_v3_deps :
    {F : Type 0} → Tools → Config F → Option (List DependencyResult)
collect_bk_monitor_v3_deps tools cfg =
    if is_empty cfg.addresses.monitor_v3_ips
      && is_empty cfg.addresses.monitor_v3_monitor_ips
      && is_empty cfg.addresses.monitor_v3_influxdb_proxy_ips
      && is_empty cfg.addresses.monitor_v3_transfer_ips
      && is_empty cfg.addresses.monitor_v3_unify_query_ips
    then none
    else let dep = cfg.bk_monitor_v3 in
      some (
        probe_redis_login tools "redis" dep.redis_host dep.redis_port dep.redis_password
        ∷ probe_mysql_login tools "mysql" dep.mysql_host dep.mysql_port dep.mysql_user
            dep.mysql_password
        ∷ probe_amqp tools "rabbitmq" dep.rabbitmq_host dep.rabbitmq_port dep.rabbitmq_user
            dep.rabbitmq_vhost
        ∷ probe_zookeeper tools "zookeeper" dep.zk_host dep.zk_port
        ∷ probe_es7 tools "es7" dep.es7_host dep.es7_rest_port dep.es7_user dep.es7_password
        ∷ probe_influxdb tools "influxdb" dep.influxdb_host dep.influxdb_port
        ∷ [])
