-- ===== src/Tests/Collector.antt =====
-- Concrete cases of the theorems about inspect/collector: answers of the Redis client, of MySQL and
-- of the tools of the host.
use mathlib.Core.List.{Permᴰ}
use we_term.Checker.Redis.{check_redis}
use we_term.Checker.Replication.{check_redis_node}
use we_term.Collector.BkDeps.{
  Tools, probe_amqp, probe_es7, probe_influxdb, probe_mysql_login, probe_redis_login,
  probe_zookeeper,
}
use we_term.Collector.BkDeps.Skips.{is_skip, probes_skip_exactly}
use we_term.Collector.Disk.{explicit_paths, parse_disk_usage}
use we_term.Collector.Disk.Filter.{IsAllowed, parse_disk_usage-IsAllowed}
use we_term.Collector.Json.{Fields, entry, no_fields, num, str}
use we_term.Collector.Probe.{Failure}
use we_term.Collector.RabbitApi.{plain_failure}
use we_term.Collector.RabbitMq.{QueueRules}
use we_term.Collector.Redis.{RedisClient, collect_redis_standalone}
use we_term.Collector.Redis.Replicas.{read_replica}
use we_term.Collector.Redis.Standalone.{answers_info, warns-collect_redis_standalone}
use we_term.Collector.Replication.{MysqlServer}
use we_term.Collector.Replication.Grades.{replica_warnings, warns-read_replica}
use we_term.Collector.Service.Order.{add_all, add_all-Permᴰ, statuses_of}
use we_term.Config.Settings.{Config}
use we_term.Model.Host.{ServiceStatus}
use we_term.Model.Status.{is_warn, unset}
use we_term.Prelude.{
  All, List, String, [], count_if, false, if◌then◌else◌, map, none, not, refl, some, true, ◌==◌,
  ◌∷◌, ◌≡◌,
}
use we_term.Prelude.Assoc.{lookup_or}
use we_term.Prelude.Attempt.{Attempt, done, fail}
use we_term.Prelude.Int.{pos, ℤ}
use we_term.Tests.Data.{int_floats, limits}
use we_term.Tests.Settings.{small_config}

abbrev refused : Failure
refused = plain_failure "dial tcp: connection refused"

-- Redis answers, but not at 10.0.0.9, and each sentinel names 10.0.0.1:6379 as the master
abbrev client : RedisClient
client = record {
  info = λ address password db section.
      if address == "10.0.0.9:6379" then fail refused else done "role:master";
  llen = λ address password db key. some (pos 3);
  ping = λ address password db. done "PONG";
  sentinel_ping = λ address. if address == "10.0.0.9:26379" then fail refused else done "PONG";
  sentinel_master = λ address name. done ("10.0.0.1" ∷ "6379" ∷ []);
}

abbrev redis_config : Config ℤ
redis_config = record small_config {
  addresses = record small_config.addresses {
    redis_ips = "10.0.0.1" ∷ "10.0.0.9" ∷ [];
    redis_sentinel_ips = "10.0.0.1" ∷ "10.0.0.9" ∷ [];
  };
}

-- a queue with messages that nothing takes, one of bk_usermgr, and a short one
abbrev queue : String → String → ℤ → Fields ℤ
queue vhost name messages =
    entry "vhost" (str vhost) (entry "name" (str name) (entry "messages" (num messages) no_fields))

abbrev queues : List (Fields ℤ)
queues =
    queue "prod" "tasks" (pos 20000)
    ∷ queue "bk_usermgr" "sync" (pos 9)
    ∷ queue "prod" "mail" (pos 0)
    ∷ []

abbrev rules : QueueRules ℤ
rules = record {
  backlog_threshold = pos 10000;
  stalled_ack_rate_max = pos 1;
  stalled_pub_rate_min = pos 0;
  stalled_vhost_bl = "bk_bknodeman" ∷ [];
}

abbrev status_at : String → ServiceStatus
status_at ip = record {
  host_ip = ip;
  module_name = "job";
  services = [];
  containers_up = pos 0;
  containers_exited = pos 0;
  exited_render_status = unset;
  error = "";
}

-- the ends of two goroutines, by the hosts that they asked
abbrev ends_of : String → String → List (String × ServiceStatus)
ends_of first second = ("job", status_at first) ∷ ("job", status_at second) ∷ []

add_all-Permᴰ_example :
    (lookup_or [] "job" (add_all (ends_of "10.0.0.1" "10.0.0.2") [])
      ≡ statuses_of "job" (ends_of "10.0.0.1" "10.0.0.2"))
    × Permᴰ
        (lookup_or [] "job" (add_all (ends_of "10.0.0.1" "10.0.0.2") []))
        (lookup_or [] "job" (add_all (ends_of "10.0.0.2" "10.0.0.1") []))
add_all-Permᴰ_example = add_all-Permᴰ "job" (Permᴰ.swap refl refl)

abbrev df_output : String
df_output = "Filesystem Type Size Used Avail Use% Mounted\n/dev/sda xfs 9G 9G 0G 97% /\n"

parse_disk_usage-IsAllowed_example :
    All
      (IsAllowed int_floats (explicit_paths "/: /data"))
      (parse_disk_usage df_output "/: /data" false).0
parse_disk_usage-IsAllowed_example =
    parse_disk_usage-IsAllowed int_floats df_output "/: /data" false

warns-collect_redis_standalone_example :
    (map (λ n. n.ip) (collect_redis_standalone client redis_config)
      ≡ redis_config.addresses.redis_ips)
    × (count_if is_warn (check_redis (collect_redis_standalone client redis_config) limits).0
        ≡ count_if
            (λ ip. not (
              answers_info client redis_config.ports.redis_port redis_config.creds.redis_password
                ip))
            redis_config.addresses.redis_ips)
warns-collect_redis_standalone_example = warns-collect_redis_standalone client redis_config limits

-- the INFO of a replica whose link is down
abbrev replica_info : List (String × String)
replica_info =
    ("role", "slave") ∷ ("master_link_status", "down") ∷ ("master_last_io_seconds_ago", "-1") ∷ []

warns-read_replica_example :
    count_if is_warn (check_redis_node "10" (read_replica (pos 10) "slave" "10.0.0.2" replica_info))
    ≡ replica_warnings "slave" (pos 10) replica_info
warns-read_replica_example = warns-read_replica "10" "slave" "10.0.0.2" (pos 10) replica_info

abbrev server : MysqlServer
server = record {
  opened = done tt;
  ping = done tt;
  number = λ query. done (pos 0);
  status = λ query. done [];
  count_rows = λ query. some (pos 4);
}

-- a host with no tool and no open port
abbrev bare_host : Tools
bare_host = record {
  has_tool = λ name. false;
  run_tool = λ name args. ("", none);
  dial = λ address. fail "refused";
}

probes_skip_exactly_example :
    (is_skip (probe_redis_login bare_host "paas" "10.0.0.1" "6379" "pw") ≡ false)
    × (is_skip (probe_mysql_login bare_host "paas" "10.0.0.1" "6379" "" "pw") ≡ true)
    × (is_skip (probe_amqp bare_host "paas" "10.0.0.1" "6379" "" "pw") ≡ true)
    × (is_skip (probe_zookeeper bare_host "paas" "10.0.0.1" "6379") ≡ false)
    × (is_skip (probe_es7 bare_host "paas" "10.0.0.1" "6379" "" "pw") ≡ false)
    × (is_skip (probe_influxdb bare_host "paas" "10.0.0.1" "6379") ≡ false)
probes_skip_exactly_example = probes_skip_exactly bare_host "paas" "10.0.0.1" "6379" "" "pw"
