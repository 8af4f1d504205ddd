-- ===== src/Collector/Redis/Replicas.antt =====
-- inspect/collector/replication.go: collectRedisReplication.
use we_term.Collector.Probe.{Failure, class_text, classify_redis}
use we_term.Collector.Redis.{RedisClient, join_host_port, parse_redis_info}
use we_term.Collector.Replication.{MysqlServer, collect_mysql_master, collect_mysql_slave}
use we_term.Config.Settings.{Config}
use we_term.Model.Replication.{
  MysqlMasterStatus, MysqlSlaveStatus, RedisReplicationStatus, ReplicationReport,
}
use we_term.Prelude.{
  List, Option, String, [], false, if◌then◌else◌, is_empty, map, none, not, some, ◌&&◌, ◌++◌, ◌==◌,
  ◌∷◌,
}
use we_term.Prelude.Assoc.{lookup_or}
use we_term.Prelude.Attempt.{done, fail}
use we_term.Prelude.Int.{ltb_ℤ, pos, ℤ}
use we_term.Prelude.Numerals.{atoi_value}
use we_term.Prelude.Text.{concat}

-- the switch that grades the link of a slave
unfoldable pub grade_link : ℤ → String → ℤ → String
grade_link limit link seconds =
    if not (link == "up") then "critical" else if ltb_ℤ limit seconds then "warn" else "ok"

-- what is read from INFO replication, with the role
unfoldable pub replica_of_role :
    ℤ → String → String → List (String × String) → String → RedisReplicationStatus
replica_of_role limit declared ip info role =
    if role == "master"
    then record blank {
      connected_slaves = atoi_value (lookup_or "" "connected_slaves" info);
      link_status = "N/A";
    }
    else if role == "slave"
    then record blank {
      master_host = lookup_or "" "master_host" info;
      master_port = atoi_value (lookup_or "" "master_port" info);
      master_link_status = lookup_or "" "master_link_status" info;
      master_last_io_seconds = atoi_value (lookup_or "" "master_last_io_seconds_ago" info);
      master_sync_in_progress = lookup_or "" "master_sync_in_progress" info == "1";
      link_status =
          grade_link limit (lookup_or "" "master_link_status" info)
            (atoi_value (lookup_or "" "master_last_io_seconds_ago" info));
    }
    else record blank { link_status = "N/A" }
  where
    blank : RedisReplicationStatus
    blank = record {
      ip = ip;
      role = role;
      master_host = "";
      master_port = pos 0;
      master_link_status = "";
      master_last_io_seconds = pos 0;
      master_sync_in_progress = false;
      connected_slaves = pos 0;
      role_consistency_status = if role == declared then "ok" else "warn";
      link_status = "";
      error = "";
      error_class = "";
    }

unfoldable pub read_replica : ℤ → String → String → List (String × String) → RedisReplicationStatus
read_replica limit declared ip info =
    replica_of_role limit declared ip info (lookup_or "" "role" info)

-- a node whose INFO fails
unfoldable pub failed_replica : String → Failure → RedisReplicationStatus
failed_replica ip e = record {
  ip = ip;
  role = "";
  master_host = "";
  master_port = pos 0;
  master_link_status = "";
  master_last_io_seconds = pos 0;
  master_sync_in_progress = false;
  connected_slaves = pos 0;
  role_consistency_status = "N/A";
  link_status = "";
  error = concat ("redis info error: " ∷ e.text ∷ []);
  error_class = class_text (classify_redis e);
}

-- collectRedisReplication
unfoldable pub collect_redis_replication :
    RedisClient → String → String → String → ℤ → String → RedisReplicationStatus
collect_redis_replication client port password declared limit ip =
    elim (client.info (join_host_port ip port) password 0 "replication") [
      | fail e ↦ failed_replica ip e
      | done out ↦ read_replica limit declared ip (parse_redis_info out)
    ]

-- CollectReplication
unfoldable pub collect_replication :
    {F : Type 0}
    → (String → String)
    → (String → MysqlServer)
    → RedisClient
    → Config F
    → Option ReplicationReport
collect_replication redact server client cfg =
    if is_empty masters && is_empty slaves && is_empty nodes
    then none
    else some (record { mysql_masters = masters; mysql_slaves = slaves; redis_nodes = nodes })
  where
    masters : List MysqlMasterStatus
    masters = map (collect_mysql_master redact server) cfg.addresses.mysql_master_ips

    slaves : List MysqlSlaveStatus
    slaves =
        map (collect_mysql_slave redact server cfg.thresholds.mysql_repl_lag_sec)
          cfg.addresses.mysql_slave_ips

    redis_of : String → List String → List RedisReplicationStatus
    redis_of role ips =
        map
          (collect_redis_replication client cfg.ports.redis_port cfg.creds.redis_password role
            cfg.thresholds.redis_repl_io_sec)
          ips

    nodes : List RedisReplicationStatus
    nodes =
        redis_of "master" cfg.addresses.redis_master_ips
        ++ redis_of "slave" cfg.addresses.redis_slave_ips
