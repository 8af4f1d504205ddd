-- ===== src/Config/Load.antt =====
-- inspect/config/config.go: Load.
pub mod Readable
pub mod Hosts
use we_term.Config.Env.{
  Env, LoadError, env_or_default, first_non_empty, getenv, parse_bool_env, parse_float_env,
  parse_int_env, parse_ip_list, parse_positive_float_env, parse_stalled_blacklist,
}
use we_term.Config.Hosts.{build_all_hosts}
use we_term.Config.Settings.{Addresses, Config, Credentials, MonitorEndpoints, Ports, SshSettings}
use we_term.Config.Thresholds.{Thresholds}
use we_term.Model.Float.{FloatOps}
use we_term.Prelude.{String, [], false, ◌∷◌}
use we_term.Prelude.Attempt.{Attempt, done, ◌>>=◌}
use we_term.Prelude.Int.{pos}
use we_term.Prelude.Sorting.{mem}

-- The address lists, which Load parses first.
unfoldable pub load_addresses : Env → Addresses
load_addresses env =
    let ips = λ (key : String). parse_ip_list (getenv env key) in
    record {
      paas_ips = ips "BK_PAAS_IP_COMMA";
      cmdb_ips = ips "BK_CMDB_IP_COMMA";
      job_ips = ips "BK_JOB_IP_COMMA";
      gse_ips = ips "BK_GSE_IP_COMMA";
      appo_ips = ips "BK_APPO_IP_COMMA";
      appt_ips = ips "BK_APPT_IP_COMMA";
      iam_ips = ips "BK_IAM_IP_COMMA";
      user_mgr_ips = ips "BK_USERMGR_IP_COMMA";
      node_man_ips = ips "BK_NODEMAN_IP_COMMA";
      monitor_v3_ips = ips "BK_MONITORV3_IP_COMMA";
      monitor_v3_monitor_ips = ips "BK_MONITORV3_MONITOR_IP_COMMA";
      monitor_v3_influxdb_proxy_ips = ips "BK_MONITORV3_INFLUXDB_PROXY_IP_COMMA";
      monitor_v3_transfer_ips = ips "BK_MONITORV3_TRANSFER_IP_COMMA";
      monitor_v3_unify_query_ips = ips "BK_MONITORV3_UNIFY_QUERY_IP_COMMA";
      es7_ips = ips "BK_ES7_IP_COMMA";
      mysql_ips = ips "BK_MYSQL_IP_COMMA";
      mysql_master_ips = ips "BK_MYSQL_MASTER_IP_COMMA";
      mysql_slave_ips = ips "BK_MYSQL_SLAVE_IP_COMMA";
      redis_ips = ips "BK_REDIS_IP_COMMA";
      redis_master_ips = ips "BK_REDIS_MASTER_IP_COMMA";
      redis_slave_ips = ips "BK_REDIS_SLAVE_IP_COMMA";
      redis_sentinel_ips = ips "BK_REDIS_SENTINEL_IP_COMMA";
      mongo_db_ips = ips "BK_MONGODB_IP_COMMA";
      rabbit_mq_ips = ips "BK_RABBITMQ_IP_COMMA";
    }

-- c.BKMonitorV3
unfoldable pub load_endpoints : Env → MonitorEndpoints
load_endpoints env = record {
  redis_host = getenv env "BK_MONITOR_REDIS_HOST";
  redis_port = getenv env "BK_MONITOR_REDIS_PORT";
  redis_password = getenv env "BK_MONITOR_REDIS_PASSWORD";
  mysql_host = first_non_empty (
      getenv env "BK_MONITOR_MYSQL_HOST"
      ∷ getenv env "BK_PAAS_MYSQL_HOST"
      ∷ "mysql.service.consul"
      ∷ []);
  mysql_port =
      first_non_empty
        (getenv env "BK_MONITOR_MYSQL_PORT" ∷ getenv env "BK_PAAS_MYSQL_PORT" ∷ "3306" ∷ []);
  mysql_user =
      first_non_empty (getenv env "BK_MONITOR_MYSQL_USER" ∷ getenv env "BK_PAAS_MYSQL_USER" ∷ []);
  mysql_password =
      first_non_empty
        (getenv env "BK_MONITOR_MYSQL_PASSWORD" ∷ getenv env "BK_PAAS_MYSQL_PASSWORD" ∷ []);
  rabbitmq_host = getenv env "BK_MONITOR_RABBITMQ_HOST";
  rabbitmq_port = getenv env "BK_MONITOR_RABBITMQ_PORT";
  rabbitmq_user = getenv env "BK_MONITOR_RABBITMQ_USERNAME";
  rabbitmq_password = getenv env "BK_MONITOR_RABBITMQ_PASSWORD";
  rabbitmq_vhost = getenv env "BK_MONITOR_RABBITMQ_VHOST";
  zk_host = getenv env "BK_GSE_ZK_HOST";
  zk_port = getenv env "BK_GSE_ZK_PORT";
  es7_host = getenv env "BK_MONITOR_ES7_HOST";
  es7_rest_port = getenv env "BK_MONITOR_ES7_REST_PORT";
  es7_user = getenv env "BK_MONITOR_ES7_USER";
  es7_password = getenv env "BK_MONITOR_ES7_PASSWORD";
  influxdb_host = getenv env "BK_INFLUXDB_IP0";
  influxdb_port = getenv env "BK_MONITOR_INFLUXDB_PORT";
}

unfoldable pub load_ports : Env → Ports
load_ports env = record {
  mysql_port = env_or_default env "INSPECT_MYSQL_PORT" "3306";
  redis_port = env_or_default env "INSPECT_REDIS_PORT" "6379";
  mongo_db_port = env_or_default env "INSPECT_MONGODB_PORT" "27017";
  mongo_rs_name = env_or_default env "INSPECT_MONGO_RS_NAME" "rs0";
}

unfoldable pub load_credentials : Env → Credentials
load_credentials env = record {
  mysql_user = env_or_default env "BK_MYSQL_ADMIN_USER" "root";
  mysql_password = getenv env "BK_MYSQL_ADMIN_PASSWORD";
  redis_password = getenv env "BK_REDIS_ADMIN_PASSWORD";
  mongodb_user = env_or_default env "BK_MONGODB_ADMIN_USER" "root";
  mongodb_password = getenv env "BK_MONGODB_ADMIN_PASSWORD";
  es7_password = getenv env "BK_ES7_ADMIN_PASSWORD";
  rabbitmq_user = env_or_default env "BK_RABBITMQ_ADMIN_USER" "admin";
  rabbitmq_password = getenv env "BK_RABBITMQ_ADMIN_PASSWORD";
}

module _ {F : Type 0} ⦃fl : FloatOps F⦄ where
  -- The thresholds, up to the first variable that is not a number. The default 0.01 is the number
  -- that the text is read as.
  unfoldable pub load_thresholds : Env → Attempt (LoadError F) (Thresholds F)
  load_thresholds env = do
    cpu ← parse_float_env env "INSPECT_CPU_THRESHOLD" (fl.of_int (pos 95))
    disk ← parse_float_env env "INSPECT_DISK_THRESHOLD" (fl.of_int (pos 95))
    inode ← parse_float_env env "INSPECT_INODE_THRESHOLD" (fl.of_int (pos 95))
    mem ← parse_float_env env "INSPECT_MEM_THRESHOLD" (fl.of_int (pos 95))
    max_open ← parse_int_env env "INSPECT_MAX_OPEN_FILES" (pos 65536)
    mysql_lag ← parse_int_env env "INSPECT_MYSQL_REPL_LAG_THRESHOLD" (pos 60)
    redis_io ← parse_int_env env "INSPECT_REDIS_REPL_IO_THRESHOLD" (pos 10)
    backlog ← parse_int_env env "INSPECT_RABBITMQ_QUEUE_BACKLOG_THRESHOLD" (pos 10000)
    ack_max ←
        parse_positive_float_env env "INSPECT_RABBITMQ_STALLED_ACK_RATE_MAX"
          (fl.parse_float "0.01").0
    publish_min ← parse_float_env env "INSPECT_RABBITMQ_STALLED_PUBLISH_RATE_MIN" fl.zero_float
    es_heap ← parse_int_env env "INSPECT_ES_HEAP_THRESHOLD" (pos 85)
    es_ram ← parse_int_env env "INSPECT_ES_RAM_THRESHOLD" (pos 95)
    es_unassigned ← parse_int_env env "INSPECT_ES_UNASSIGNED_SHARDS_THRESHOLD" (pos 0)
    redis_celery ← parse_int_env env "INSPECT_REDIS_CELERY_QUEUE_THRESHOLD" (pos 1000)
    redis_monitor ← parse_int_env env "INSPECT_REDIS_MONITOR_QUEUE_THRESHOLD" (pos 10000)
    docker_exited ← parse_int_env env "INSPECT_DOCKER_EXITED_THRESHOLD" (pos 0)
    done (record {
      cpu_usage = cpu;
      disk_usage = disk;
      inode_usage = inode;
      mem_usage = mem;
      max_open_files = max_open;
      mysql_repl_lag_sec = mysql_lag;
      redis_repl_io_sec = redis_io;
      rabbitmq_queue_backlog = backlog;
      stalled_ack_rate_max = ack_max;
      stalled_publish_rate_min = publish_min;
      stalled_vhost_blacklist = parse_stalled_blacklist env ("bk_bknodeman" ∷ []);
      es_heap_percent = es_heap;
      es_ram_percent = es_ram;
      es_unassigned_shards = es_unassigned;
      redis_celery_queue = redis_celery;
      redis_monitor_queue = redis_monitor;
      service_containers_exited = docker_exited;
    })

  -- Load. Its reads of variables change nothing, so that they may stand after the thresholds.
  unfoldable pub load : Env → String → Attempt (LoadError F) (Config F)
  load env output_dir = do
    thresholds ← load_thresholds env
    port ← parse_int_env env "INSPECT_SSH_PORT" (pos 22)
    api_timeout ← parse_int_env env "INSPECT_RABBITMQ_API_TIMEOUT_SEC" (pos 60)
    done (record {
      addresses = load_addresses env;
      ports = load_ports env;
      bk_monitor_v3 = load_endpoints env;
      all_hosts = build_all_hosts (load_addresses env);
      creds = load_credentials env;
      thresholds = thresholds;
      ssh = record {
        ssh_user = env_or_default env "INSPECT_SSH_USER" "root";
        ssh_port = port;
        ssh_key_path = getenv env "INSPECT_SSH_KEY_PATH";
        ssh_use_sudo = parse_bool_env env "INSPECT_SSH_USE_SUDO" false;
        ssh_timeout = pos 30;
      };
      rabbit_mq_api_timeout_sec = api_timeout;
      output_dir = output_dir;
      check_mount_path = getenv env "CHECK_MOUNT_PATH";
      disk_include_nfs = parse_bool_env env "INSPECT_DISK_INCLUDE_NFS" false;
    })
