-- ===== src/Config/Settings.antt =====
-- inspect/config/config.go: the settings of a run. `F` is Go's float64.
use we_term.Prelude.{Bool, List, String}
use we_term.Prelude.Int.{ℤ}
use we_term.Config.Thresholds.{Thresholds}

-- BKMonitorV3DepConfig
pub record MonitorEndpoints : Type 0 where
  pub redis_host : String
  pub redis_port : String
  pub redis_password : String
  pub mysql_host : String
  pub mysql_port : String
  pub mysql_user : String
  pub mysql_password : String
  pub rabbitmq_host : String
  pub rabbitmq_port : String
  pub rabbitmq_user : String
  pub rabbitmq_password : String
  pub rabbitmq_vhost : String
  pub zk_host : String
  pub zk_port : String
  pub es7_host : String
  pub es7_rest_port : String
  pub es7_user : String
  pub es7_password : String
  pub influxdb_host : String
  pub influxdb_port : String

pub record Credentials : Type 0 where
  pub mysql_user : String
  pub mysql_password : String
  pub redis_password : String
  pub mongodb_user : String
  pub mongodb_password : String
  pub es7_password : String
  pub rabbitmq_user : String
  pub rabbitmq_password : String

-- The address lists of Config.
pub record Addresses : Type 0 where
  pub paas_ips : List String
  pub cmdb_ips : List String
  pub job_ips : List String
  pub gse_ips : List String
  pub appo_ips : List String
  pub appt_ips : List String
  pub iam_ips : List String
  pub user_mgr_ips : List String
  pub node_man_ips : List String
  pub monitor_v3_ips : List String
  pub monitor_v3_monitor_ips : List String
  pub monitor_v3_influxdb_proxy_ips : List String
  pub monitor_v3_transfer_ips : List String
  pub monitor_v3_unify_query_ips : List String
  pub es7_ips : List String
  pub mysql_ips : List String
  pub mysql_master_ips : List String
  pub mysql_slave_ips : List String
  pub redis_ips : List String
  pub redis_master_ips : List String
  pub redis_slave_ips : List String
  pub redis_sentinel_ips : List String
  pub mongo_db_ips : List String
  pub rabbit_mq_ips : List String

-- The ports and names with a default.
pub record Ports : Type 0 where
  pub mysql_port : String
  pub redis_port : String
  pub mongo_db_port : String
  pub mongo_rs_name : String

pub record SshSettings : Type 0 where
  pub ssh_user : String
  pub ssh_port : ℤ
  pub ssh_key_path : String
  pub ssh_use_sudo : Bool
  pub ssh_timeout : ℤ

-- Config; its flat fields are grouped here by what they are about.
pub record Config (F : Type 0) : Type 0 where
  pub addresses : Addresses
  pub ports : Ports
  pub bk_monitor_v3 : MonitorEndpoints
  pub all_hosts : List String
  pub creds : Credentials
  pub thresholds : Thresholds F
  pub ssh : SshSettings
  pub rabbit_mq_api_timeout_sec : ℤ
  pub output_dir : String
  pub check_mount_path : String
  pub disk_include_nfs : Bool
