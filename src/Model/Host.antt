-- ===== src/Model/Host.antt =====
-- inspect/model/types.go: the metrics of a host, and the status of the BlueKing services on it.
use we_term.Model.Status.{CheckStatus}
use we_term.Prelude.{List, String}
use we_term.Prelude.Int.{ℤ}

pub record DiskUsage (F : Type 0) : Type 0 where
  pub mount_point : String
  pub fs_type : String
  pub usage : String
  pub usage_float : F

pub record NetworkStats : Type 0 where
  pub close_wait : ℤ
  pub established : ℤ
  pub listen : ℤ
  pub time_wait : ℤ

pub record HostMetrics (F : Type 0) : Type 0 where
  pub ip : String
  pub cpu_usage : F
  pub mem_usage : F
  pub load_avg1 : F
  pub load_avg5 : F
  pub load_avg15 : F
  pub swap_usage : F
  pub disk_usage : List (DiskUsage F)
  pub inode_usage : List (DiskUsage F)
  pub max_open_files : ℤ
  pub process_total : ℤ
  pub ntpd : String
  pub chronyd : String
  pub selinux : String
  pub firewalld : String
  pub proxy : ℤ
  pub iptables : String
  pub network : NetworkStats
  pub run_days : ℤ
  pub version : String
  pub kernel : String
  pub memory : F
  pub swap : F
  pub core : ℤ
  pub manufacturer : String
  pub product : String
  pub serial : String
  pub error : String

pub record ServiceModule : Type 0 where
  pub module_name : String
  pub status : String
  pub resolved : String
  pub healthz_api : String
  pub main_pid : ℤ
  pub start_time : String
  pub workers : ℤ
  pub render_status : CheckStatus
  pub healthz_render_status : CheckStatus

pub record ServiceStatus : Type 0 where
  pub host_ip : String
  pub module_name : String
  pub services : List ServiceModule
  pub containers_up : ℤ
  pub containers_exited : ℤ
  pub exited_render_status : CheckStatus
  pub error : String
