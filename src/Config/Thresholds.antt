-- ===== src/Config/Thresholds.antt =====
-- inspect/config/config.go: Thresholds. `F` is Go's float64.
use we_term.Prelude.{List, String}
use we_term.Prelude.Int.{ℤ}

pub record Thresholds (F : Type 0) : Type 0 where
  pub cpu_usage : F
  pub disk_usage : F
  pub inode_usage : F
  pub mem_usage : F
  pub max_open_files : ℤ
  pub mysql_repl_lag_sec : ℤ
  pub redis_repl_io_sec : ℤ
  pub rabbitmq_queue_backlog : ℤ
  pub stalled_ack_rate_max : F
  pub stalled_publish_rate_min : F
  pub stalled_vhost_blacklist : List String
  pub es_heap_percent : ℤ
  pub es_ram_percent : ℤ
  pub es_unassigned_shards : ℤ
  pub redis_celery_queue : ℤ
  pub redis_monitor_queue : ℤ
  pub service_containers_exited : ℤ
