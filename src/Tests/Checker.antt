-- ===== src/Tests/Checker.antt =====
-- Concrete cases of the theorems about inspect/checker.
use we_term.Checker.Host.{check_host, load_climbs}
use we_term.Checker.Host.Health.{deviates, full_mounts, one_if, warns-check_host}
use we_term.Checker.Summary.{summarize}
use we_term.Checker.Summary.Counts.{summarize_counts}
use we_term.Model.Component.{EsCluster, MongoCluster, RedisNode}
use we_term.Model.Host.{HostMetrics}
use we_term.Model.RabbitMq.{RabbitMqStatus}
use we_term.Model.Status.{is_ok, is_unknown, is_warn, unset}
use we_term.Prelude.{Option, String, [], count_if, false, some, true, ◌+◌, ◌||◌, ◌∷◌, ◌≡◌}
use we_term.Prelude.Int.{leb_ℤ, ltb_ℤ, pos, ℤ}
use we_term.Tests.Data.{down_check, fine_check, host_at, int_floats, limits}

summarize_counts_example :
    ((summarize (down_check ∷ fine_check ∷ [])).ok_count
      ≡ count_if is_ok (down_check ∷ fine_check ∷ []))
    × ((summarize (down_check ∷ fine_check ∷ [])).warn_count
        ≡ count_if is_warn (down_check ∷ fine_check ∷ []))
    × ((summarize (down_check ∷ fine_check ∷ [])).unknown_count
        ≡ count_if is_unknown (down_check ∷ fine_check ∷ []))
    × ((summarize (down_check ∷ fine_check ∷ [])).total
        ≡ count_if (λ r. is_ok r || is_warn r || is_unknown r) (down_check ∷ fine_check ∷ []))
summarize_counts_example = summarize_counts (down_check ∷ fine_check ∷ [])

abbrev es_cluster : String → EsCluster ℤ
es_cluster error = record {
  instance_name = "es 7";
  cluster_name = "bk";
  status = "yellow";
  number_of_nodes = pos 3;
  number_of_data_nodes = pos 3;
  active_primary_shards = pos 10;
  active_shards = pos 20;
  unassigned_shards = pos 4;
  pending_tasks = pos 0;
  active_shards_percent = pos 83;
  nodes = [];
  node_reachability =
      record { ip = "10.0.0.7"; status = "unreachable"; detail = "timeout"; render_status = unset }
      ∷ record { ip = "10.0.0.8"; status = "ok"; detail = ""; render_status = unset }
      ∷ [];
  error = error;
  error_class = "";
  health_status = unset;
  unassigned_status = unset;
  pending_status = unset;
}

abbrev redis_node : String → RedisNode
redis_node error = record {
  ip = "10.0.0.5";
  role = "master";
  cluster_enabled = "0";
  version = "6";
  used_memory = "1M";
  max_memory = "0";
  uptime_days = "3";
  connected_clients = "9";
  blocked_clients = "0";
  celery_queue = pos 5000;
  monitor_queue = pos 0;
  error = error;
  error_class = "";
  celery_queue_status = unset;
  monitor_queue_status = unset;
  error_status = unset;
}

abbrev mongo_cluster : String → MongoCluster
mongo_cluster error = record {
  instance_name = "rs0";
  members =
      record {
        name = "m1";
        health = pos 0;
        state_str = "DOWN";
        uptime = pos 0;
        syncing_to = "";
        sync_source_host = "";
        health_status = unset;
      }
      ∷ [];
  error = error;
  error_class = "";
}

abbrev busy_host : HostMetrics ℤ
busy_host = host_at "10.0.0.1" (pos 99)

warns-check_host_example :
    count_if is_warn (check_host busy_host limits)
    ≡ one_if (leb_ℤ (pos 95) (pos 99))
      + one_if (leb_ℤ (pos 95) (pos 40))
      + full_mounts (pos 95) busy_host.disk_usage
      + full_mounts (pos 95) []
      + one_if (ltb_ℤ (pos 102400) (pos 65536))
      + one_if (deviates "Disabled" "Disabled")
      + one_if (deviates "inactive" "inactive")
      + one_if (deviates "active" "active")
      + one_if (load_climbs busy_host)
unfolding int_floats
warns-check_host_example = warns-check_host busy_host limits

abbrev rabbit : Option (RabbitMqStatus ℤ)
rabbit = some (record {
  cluster_partition = true;
  uptime = "9";
  total_connections = pos 12;
  abnormal_connections = pos 1;
  total_channels = pos 3;
  node_alarms =
      record {
        node = "rabbit@a";
        mem_alarm = true;
        disk_free_alarm = false;
        mem_status = unset;
        disk_free_status = unset;
      }
      ∷ [];
  vhost_summary = [];
  exceeding_queues = [];
  stalled_queues =
      record {
        vhost = "/";
        queue = "q";
        message_count = pos 7;
        consumers = pos 0;
        durable = true;
        ack_rate = pos 0;
        publish_rate = pos 2;
        message_status = unset;
        consumer_status = unset;
      }
      ∷ [];
  queues_error = "";
  error = "";
  error_class = "";
  partition_status = unset;
  abnormal_conn_status = unset;
})
