-- ===== src/Model/RabbitMq.antt =====
-- inspect/model/types.go: RabbitMQ, and the dependencies of bkmonitorv3.
use we_term.Model.Status.{CheckStatus}
use we_term.Prelude.{Bool, List, String}
use we_term.Prelude.Int.{ℤ}

pub record RabbitMqAlarm : Type 0 where
  pub node : String
  pub mem_alarm : Bool
  pub disk_free_alarm : Bool
  pub mem_status : CheckStatus
  pub disk_free_status : CheckStatus

pub record RabbitMqQueue (F : Type 0) : Type 0 where
  pub vhost : String
  pub queue : String
  pub message_count : ℤ
  pub consumers : ℤ
  pub durable : Bool
  pub ack_rate : F
  pub publish_rate : F
  pub message_status : CheckStatus
  pub consumer_status : CheckStatus

pub record RabbitMqVhostSummary : Type 0 where
  pub vhost : String
  pub queues : ℤ
  pub messages : ℤ
  pub consumers : ℤ

pub record RabbitMqStatus (F : Type 0) : Type 0 where
  pub cluster_partition : Bool
  pub uptime : String
  pub total_connections : ℤ
  pub abnormal_connections : ℤ
  pub total_channels : ℤ
  pub node_alarms : List RabbitMqAlarm
  pub vhost_summary : List RabbitMqVhostSummary
  pub exceeding_queues : List (RabbitMqQueue F)
  pub stalled_queues : List (RabbitMqQueue F)
  pub queues_error : String
  pub error : String
  pub error_class : String
  pub partition_status : CheckStatus
  pub abnormal_conn_status : CheckStatus

pub record DependencyResult : Type 0 where
  pub item : String
  pub endpoint : String
  pub status : String
  pub detail : String
  pub render_status : CheckStatus

pub record BkMonitorSection : Type 0 where
  pub dependencies : List DependencyResult
