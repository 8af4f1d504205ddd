-- ===== src/Model/Replication.antt =====
-- inspect/model/types.go: MySQL nodes and the replication report. A nil pointer is `none`.
use we_term.Prelude.{Bool, List, Option, String}
use we_term.Prelude.Int.{ℤ}

pub record MysqlNode : Type 0 where
  pub ip : String
  pub version : String
  pub max_connections : ℤ
  pub expire_logs_days : ℤ
  pub max_allowed_packet : ℤ
  pub role : String
  pub binlog_count : ℤ
  pub slave_io_state : String
  pub slave_sql_state : String
  pub slow_query_log : String
  pub character_set : String
  pub buffer_pool_size : ℤ
  pub buffer_pool_instances : ℤ
  pub innodb_io_capacity : ℤ
  pub innodb_read_io_threads : ℤ
  pub innodb_write_io_threads : ℤ
  pub interactive_timeout : ℤ
  pub table_open_cache : ℤ
  pub wait_timeout : ℤ
  pub error : String
  pub error_class : String

pub record MysqlCluster : Type 0 where
  pub instance_name : String
  pub nodes : List MysqlNode
  pub error : String

pub record MysqlReplicationStatus : Type 0 where
  pub io_running : String
  pub sql_running : String
  pub seconds_behind_master : ℤ
  pub last_io_error : String
  pub last_sql_error : String
  pub master_host : String
  pub status : String

pub record MysqlMasterStatus : Type 0 where
  pub ip : String
  pub read_only : Bool
  pub status : String
  pub error : String
  pub error_class : String

pub record MysqlSlaveStatus : Type 0 where
  pub ip : String
  pub replication : Option MysqlReplicationStatus
  pub error : String
  pub error_class : String

pub record RedisReplicationStatus : Type 0 where
  pub ip : String
  pub role : String
  pub master_host : String
  pub master_port : ℤ
  pub master_link_status : String
  pub master_last_io_seconds : ℤ
  pub master_sync_in_progress : Bool
  pub connected_slaves : ℤ
  pub role_consistency_status : String
  pub link_status : String
  pub error : String
  pub error_class : String

pub record ReplicationReport : Type 0 where
  pub mysql_masters : List MysqlMasterStatus
  pub mysql_slaves : List MysqlSlaveStatus
  pub redis_nodes : List RedisReplicationStatus
