-- ===== src/Collector/Mysql.antt =====
-- inspect/collector/mysql.go: the MySQL nodes, asked through database/sql. `redact` is RedactDSN.
use we_term.Collector.Probe.{Failure, class_text, classify_mysql}
use we_term.Collector.Replication.{MysqlServer, Row, pick_first, slave_status}
use we_term.Config.Settings.{Config}
use we_term.Model.Replication.{MysqlCluster, MysqlNode}
use we_term.Prelude.{List, String, [], if◌then◌else◌, is_empty, map, none, some, ◌∷◌}
use we_term.Prelude.Attempt.{Attempt, done, fail}
use we_term.Prelude.Int.{eqb_ℤ, pos, ℤ}
use we_term.Prelude.Text.{append}

-- the row of variables; a NULL is 0, as sql.NullInt64 leaves it
pub record Variables : Type 0 where
  pub version : String
  pub max_connections : ℤ
  pub expire_logs_days : ℤ
  pub max_allowed_packet : ℤ
  pub slow_query_log : ℤ
  pub character_set : String
  pub buffer_pool_size : ℤ
  pub buffer_pool_instances : ℤ
  pub innodb_io_capacity : ℤ
  pub innodb_read_io_threads : ℤ
  pub innodb_write_io_threads : ℤ
  pub interactive_timeout : ℤ
  pub table_open_cache : ℤ
  pub wait_timeout : ℤ

-- the replication columns: the first query, and the second where the first fails or is empty; an
-- error of the second leaves no columns
unfoldable pub replica_row : MysqlServer → Row
replica_row server = elim (slave_status server) [ fail e ↦ [] | done row ↦ row ]

-- the number of binary logs: the first query that goes through, and else what it was
unfoldable pub binlog_count : MysqlServer → ℤ
binlog_count server = elim (server.count_rows "SHOW BINARY LOGS") [
  | some n ↦ n
  | none ↦ elim (server.count_rows "SHOW MASTER LOGS") [ some n ↦ n | none ↦ pos 0 ]
]

-- model.MySQLNode{IP: ip} with an error
unfoldable pub failed_node : (String → String) → String → String → Failure → MysqlNode
failed_node redact ip what e = record {
  ip = ip;
  version = "";
  max_connections = pos 0;
  expire_logs_days = pos 0;
  max_allowed_packet = pos 0;
  role = "";
  binlog_count = pos 0;
  slave_io_state = "";
  slave_sql_state = "";
  slow_query_log = "";
  character_set = "";
  buffer_pool_size = pos 0;
  buffer_pool_instances = pos 0;
  innodb_io_capacity = pos 0;
  innodb_read_io_threads = pos 0;
  innodb_write_io_threads = pos 0;
  interactive_timeout = pos 0;
  table_open_cache = pos 0;
  wait_timeout = pos 0;
  error = append what (redact e.text);
  error_class = class_text (classify_mysql e);
}

-- the node whose variables were read
unfoldable pub node_of_variables : MysqlServer → String → Variables → MysqlNode
node_of_variables server ip v = record {
  ip = ip;
  version = v.version;
  max_connections = v.max_connections;
  expire_logs_days = v.expire_logs_days;
  max_allowed_packet = v.max_allowed_packet;
  role = if is_empty (replica_row server) then "master" else "slave";
  binlog_count = binlog_count server;
  slave_io_state = pick_first (replica_row server) ("Slave_IO_Running" ∷ "Replica_IO_Running" ∷ []);
  slave_sql_state =
      pick_first (replica_row server) ("Slave_SQL_Running" ∷ "Replica_SQL_Running" ∷ []);
  slow_query_log = if eqb_ℤ v.slow_query_log (pos 1) then "ON" else "OFF";
  character_set = v.character_set;
  buffer_pool_size = v.buffer_pool_size;
  buffer_pool_instances = v.buffer_pool_instances;
  innodb_io_capacity = v.innodb_io_capacity;
  innodb_read_io_threads = v.innodb_read_io_threads;
  innodb_write_io_threads = v.innodb_write_io_threads;
  interactive_timeout = v.interactive_timeout;
  table_open_cache = v.table_open_cache;
  wait_timeout = v.wait_timeout;
  error = "";
  error_class = "";
}

-- mysqlNodeProbe.Run: the node it leaves behind, of the answers to the open, the ping and the query
-- of the variables
unfoldable pub mysql_node :
    (String → String)
    → MysqlServer
    → String
    → Attempt Failure (Unit {0})
    → Attempt Failure (Unit {0})
    → Attempt Failure Variables
    → MysqlNode
mysql_node redact server ip (fail e) ping variables = failed_node redact ip "" e
mysql_node redact server ip (done u) (fail e) variables =
    failed_node redact ip "connect/query failed: " e
mysql_node redact server ip (done u) (done v) (fail e) =
    failed_node redact ip "variables query failed: " e
mysql_node redact server ip (done u) (done v) (done variables) =
    node_of_variables server ip variables

-- CollectMySQL
unfoldable pub collect_mysql :
    {F : Type 0}
    → (String → String)
    → (String → MysqlServer)
    → (String → Attempt Failure Variables)
    → Config F
    → List MysqlCluster
collect_mysql redact server variables cfg =
    if is_empty cfg.addresses.mysql_ips
    then []
    else record {
      instance_name = append "mysql:" cfg.ports.mysql_port;
      nodes =
          map
            (λ ip.
              mysql_node redact (server ip) ip (server ip).opened (server ip).ping (variables ip))
            cfg.addresses.mysql_ips;
      error = "";
    }
      ∷ []
