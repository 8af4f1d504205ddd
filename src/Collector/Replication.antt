-- ===== src/Collector/Replication.antt =====
-- inspect/collector/replication.go with the queries of mysql.go: the replication of MySQL and Redis.
-- `redact` is RedactDSN, which a regular expression defines.
pub mod Grades
use we_term.Collector.Probe.{Failure, class_text, classify_mysql}
use we_term.Model.Replication.{MysqlMasterStatus, MysqlReplicationStatus, MysqlSlaveStatus}
use we_term.Prelude.{
  List, Option, String, [], false, if◌then◌else◌, none, not, some, ◌&&◌, ◌==◌, ◌||◌, ◌∷◌,
}
use we_term.Prelude.Attempt.{Attempt, done, fail}
use we_term.Prelude.Case.{equal_fold}
use we_term.Prelude.Int.{eqb_ℤ, ltb_ℤ, pos, ℤ}
use we_term.Prelude.Numerals.{atoi_value}
use we_term.Prelude.Text.{append}

-- queryStatusVertical: the columns and the values of the first row, both empty where there is none
abbrev pub Row : Type 0
Row = List (String × String)

-- The answers of a MySQL server: sql.Open, one number, a status row, and the rows of a list.
pub record MysqlServer : Type 0 where
  pub opened : Attempt Failure (Unit {0})
  pub ping : Attempt Failure (Unit {0})
  pub number : String → Attempt Failure ℤ
  pub status : String → Attempt Failure Row
  pub count_rows : String → Option ℤ

-- the value of the first column with the name
unfoldable pub column : String → Row → Option String
column name [] = none
column name ((c, value) ∷ row) =
    let behind = column name row in if equal_fold c name then some value else behind

-- pickFirst
unfoldable pub pick_first : Row → List String → String
pick_first row [] = ""
pick_first row (name ∷ names) =
    let later = pick_first row names in elim (column name row) [ none ↦ later | some value ↦ value ]

-- a master that could not be asked
unfoldable pub failed_master : (String → String) → String → String → Failure → MysqlMasterStatus
failed_master redact ip what e = record {
  ip = ip;
  read_only = false;
  status = "warn";
  error = append what (redact e.text);
  error_class = class_text (classify_mysql e);
}

-- what comes of the connection and of the query
unfoldable pub master_status :
    (String → String) → String → Attempt Failure (Unit {0}) → Attempt Failure ℤ → MysqlMasterStatus
master_status redact ip (fail e) answer = failed_master redact ip "connect failed: " e
master_status redact ip (done u) (fail e) = failed_master redact ip "query failed: " e
master_status redact ip (done u) (done v) = record {
  ip = ip;
  read_only = eqb_ℤ v (pos 1);
  status = if eqb_ℤ v (pos 1) then "warn" else "ok";
  error = "";
  error_class = "";
}

-- collectMySQLMaster
unfoldable pub collect_mysql_master :
    (String → String) → (String → MysqlServer) → String → MysqlMasterStatus
collect_mysql_master redact server ip =
    master_status redact ip (server ip).opened ((server ip).number "SELECT @@global.read_only")

-- SHOW SLAVE STATUS, and SHOW REPLICA STATUS where the first fails or answers nothing
unfoldable pub slave_status : MysqlServer → Attempt Failure Row
slave_status server = elim (server.status "SHOW SLAVE STATUS") [
  | fail e ↦ server.status "SHOW REPLICA STATUS"
  | done [] ↦ server.status "SHOW REPLICA STATUS"
  | done (c ∷ row) ↦ done (c ∷ row)
]

-- the switch that grades a slave
unfoldable pub grade_slave : ℤ → String → String → ℤ → String
grade_slave limit io sql behind =
    if not (io == "Yes") || not (sql == "Yes")
    then "critical"
    else if ltb_ℤ limit behind
    then "warn"
    else "ok"

-- what is read from the row of a slave
unfoldable pub read_slave : ℤ → Row → MysqlReplicationStatus
read_slave limit row = record {
  io_running = io;
  sql_running = sql;
  seconds_behind_master = behind;
  last_io_error = pick_first row ("Last_IO_Error" ∷ []);
  last_sql_error = pick_first row ("Last_SQL_Error" ∷ []);
  master_host = pick_first row ("Master_Host" ∷ "Source_Host" ∷ []);
  status = grade_slave limit io sql behind;
}
  where
    io : String
    io = pick_first row ("Slave_IO_Running" ∷ "Replica_IO_Running" ∷ [])

    sql : String
    sql = pick_first row ("Slave_SQL_Running" ∷ "Replica_SQL_Running" ∷ [])

    lag : String
    lag = pick_first row ("Seconds_Behind_Master" ∷ "Seconds_Behind_Source" ∷ [])

    behind : ℤ
    behind = if not (lag == "") && not (lag == "NULL") then atoi_value lag else pos 0

-- the status of a node that is no slave
unfoldable pub not_a_slave : MysqlReplicationStatus
not_a_slave = record {
  io_running = "";
  sql_running = "";
  seconds_behind_master = pos 0;
  last_io_error = "";
  last_sql_error = "";
  master_host = "";
  status = "not-configured-as-slave";
}

-- collectMySQLSlave
unfoldable pub collect_mysql_slave :
    (String → String) → (String → MysqlServer) → ℤ → String → MysqlSlaveStatus
collect_mysql_slave redact server limit ip = elim (server ip).opened [
  | fail e ↦ failed_with "connect failed: " e
  | done u ↦ elim (slave_status (server ip)) [
    | fail e ↦ failed_with "query failed: " e
    | done [] ↦ replicating not_a_slave
    | done (c ∷ row) ↦ replicating (read_slave limit (c ∷ row))
  ]
]
  where
    failed_with : String → Failure → MysqlSlaveStatus
    failed_with what e = record {
      ip = ip;
      replication = none;
      error = append what (redact e.text);
      error_class = class_text (classify_mysql e);
    }

    replicating : MysqlReplicationStatus → MysqlSlaveStatus
    replicating r = record { ip = ip; replication = some r; error = ""; error_class = "" }
