-- ===== src/Checker/Replication.antt =====
-- inspect/checker/rules.go: CheckReplication.
use we_term.Checker.Result.{collect, result}
use we_term.Config.Thresholds.{Thresholds}
use we_term.Model.Replication.{
  MysqlMasterStatus, MysqlSlaveStatus, RedisReplicationStatus, ReplicationReport,
}
use we_term.Model.Status.{CheckResult, CheckStatus, ok, warn}
use we_term.Prelude.{
  List, Option, String, [], if◌then◌else◌, map, none, not, some, ◌&&◌, ◌++◌, ◌==◌, ◌∷◌,
}
use we_term.Prelude.Text.{concat, itoa}

-- the status "ok" of a collector is OK, any other a warning
abbrev pub ok_or_warn : String → CheckStatus
ok_or_warn status = if status == "ok" then ok else warn

unfoldable pub check_mysql_master : MysqlMasterStatus → CheckResult
unfolding concat
check_mysql_master m =
    result (concat ("mysql_master(" ∷ m.ip ∷ ").read_only" ∷ []))
      (if m.read_only then "ON" else "OFF") (ok_or_warn m.status) ""

-- a slave whose status was not read gives no result
unfoldable pub check_mysql_slave : String → MysqlSlaveStatus → List CheckResult
unfolding concat itoa
check_mysql_slave threshold s = elim s.replication [
  | none ↦ []
  | some r ↦
      result (concat ("mysql_slave(" ∷ s.ip ∷ ").replication" ∷ []))
        (concat
          (r.io_running ∷ "/" ∷ r.sql_running ∷ " lag=" ∷ itoa r.seconds_behind_master ∷ "s" ∷ []))
        (ok_or_warn r.status) threshold
      ∷ []
]

unfoldable pub check_redis_node : String → RedisReplicationStatus → List CheckResult
unfolding concat itoa
check_redis_node threshold n =
    let role =
      result (concat ("redis(" ∷ n.ip ∷ ").role" ∷ [])) n.role
        (ok_or_warn n.role_consistency_status) "" in
    let link =
      result (concat ("redis(" ∷ n.ip ∷ ").link" ∷ []))
        (concat (n.master_link_status ∷ " io=" ∷ itoa n.master_last_io_seconds ∷ "s" ∷ []))
        (ok_or_warn n.link_status) threshold in
    if n.role == "slave" && not (n.link_status == "") && not (n.link_status == "N/A")
    then role ∷ link ∷ []
    else role ∷ []

-- CheckReplication; `none` is a nil report
unfoldable pub check_replication :
    {F : Type 0} → Option ReplicationReport → Thresholds F → List CheckResult
check_replication none t = []
check_replication (some rep) t =
    map check_mysql_master rep.mysql_masters
    ++ (collect (check_mysql_slave (concat ("lag > " ∷ itoa t.mysql_repl_lag_sec ∷ "s" ∷ [])))
          rep.mysql_slaves
        ++ collect (check_redis_node (concat ("io > " ∷ itoa t.redis_repl_io_sec ∷ "s" ∷ [])))
            rep.redis_nodes)
