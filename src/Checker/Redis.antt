-- ===== src/Checker/Redis.antt =====
-- inspect/checker/redis.go: CheckRedis and CheckRedisSentinel.
use we_term.Checker.Es.{notice_above}
use we_term.Checker.Result.{check_each, result}
use we_term.Config.Thresholds.{Thresholds}
use we_term.Model.Component.{RedisNode, SentinelClusterStatus, SentinelNodeStatus}
use we_term.Model.Status.{CheckResult, CheckStatus, ok, unset, warn}
use we_term.Prelude.{
  Bool, List, Option, String, [], if◌then◌else◌, none, not, some, ◌++◌, ◌==◌, ◌∷◌,
}
use we_term.Prelude.Text.{append, concat, itoa}

-- the test on the error of a node
unfoldable pub check_redis_error : String → String → CheckStatus × List CheckResult
unfolding append
check_redis_error prefix error =
    if not (error == "")
    then (warn, result (append prefix "error") error warn "" ∷ [])
    else (unset, [])

module _ {F : Type 0} where
  -- the loop body of CheckRedis
  unfoldable pub check_redis_one : Thresholds F → RedisNode → List CheckResult × RedisNode
  check_redis_one t n =
      let prefix = concat ("redis." ∷ n.ip ∷ "." ∷ []) in
      let error = check_redis_error prefix n.error in
      let celery =
        notice_above t.redis_celery_queue n.celery_queue (append prefix "celery_queue")
          (itoa n.celery_queue) in
      let monitor =
        notice_above t.redis_monitor_queue n.monitor_queue (append prefix "monitor_queue")
          (itoa n.monitor_queue) in
      (
        error.1 ++ (celery.1 ++ monitor.1),
        record n {
          error_status = error.0;
          celery_queue_status = celery.0;
          monitor_queue_status = monitor.0;
        },
      )

  -- CheckRedis
  unfoldable pub check_redis : List RedisNode → Thresholds F → List CheckResult × List RedisNode
  check_redis nodes t = check_each (check_redis_one t) nodes

-- the switch on MasterEnvMatch
unfoldable pub check_env_match : String → CheckStatus × List CheckResult
check_env_match m =
    if m == "warn"
    then (warn, result "redis_sentinel.master_env_match" m warn "" ∷ [])
    else if m == "ok"
    then (ok, [])
    else (unset, [])

-- a test that warns if it fails
unfoldable pub warn_unless : Bool → String → String → CheckStatus × List CheckResult
warn_unless good field value =
    if not good then (warn, result field value warn "" ∷ []) else (ok, [])

unfoldable pub check_sentinel_node : SentinelNodeStatus → List CheckResult × SentinelNodeStatus
unfolding warn_unless concat
check_sentinel_node sn =
    let reach =
      warn_unless sn.reachable (concat ("redis_sentinel." ∷ sn.ip ∷ ".reachable" ∷ [])) "false" in
    (reach.1, record sn { render_status = reach.0 })

-- CheckRedisSentinel; `none` is a nil pointer
unfoldable pub check_redis_sentinel :
    Option SentinelClusterStatus → List CheckResult × Option SentinelClusterStatus
check_redis_sentinel none = ([], none)
check_redis_sentinel (some s) =
    let error =
      if not (s.error == "") then result "redis_sentinel.error" s.error warn "" ∷ [] else [] in
    let reachable = warn_unless s.master_reachable "redis_sentinel.master_reachable" "false" in
    let env = check_env_match s.master_env_match in
    let overall = warn_unless (s.status == "ok") "redis_sentinel.status" s.status in
    let nodes = check_each check_sentinel_node s.sentinels in
    (
      error ++ (reachable.1 ++ (env.1 ++ (overall.1 ++ nodes.0))),
      some (record s {
        master_reachable_status = reachable.0;
        master_env_match_status = env.0;
        overall_status = overall.0;
        sentinels = nodes.1;
      }),
    )
