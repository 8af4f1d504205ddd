-- ===== src/Checker/Severity.antt =====
-- Which rules can warn, and about what.
use we_term.Checker.Es.{notice_above}
use we_term.Checker.Mongo.{check_member, check_mongo, check_mongo_cluster}
use we_term.Checker.RabbitMq.{
  check_alarm, check_backlog, check_connections, check_rabbit_mq, check_stalled, warn_error,
  warn_if,
}
use we_term.Checker.Redis.{
  check_env_match, check_redis, check_redis_error, check_redis_one, check_redis_sentinel,
  check_sentinel_node, warn_unless,
}
use we_term.Checker.Result.Loops.{All-check_each, count_if-check_each, count_if-check_each_none}
use we_term.Config.Thresholds.{Thresholds}
use we_term.Model.Component.{
  MongoCluster, MongoMember, RedisNode, SentinelClusterStatus, SentinelNodeStatus,
}
use we_term.Model.Float.{FloatOps}
use we_term.Model.RabbitMq.{RabbitMqAlarm, RabbitMqQueue, RabbitMqStatus}
use we_term.Model.Status.{CheckResult, is_warn, warn}
use we_term.Prelude.{
  All, All-append, Bool, Bool-cases, List, Option, String, arith, count_if, if◌then◌else◌, inl, inr,
  none, not, refl, some, ◌++◌, ◌==◌, ◌≡◌,
}
use we_term.Prelude.Int.{ℤ}

-- every result is a warning
abbrev pub AllWarn : List CheckResult → Type 0
AllWarn rs = All (λ r. r.status ≡ warn) rs

abbrev AllWarn-append : (xs ys : List CheckResult) → AllWarn xs → AllWarn ys → AllWarn (xs ++ ys)
AllWarn-append xs ys = All-append (λ r. r.status ≡ warn) xs ys

warn_error-AllWarn : (field error : String) → AllWarn (warn_error field error)
unfolding warn_error
warn_error-AllWarn field error = ground arith

warn_if-AllWarn : (flag : Bool) (field : String) → AllWarn (warn_if flag field).1
unfolding warn_if
warn_if-AllWarn flag field = ground arith

warn_unless-AllWarn :
    (good : Bool) (field value : String) → AllWarn (warn_unless good field value).1
unfolding warn_unless
warn_unless-AllWarn good field value = ground arith

check_connections-AllWarn : (n : ℤ) → AllWarn (check_connections n).1
unfolding check_connections
check_connections-AllWarn n = ground arith

check_env_match-AllWarn : (m : String) → AllWarn (check_env_match m).1
unfolding check_env_match
check_env_match-AllWarn m = ground arith

check_alarm-AllWarn : (a : RabbitMqAlarm) → AllWarn (check_alarm a).0
unfolding check_alarm
check_alarm-AllWarn a = ground arith

check_sentinel_node-AllWarn : (sn : SentinelNodeStatus) → AllWarn (check_sentinel_node sn).0
unfolding check_sentinel_node
check_sentinel_node-AllWarn sn = ground arith

check_backlog-AllWarn :
    {F : Type 0} (threshold : String) (q : RabbitMqQueue F) → AllWarn (check_backlog threshold q).0
unfolding check_backlog
check_backlog-AllWarn threshold q = (refl, tt)

check_stalled-AllWarn :
    {F : Type 0} ⦃fl : FloatOps F⦄ (threshold : String) (q : RabbitMqQueue F)
    → AllWarn (check_stalled threshold q).0
unfolding check_stalled
check_stalled-AllWarn threshold q = (refl, tt)

-- All findings of CheckRabbitMQ are warnings.
check_rabbit_mq-AllWarn :
    {F : Type 0} ⦃fl : FloatOps F⦄ (r : Option (RabbitMqStatus F)) (t : Thresholds F)
    → AllWarn (check_rabbit_mq r t).0
unfolding check_rabbit_mq
check_rabbit_mq-AllWarn none t = tt
check_rabbit_mq-AllWarn (some r) t = AllWarn-append _ _ (warn_error-AllWarn _ r.error) (
    AllWarn-append _ _ (warn_error-AllWarn _ r.queues_error) (
      AllWarn-append _ _ (warn_if-AllWarn r.cluster_partition _) (
        AllWarn-append _ _ (check_connections-AllWarn r.abnormal_connections) (
          AllWarn-append _ _ (All-check_each check_alarm _ check_alarm-AllWarn r.node_alarms) (
            AllWarn-append _ _
              (All-check_each (check_backlog _) _ (check_backlog-AllWarn _) r.exceeding_queues)
              (All-check_each (check_stalled _) _ (check_stalled-AllWarn _) r.stalled_queues))))))

-- All findings of CheckRedisSentinel are warnings.
check_redis_sentinel-AllWarn :
    (s : Option SentinelClusterStatus) → AllWarn (check_redis_sentinel s).0
unfolding check_redis_sentinel warn_error
check_redis_sentinel-AllWarn none = tt
check_redis_sentinel-AllWarn (some s) = AllWarn-append _ _ (warn_error-AllWarn _ s.error) (
    AllWarn-append _ _ (warn_unless-AllWarn s.master_reachable _ _) (
      AllWarn-append _ _ (check_env_match-AllWarn s.master_env_match) (
        AllWarn-append _ _ (warn_unless-AllWarn (s.status == "ok") _ _)
          (All-check_each check_sentinel_node _ check_sentinel_node-AllWarn s.sentinels))))

-- The nodes that CheckRedis warns about are those with an error: a long queue never warns.
warns-check_redis_one :
    {F : Type 0} (t : Thresholds F) (n : RedisNode)
    → count_if is_warn (check_redis_one t n).0 ≡ (if not (n.error == "") then 1 else 0)
unfolding check_redis_one check_redis_error notice_above
warns-check_redis_one t n = ground arith

-- CheckRedis gives as many warnings as there are nodes with an error; queues of any length give
-- none.
pub warns-check_redis :
    {F : Type 0} (nodes : List RedisNode) (t : Thresholds F)
    → count_if is_warn (check_redis nodes t).0 ≡ count_if (λ n. not (n.error == "")) nodes
unfolding check_redis
warns-check_redis nodes t =
    count_if-check_each (check_redis_one t) is_warn (λ n. not (n.error == ""))
      (warns-check_redis_one t) nodes

warns-check_member :
    (prefix : String) (m : MongoMember) → count_if is_warn (check_member prefix m).0 ≡ 0
unfolding check_member
warns-check_member prefix m = ground arith

warns-check_mongo_cluster :
    (c : MongoCluster)
    → count_if is_warn (check_mongo_cluster c).0 ≡ (if not (c.error == "") then 1 else 0)
unfolding check_mongo_cluster
warns-check_mongo_cluster c = elim (Bool-cases (c.error == "")) [
  | inl read ↦
      rw read (count_if-check_each_none (check_member _) is_warn (warns-check_member _) c.members)
  | inr failed ↦ rw failed refl
]

-- CheckMongo gives as many warnings as there are clusters that could not be read; the health of a
-- member gives none.
warns-check_mongo :
    (clusters : List MongoCluster)
    → count_if is_warn (check_mongo clusters).0 ≡ count_if (λ c. not (c.error == "")) clusters
unfolding check_mongo
warns-check_mongo clusters =
    count_if-check_each check_mongo_cluster is_warn (λ c. not (c.error == ""))
      warns-check_mongo_cluster clusters
