-- ===== src/Checker/RabbitMq.antt =====
-- inspect/checker/rabbitmq.go: CheckRabbitMQ.
use we_term.Checker.Result.{check_each, result}
use we_term.Config.Thresholds.{Thresholds}
use we_term.Model.Float.{FloatOps}
use we_term.Model.RabbitMq.{RabbitMqAlarm, RabbitMqQueue, RabbitMqStatus}
use we_term.Model.Status.{CheckResult, CheckStatus, ok, unset, warn}
use we_term.Prelude.{
  Bool, List, Option, String, [], if◌then◌else◌, none, not, some, ◌++◌, ◌==◌, ◌∷◌,
}
use we_term.Prelude.Int.{ltb_ℤ, pos, ℤ}
use we_term.Prelude.Text.{concat, itoa}

-- a flag that warns if it is set
unfoldable pub warn_if : Bool → String → CheckStatus × List CheckResult
warn_if flag field = if flag then (warn, result field "true" warn "" ∷ []) else (ok, [])

unfoldable pub check_alarm : RabbitMqAlarm → List CheckResult × RabbitMqAlarm
unfolding warn_if concat
check_alarm a =
    let memory = warn_if a.mem_alarm (concat ("rabbitmq.node." ∷ a.node ∷ ".mem_alarm" ∷ [])) in
    let disk =
      warn_if a.disk_free_alarm (concat ("rabbitmq.node." ∷ a.node ∷ ".disk_free_alarm" ∷ [])) in
    (memory.1 ++ disk.1, record a { mem_status = memory.0; disk_free_status = disk.0 })

-- if err != "" { … Warn }
unfoldable pub warn_error : String → String → List CheckResult
warn_error field error = if not (error == "") then result field error warn "" ∷ [] else []

-- if r.AbnormalConnections > 0 { … }
unfoldable pub check_connections : ℤ → CheckStatus × List CheckResult
unfolding itoa
check_connections n =
    if ltb_ℤ (pos 0) n
    then (warn, result "rabbitmq.abnormal_connections" (itoa n) warn "" ∷ [])
    else (unset, [])

module _ {F : Type 0} where
  -- the field of a queue; the kind is "backlog" or "stalled"
  unfoldable pub queue_field : RabbitMqQueue F → String → String
  unfolding concat
  queue_field q kind = concat ("rabbitmq." ∷ q.vhost ∷ "." ∷ q.queue ∷ "." ∷ kind ∷ [])

  -- the loop body for a queue with a backlog
  unfoldable pub check_backlog : String → RabbitMqQueue F → List CheckResult × RabbitMqQueue F
  unfolding queue_field concat itoa
  check_backlog threshold q = (
    result (queue_field q "backlog")
          (concat (itoa q.message_count ∷ " msgs / " ∷ itoa q.consumers ∷ " consumers" ∷ [])) warn
          threshold
        ∷ [],
    record q { message_status = warn },
  )

module _ {F : Type 0} ⦃fl : FloatOps F⦄ where
  -- stalledThresholdLabel
  unfoldable pub stalled_threshold_label : Thresholds F → String
  unfolding concat
  stalled_threshold_label t =
      if fl.less t.stalled_publish_rate_min fl.zero_float
      then concat ("ack < " ∷ fl.show_short t.stalled_ack_rate_max ∷ "/s" ∷ [])
      else concat (
          "ack < "
          ∷ fl.show_short t.stalled_ack_rate_max
          ∷ "/s, pub > "
          ∷ fl.show_short t.stalled_publish_rate_min
          ∷ "/s"
          ∷ [])

  -- the loop body for a stalled queue
  unfoldable pub check_stalled : String → RabbitMqQueue F → List CheckResult × RabbitMqQueue F
  unfolding queue_field concat itoa
  check_stalled threshold q = (
    result (queue_field q "stalled")
          (concat (
            itoa q.message_count
            ∷ " msgs / "
            ∷ itoa q.consumers
            ∷ " consumers / ack="
            ∷ fl.show_short q.ack_rate
            ∷ "/s / pub="
            ∷ fl.show_short q.publish_rate
            ∷ "/s"
            ∷ []))
          warn threshold
        ∷ [],
    record q { consumer_status = warn; message_status = warn },
  )

  -- CheckRabbitMQ; `none` is a nil pointer
  unfoldable pub check_rabbit_mq :
      Option (RabbitMqStatus F) → Thresholds F → List CheckResult × Option (RabbitMqStatus F)
  check_rabbit_mq none t = ([], none)
  check_rabbit_mq (some r) t =
      let partition = warn_if r.cluster_partition "rabbitmq.cluster_partition" in
      let connections = check_connections r.abnormal_connections in
      let alarms = check_each check_alarm r.node_alarms in
      let backlog =
        check_each (check_backlog (concat ("> " ∷ itoa t.rabbitmq_queue_backlog ∷ " msgs" ∷ [])))
          r.exceeding_queues in
      let stalled = check_each (check_stalled (stalled_threshold_label t)) r.stalled_queues in
      (
        warn_error "rabbitmq.error" r.error
            ++ (warn_error "rabbitmq.queues_error" r.queues_error
                ++ (partition.1 ++ (connections.1 ++ (alarms.0 ++ (backlog.0 ++ stalled.0))))),
        some (record r {
          partition_status = partition.0;
          abnormal_conn_status = connections.0;
          node_alarms = alarms.1;
          exceeding_queues = backlog.1;
          stalled_queues = stalled.1;
        }),
      )
