-- ===== src/Collector/RabbitMq.antt =====
-- inspect/collector/rabbitmq.go: the answers of the management interface, and the queues.
pub mod Queues
use we_term.Collector.Json.{Fields, json_flag, json_float, json_int, json_str, member, obj}
use we_term.Model.Float.{FloatOps}
use we_term.Model.RabbitMq.{RabbitMqQueue, RabbitMqVhostSummary}
use we_term.Model.Status.{unset}
use we_term.Prelude.{
  Bool, List, String, [], false, if◌then◌else◌, map, not, ◌&&◌, ◌++◌, ◌==◌, ◌||◌, ◌∷◌,
}
use we_term.Prelude.Assoc.{insert, lookup_or}
use we_term.Prelude.Int.{leb_ℤ, pos, wrap64, ℤ, ◌+ℤ◌}
use we_term.Prelude.Order.{sort_by, text_leb}
use we_term.Prelude.Search.{has_prefix}
use we_term.Prelude.Sorting.{mem}

-- *rmqProbe, with the thresholds
pub record QueueRules (F : Type 0) : Type 0 where
  pub backlog_threshold : ℤ
  pub stalled_ack_rate_max : F
  pub stalled_pub_rate_min : F
  pub stalled_vhost_bl : List String

-- what the loop over the queues has gathered: summaryByVHost and the two lists
pub record QueueScan (F : Type 0) : Type 0 where
  pub summaries : List (String × RabbitMqVhostSummary)
  pub exceeding : List (RabbitMqQueue F)
  pub stalled : List (RabbitMqQueue F)

unfoldable pub empty_scan : {F : Type 0} → QueueScan F
empty_scan = record { summaries = []; exceeding = []; stalled = [] }

unfoldable pub no_summary : String → RabbitMqVhostSummary
no_summary vhost = record { vhost = vhost; queues = pos 0; messages = pos 0; consumers = pos 0 }

-- agg.Queues++; agg.Messages += msgs; agg.Consumers += consumers
unfoldable pub count_queue : ℤ → ℤ → RabbitMqVhostSummary → RabbitMqVhostSummary
count_queue msgs consumers agg = record agg {
  queues = agg.queues +ℤ pos 1;
  messages = wrap64 (agg.messages +ℤ msgs);
  consumers = wrap64 (agg.consumers +ℤ consumers);
}

module _ {F : Type 0} ⦃fl : FloatOps F⦄ where
  -- messageStatsRate
  unfoldable pub message_stats_rate : Fields F → String → F
  message_stats_rate q subkey = elim (member "message_stats" q) [
    | obj ms ↦ elim (member subkey ms) [
      | obj sub ↦ json_float (member "rate" sub)
      | _ ↦ fl.zero_float
    ]
    | _ ↦ fl.zero_float
  ]

  -- isStalled
  unfoldable pub is_stalled : QueueRules F → ℤ → F → F → String → Bool
  is_stalled p msgs ack_rate pub_rate vhost =
      if leb_ℤ msgs (pos 0)
      then false
      else if fl.less_eq p.stalled_ack_rate_max ack_rate
      then false
      else if fl.less_eq fl.zero_float p.stalled_pub_rate_min
          && fl.less_eq pub_rate p.stalled_pub_rate_min
      then false
      else not (mem vhost p.stalled_vhost_bl)

  -- the queues that the loop skips
  unfoldable pub is_skipped : Fields F → Bool
  is_skipped q =
      json_str (member "vhost" q) == "bk_usermgr"
      || has_prefix (json_str (member "name" q)) "celeryev"

  -- queueInfo
  unfoldable pub queue_info : Fields F → RabbitMqQueue F
  queue_info q = record {
    vhost = json_str (member "vhost" q);
    queue = json_str (member "name" q);
    message_count = json_int (member "messages" q);
    consumers = json_int (member "consumers" q);
    durable = json_flag (member "durable" q);
    ack_rate = message_stats_rate q "ack_details";
    publish_rate = message_stats_rate q "publish_details";
    message_status = unset;
    consumer_status = unset;
  }

  unfoldable pub is_exceeding : QueueRules F → RabbitMqQueue F → Bool
  is_exceeding p i = leb_ℤ p.backlog_threshold i.message_count

  unfoldable pub is_stalled_queue : QueueRules F → RabbitMqQueue F → Bool
  is_stalled_queue p i = is_stalled p i.message_count i.ack_rate i.publish_rate i.vhost

  -- the body of the loop for a queue that is not skipped
  unfoldable pub scan_queue : QueueRules F → RabbitMqQueue F → QueueScan F → QueueScan F
  scan_queue p i scan = record {
    summaries =
        insert i.vhost
          (count_queue i.message_count i.consumers
            (lookup_or (no_summary i.vhost) i.vhost scan.summaries))
          scan.summaries;
    exceeding = scan.exceeding ++ (if is_exceeding p i then i ∷ [] else []);
    stalled = scan.stalled ++ (if is_stalled_queue p i then i ∷ [] else []);
  }

  -- the body of the loop
  unfoldable pub scan_item : QueueRules F → Fields F → QueueScan F → QueueScan F
  scan_item p q scan = if is_skipped q then scan else scan_queue p (queue_info q) scan

  -- the loop over the queues
  unfoldable pub scan_queues : QueueRules F → List (Fields F) → QueueScan F → QueueScan F
  scan_queues p [] scan = scan
  scan_queues p (q ∷ queues) scan = scan_queues p queues (scan_item p q scan)

-- the summaries by their sorted names
unfoldable pub sorted_summaries : List (String × RabbitMqVhostSummary) → List RabbitMqVhostSummary
sorted_summaries summaries =
    map (λ v. lookup_or (no_summary v) v summaries) (sort_by text_leb (map (λ e. e.0) summaries))
