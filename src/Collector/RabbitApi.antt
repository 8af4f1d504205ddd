-- ===== src/Collector/RabbitApi.antt =====
-- inspect/collector/rabbitmq.go: the calls of curl, and what the probe makes of the answers.
pub mod CurlClass
use Prim.Native.Char.{code}
use we_term.Collector.Json.{
  Fields, Json, JsonDecoder, json_flag, json_nonempty, json_str, member, num,
}
use we_term.Collector.Probe.{Failure, class_text, curl_err_class, err_unknown}
use we_term.Collector.RabbitMq.{QueueRules, empty_scan, scan_queues, sorted_summaries}
use we_term.Config.Settings.{Config}
use we_term.Model.Float.{FloatOps}
use we_term.Model.RabbitMq.{RabbitMqAlarm, RabbitMqStatus}
use we_term.Model.Status.{unset}
use we_term.Prelude.{
  Bool, List, Option, String, [], count_if, eqb, false, if◌then◌else◌, length, none, not, some,
  ◌&&◌, ◌++◌, ◌==◌, ◌||◌, ◌∷◌,
}
use we_term.Prelude.Attempt.{Attempt, done, fail}
use we_term.Prelude.Int.{pos, quot_ℤ, rem_ℤ}
use we_term.Prelude.Text.{concat, itoa}
use we_term.Prelude.Words.{trim_space}

-- How a run of curl failed: the error, and the stderr of an *exec.ExitError, "" for another one.
pub record CurlFailure : Type 0 where
  pub failure : Failure
  pub stderr : String

-- an error made by fmt.Errorf without %w or by errors.New: nothing is found in it but its text
unfoldable pub plain_failure : String → Failure
plain_failure message = record {
  text = message;
  cancelled = false;
  net_timeout = false;
  net_op = false;
  dns = false;
  conversion = false;
  mysql_number = none;
  mongo_code = none;
  exit_code = none;
}

abbrev starts_json : String → Bool
starts_json String.[] = false
starts_json (String.◌∷◌ c s) = eqb (code c) 91 || eqb (code c) 123

-- rmqAPI, of what curl answered
unfoldable pub rmq_api : String → Attempt CurlFailure String → Attempt Failure String
rmq_api endpoint (fail e) =
    if not (e.stderr == "")
    then fail (plain_failure (concat (e.failure.text ∷ ": " ∷ trim_space e.stderr ∷ [])))
    else fail e.failure
rmq_api endpoint (done out) =
    if starts_json (trim_space out)
    then done out
    else fail (plain_failure (concat ("rabbitmq api " ∷ endpoint ∷ ": non-JSON response" ∷ [])))

abbrev nodes_endpoint : String
nodes_endpoint = "nodes?columns=name,mem_alarm,disk_free_alarm,partitions,uptime"

abbrev connections_endpoint : String
connections_endpoint = "connections?columns=state"

abbrev channels_endpoint : String
channels_endpoint = "channels?columns=name"

abbrev queues_endpoint : String
queues_endpoint =
    "queues?disable_stats=true&enable_queue_totals=true&columns=name,vhost,messages,consumers,durable,message_stats.ack_details.rate,message_stats.publish_details.rate"

-- what an endpoint answered, decoded; none for an error of the call or of the decoder
abbrev decoded {ℓ} : {A : Type ℓ} → (String → Option A) → Attempt Failure String → Option A
decoded decode (fail e) = none
decoded decode (done out) = decode out

module _ {F : Type 0} ⦃fl : FloatOps F⦄ where
  -- the text of an uptime in milliseconds
  unfoldable pub show_uptime : F → String
  show_uptime ms =
      let secs = fl.truncate (fl.over ms (fl.of_int (pos 1000))) in
      concat (
        itoa (quot_ℤ secs 86400)
        ∷ "d "
        ∷ itoa (quot_ℤ (rem_ℤ secs 86400) 3600)
        ∷ "h "
        ∷ itoa (quot_ℤ (rem_ℤ secs 3600) 60)
        ∷ "m"
        ∷ [])

  unfoldable pub node_alarm : Fields F → RabbitMqAlarm
  node_alarm n = record {
    node = json_str (member "name" n);
    mem_alarm = json_flag (member "mem_alarm" n);
    disk_free_alarm = json_flag (member "disk_free_alarm" n);
    mem_status = unset;
    disk_free_status = unset;
  }

  -- if p.status.Uptime == "" { … }
  unfoldable pub uptime_with : String → Json F → String
  uptime_with uptime v =
      if uptime == "" then elim v [ num ms ↦ show_uptime ms | _ ↦ uptime ] else uptime

  -- the body of the loop over the nodes
  unfoldable pub scan_node : Fields F → RabbitMqStatus F → RabbitMqStatus F
  scan_node n st =
      let alarm = node_alarm n in
      record st {
        node_alarms =
            st.node_alarms ++ (if alarm.mem_alarm || alarm.disk_free_alarm then alarm ∷ [] else []);
        cluster_partition = json_nonempty (member "partitions" n) || st.cluster_partition;
        uptime = uptime_with st.uptime (member "uptime" n);
      }

  unfoldable pub scan_nodes : List (Fields F) → RabbitMqStatus F → RabbitMqStatus F
  scan_nodes [] st = st
  scan_nodes (n ∷ nodes) st = scan_nodes nodes (scan_node n st)

  unfoldable pub is_abnormal : Fields F → Bool
  is_abnormal c =
      not (json_str (member "state" c) == "running") && not (json_str (member "state" c) == "")

  unfoldable pub with_connections : Option (List (Fields F)) → RabbitMqStatus F → RabbitMqStatus F
  with_connections none st = st
  with_connections (some conns) st = record st {
    total_connections = pos (length conns);
    abnormal_connections = pos (count_if is_abnormal conns);
  }

  unfoldable pub with_channels : Option (List (Json F)) → RabbitMqStatus F → RabbitMqStatus F
  with_channels none st = st
  with_channels (some chans) st = record st { total_channels = pos (length chans) }

  unfoldable pub with_queues :
      QueueRules F → Option (List (Fields F)) → RabbitMqStatus F → RabbitMqStatus F
  with_queues p none st = st
  with_queues p (some queues) st =
      let scan = scan_queues p queues empty_scan in
      record st {
        exceeding_queues = scan.exceeding;
        stalled_queues = scan.stalled;
        vhost_summary = sorted_summaries scan.summaries;
      }

  -- &model.RabbitMQStatus{}
  unfoldable pub empty_status : RabbitMqStatus F
  empty_status = record {
    cluster_partition = false;
    uptime = "";
    total_connections = pos 0;
    abnormal_connections = pos 0;
    total_channels = pos 0;
    node_alarms = [];
    vhost_summary = [];
    exceeding_queues = [];
    stalled_queues = [];
    queues_error = "";
    error = "";
    error_class = "";
    partition_status = unset;
    abnormal_conn_status = unset;
  }

  -- rmqProbe.Run: the status it leaves behind; `curl` answers for an endpoint
  unfoldable pub probe_rabbit_mq :
      JsonDecoder F → QueueRules F → (String → Attempt CurlFailure String) → RabbitMqStatus F
  probe_rabbit_mq decoder p curl = elim (rmq_api nodes_endpoint (curl nodes_endpoint)) [
    | fail e ↦ record empty_status { error = e.text; error_class = class_text (curl_err_class e) }
    | done out ↦ of_queues (of_channels (of_connections (of_nodes (decoder.objects out))))
  ]
    where
      of_nodes : Option (List (Fields F)) → RabbitMqStatus F
      of_nodes none = empty_status
      of_nodes (some nodes) = scan_nodes nodes empty_status

      of_connections : RabbitMqStatus F → RabbitMqStatus F
      of_connections =
          with_connections
            (decoded decoder.objects (rmq_api connections_endpoint (curl connections_endpoint)))

      of_channels : RabbitMqStatus F → RabbitMqStatus F
      of_channels =
          with_channels
            (decoded decoder.values (rmq_api channels_endpoint (curl channels_endpoint)))

      of_queues : RabbitMqStatus F → RabbitMqStatus F
      of_queues st = elim (rmq_api queues_endpoint (curl queues_endpoint)) [
        | fail e ↦ record st { queues_error = e.text }
        | done out ↦ with_queues p (decoder.objects out) st
      ]

  -- CollectRabbitMQ; `has_curl` is whether exec.LookPath finds curl, and `curl` answers for the
  -- host and an endpoint
  unfoldable pub collect_rabbit_mq :
      JsonDecoder F
      → Bool
      → (String → String → Attempt CurlFailure String)
      → Config F
      → Option (RabbitMqStatus F)
  collect_rabbit_mq decoder has_curl curl cfg = elim cfg.addresses.rabbit_mq_ips [
    | [] ↦ none
    | host ∷ others ↦
        if not has_curl
        then some (record empty_status {
          error = "curl CLI not available";
          error_class = class_text err_unknown;
        })
        else some (probe_rabbit_mq decoder rules (curl host))
  ]
    where
      rules : QueueRules F
      rules = record {
        backlog_threshold = cfg.thresholds.rabbitmq_queue_backlog;
        stalled_ack_rate_max = cfg.thresholds.stalled_ack_rate_max;
        stalled_pub_rate_min = cfg.thresholds.stalled_publish_rate_min;
        stalled_vhost_bl = cfg.thresholds.stalled_vhost_blacklist;
      }
