-- ===== src/Collector/Redis.antt =====
-- inspect/collector/redis.go: the standalone nodes and the Sentinel cluster, asked through the
-- go-redis client.
pub mod Replicas
pub mod Standalone
use we_term.Collector.Probe.{Failure, ProbeResult, class_text, classify_redis, err_none}
use we_term.Config.Settings.{Config}
use we_term.Model.Component.{RedisNode}
use we_term.Model.Status.{unset}
use we_term.Prelude.{
  List, Option, String, [], if◌then◌else◌, is_empty, map, none, some, ℕ, ◌==◌, ◌||◌, ◌∷◌,
}
use we_term.Prelude.Assoc.{insert, lookup_or}
use we_term.Prelude.Attempt.{Attempt, done, fail}
use we_term.Prelude.Fields.{split_text}
use we_term.Prelude.Int.{pos, ℤ}
use we_term.Prelude.Search.{contains, cut, has_prefix}
use we_term.Prelude.Text.{concat}
use we_term.Prelude.Words.{split_on, trim_space}

-- net.JoinHostPort
unfoldable pub join_host_port : String → String → String
join_host_port host port =
    if contains host ":"
    then concat ("[" ∷ host ∷ "]:" ∷ port ∷ [])
    else concat (host ∷ ":" ∷ port ∷ [])

-- The answers of go-redis: clients are named by their address, password and database.
pub record RedisClient : Type 0 where
  -- rdb.Info(ctx, sections…), with "" for no section
  pub info : String → String → ℕ → String → Attempt Failure String
  -- rdb.LLen(ctx, key), with none for an error
  pub llen : String → String → ℕ → String → Option ℤ
  pub ping : String → String → ℕ → Attempt Failure String
  -- a sentinel client's Ping and GetMasterAddrByName
  pub sentinel_ping : String → Attempt Failure String
  pub sentinel_master : String → String → Attempt Failure (List String)

-- what one line of INFO adds
unfoldable pub info_line : String → List (String × String) → List (String × String)
info_line raw entries =
    let line = trim_space raw in
    if line == "" || has_prefix line "#" then entries else elim (cut ":" line) [
      | none ↦ entries
      | some (key, value) ↦ if key == "" then entries else insert key value entries
    ]

-- the loop over the lines
unfoldable pub info_lines : List String → List (String × String) → List (String × String)
info_lines [] entries = entries
info_lines (line ∷ lines) entries = info_lines lines (info_line line entries)

-- parseRedisInfo
unfoldable pub parse_redis_info : String → List (String × String)
parse_redis_info output =
    let entries = info_lines (split_text "\r\n" output) [] in
    let of_lf = info_lines (split_on 10 output) [] in if is_empty entries then of_lf else entries

-- model.RedisNode{IP: ip}
unfoldable pub blank_node : String → RedisNode
blank_node ip = record {
  ip = ip;
  role = "";
  cluster_enabled = "";
  version = "";
  used_memory = "";
  max_memory = "";
  uptime_days = "";
  connected_clients = "";
  blocked_clients = "";
  celery_queue = pos 0;
  monitor_queue = pos 0;
  error = "";
  error_class = "";
  celery_queue_status = unset;
  monitor_queue_status = unset;
  error_status = unset;
}

-- the length of a queue in database 11, 0 where it cannot be asked for
unfoldable pub queue_length : RedisClient → String → String → String → ℤ
queue_length client target password key = elim (client.llen target password 11 key) [
  | none ↦ pos 0
  | some v ↦ v
]

-- the node and the result that the answer to INFO gives
unfoldable pub node_of_answer :
    RedisClient → String → String → String → Attempt Failure String → RedisNode × ProbeResult
node_of_answer client target password ip (fail e) = (
  record (blank_node ip) {
    error = concat ("redis info error: " ∷ e.text ∷ []);
    error_class = class_text (classify_redis e);
  },
  record { target = target; latency = pos 0; err = some e; err_class = classify_redis e },
)
node_of_answer client target password ip (done output) =
    let info = parse_redis_info output in
    (
      record (blank_node ip) {
        version = lookup_or "" "redis_version" info;
        role = lookup_or "" "role" info;
        cluster_enabled = lookup_or "" "cluster_enabled" info;
        used_memory = lookup_or "" "used_memory" info;
        max_memory = lookup_or "" "maxmemory" info;
        uptime_days = lookup_or "" "uptime_in_days" info;
        connected_clients = lookup_or "" "connected_clients" info;
        blocked_clients = lookup_or "" "blocked_clients" info;
        celery_queue = queue_length client target password "celery";
        monitor_queue = queue_length client target password "monitor";
      },
      record { target = target; latency = pos 0; err = none; err_class = err_none },
    )

-- redisNodeProbe.Run: the node it leaves behind, and its result
unfoldable pub probe_redis_node : RedisClient → String → String → String → RedisNode × ProbeResult
probe_redis_node client port password ip =
    let target = join_host_port ip port in
    node_of_answer client target password ip (client.info target password 0 "")

-- CollectRedisStandalone: one node for each address
unfoldable pub collect_redis_standalone : {F : Type 0} → RedisClient → Config F → List RedisNode
collect_redis_standalone client cfg =
    map (λ ip. (probe_redis_node client cfg.ports.redis_port cfg.creds.redis_password ip).0)
      cfg.addresses.redis_ips
