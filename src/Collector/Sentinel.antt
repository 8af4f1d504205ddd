-- ===== src/Collector/Sentinel.antt =====
-- inspect/collector/redis.go: the Sentinel cluster.
pub mod Status
use we_term.Collector.Probe.{class_text, classify_redis, err_network, err_protocol}
use we_term.Collector.Redis.{RedisClient, join_host_port}
use we_term.Config.Settings.{Config}
use we_term.Model.Component.{SentinelClusterStatus, SentinelNodeStatus}
use we_term.Model.Status.{unset}
use we_term.Prelude.{
  Bool, List, Option, String, [], count_if, eqb, false, if◌then◌else◌, is_empty, length, ltb, map,
  none, not, some, true, ℕ, ◌==◌, ◌||◌, ◌∷◌,
}
use we_term.Prelude.Attempt.{done, fail}
use we_term.Prelude.Text.{append, concat}
use we_term.Runner.{master_env_match}

-- pingSentinel
unfoldable pub ping_sentinel : RedisClient → String → String → SentinelNodeStatus
ping_sentinel client port ip = elim (client.sentinel_ping (join_host_port ip port)) [
  | fail e ↦ record blank {
    error = concat ("ping error: " ∷ e.text ∷ []);
    error_class = class_text (classify_redis e);
  }
  | done pong ↦ if pong == "PONG" then record blank { reachable = true } else record blank {
    error = append "unexpected response: " pong;
    error_class = class_text err_protocol;
  }
]
  where
    blank : SentinelNodeStatus
    blank = record {
      ip = ip;
      port = port;
      reachable = false;
      error = "";
      error_class = "";
      render_status = unset;
    }

-- sentinelGetMaster, with none for an error
unfoldable pub sentinel_get_master :
    RedisClient → String → String → String → Option (String × String)
sentinel_get_master client ip port name =
    elim (client.sentinel_master (join_host_port ip port) name) [
      | fail e ↦ none
      | done [] ↦ none
      | done (a ∷ []) ↦ none
      | done (a ∷ b ∷ more) ↦ some (a, b)
    ]

-- redisPing
unfoldable pub redis_ping : RedisClient → String → String → String → Bool
redis_ping client ip port password = elim (client.ping (join_host_port ip port) password 0) [
  | fail e ↦ false
  | done pong ↦ pong == "PONG"
]

-- the loop that asks the reachable sentinels for the master: its address, and whether it answers
unfoldable pub discover_master :
    RedisClient → String → String → List SentinelNodeStatus → String × Bool
discover_master client name password [] = ("", false)
discover_master client name password (s ∷ rest) =
    let later = discover_master client name password rest in
    if not s.reachable then later else elim (sentinel_get_master client s.ip s.port name) [
      | none ↦ later
      | some (ip, port) ↦
          if ip == "" then later else (join_host_port ip port, redis_ping client ip port password)
    ]

module _ {F : Type 0} (client : RedisClient) (env : String → String → String) (cfg : Config F) where
  abbrev pub sentinel_name : String
  sentinel_name = env "BK_APIGW_REDIS_SENTINEL_MASTER_NAME" "mymaster"

  -- the loop that pings each sentinel
  unfoldable pub pinged : List SentinelNodeStatus
  pinged =
      map (ping_sentinel client (env "INSPECT_REDIS_SENTINEL_PORT" "26379"))
        cfg.addresses.redis_sentinel_ips

  unfoldable pub reachable_count : ℕ
  reachable_count = count_if (λ s. s.reachable) pinged

  unfoldable pub discovered : String × Bool
  discovered = discover_master client sentinel_name cfg.creds.redis_password pinged

  -- the switch on what was found
  unfoldable pub cluster_status : String
  cluster_status =
      if eqb reachable_count 0
      then "critical"
      else if discovered.0 == "" || not discovered.1
      then "critical"
      else if ltb reachable_count (length cfg.addresses.redis_sentinel_ips)
      then "warn"
      else "ok"

  unfoldable pub sentinel_cluster : SentinelClusterStatus
  sentinel_cluster = record {
    master_name = sentinel_name;
    sentinels = pinged;
    discovered_master = if eqb reachable_count 0 then "" else discovered.0;
    master_reachable = if eqb reachable_count 0 then false else discovered.1;
    status = cluster_status;
    master_env_match = "";
    error = if eqb reachable_count 0 then "no sentinel reachable" else "";
    error_class = if eqb reachable_count 0 then class_text err_network else "";
    master_reachable_status = unset;
    master_env_match_status = unset;
    overall_status = unset;
  }

-- CollectRedisSentinel; `env` is envOrDefault
unfoldable pub collect_redis_sentinel :
    {F : Type 0}
    → RedisClient
    → (String → String → String)
    → Config F
    → Option SentinelClusterStatus
collect_redis_sentinel client env cfg =
    if is_empty cfg.addresses.redis_sentinel_ips
    then none
    else some (sentinel_cluster client env cfg)
