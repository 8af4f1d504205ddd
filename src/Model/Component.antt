-- ===== src/Model/Component.antt =====
-- inspect/model/types.go: the open-source components. `F` is Go's float64.
use we_term.Model.Status.{CheckStatus}
use we_term.Prelude.{Bool, List, String}
use we_term.Prelude.Int.{ℤ}

pub record EsNode (F : Type 0) : Type 0 where
  pub ip : String
  pub heap_percent : ℤ
  pub ram_percent : ℤ
  pub cpu : ℤ
  pub load_1m : F
  pub load_5m : F
  pub load_15m : F
  pub role : String
  pub heap_status : CheckStatus
  pub ram_status : CheckStatus

pub record EsNodeReach : Type 0 where
  pub ip : String
  pub status : String
  pub detail : String
  pub render_status : CheckStatus

pub record EsCluster (F : Type 0) : Type 0 where
  pub instance_name : String
  pub cluster_name : String
  pub status : String
  pub number_of_nodes : ℤ
  pub number_of_data_nodes : ℤ
  pub active_primary_shards : ℤ
  pub active_shards : ℤ
  pub unassigned_shards : ℤ
  pub pending_tasks : ℤ
  pub active_shards_percent : F
  pub nodes : List (EsNode F)
  pub node_reachability : List EsNodeReach
  pub error : String
  pub error_class : String
  pub health_status : CheckStatus
  pub unassigned_status : CheckStatus
  pub pending_status : CheckStatus

pub record RedisNode : Type 0 where
  pub ip : String
  pub role : String
  pub cluster_enabled : String
  pub version : String
  pub used_memory : String
  pub max_memory : String
  pub uptime_days : String
  pub connected_clients : String
  pub blocked_clients : String
  pub celery_queue : ℤ
  pub monitor_queue : ℤ
  pub error : String
  pub error_class : String
  pub celery_queue_status : CheckStatus
  pub monitor_queue_status : CheckStatus
  pub error_status : CheckStatus

pub record SentinelNodeStatus : Type 0 where
  pub ip : String
  pub port : String
  pub reachable : Bool
  pub error : String
  pub error_class : String
  pub render_status : CheckStatus

pub record SentinelClusterStatus : Type 0 where
  pub master_name : String
  pub sentinels : List SentinelNodeStatus
  pub discovered_master : String
  pub master_reachable : Bool
  pub status : String
  pub master_env_match : String
  pub error : String
  pub error_class : String
  pub master_reachable_status : CheckStatus
  pub master_env_match_status : CheckStatus
  pub overall_status : CheckStatus

pub record MongoMember : Type 0 where
  pub name : String
  pub health : ℤ
  pub state_str : String
  pub uptime : ℤ
  pub syncing_to : String
  pub sync_source_host : String
  pub health_status : CheckStatus

pub record MongoCluster : Type 0 where
  pub instance_name : String
  pub members : List MongoMember
  pub error : String
  pub error_class : String
