-- ===== src/Config/Hosts.antt =====
-- inspect/config/config.go: the hosts of the modules, and the list of all hosts.
pub mod Exact
use we_term.Prelude.{List, Option, String, [], if◌then◌else◌, none, not, some, ◌++◌, ◌∷◌}
use we_term.Config.Settings.{Addresses}
use we_term.Prelude.Sorting.{mem}

-- ModuleHosts
pub record ModuleHosts : Type 0 where
  pub module_name : String
  pub ips : List String

-- roleIPs of GetModuleHosts
abbrev pub role_ips : Addresses → List String → List String
role_ips a [] = a.monitor_v3_ips
role_ips a (ip ∷ ips) = ip ∷ ips

-- GetModuleHosts
unfoldable pub get_module_hosts : Addresses → List ModuleHosts
get_module_hosts a =
    record { module_name = "paas"; ips = a.paas_ips }
    ∷ record { module_name = "cmdb"; ips = a.cmdb_ips }
    ∷ record { module_name = "job"; ips = a.job_ips }
    ∷ record { module_name = "gse"; ips = a.gse_ips }
    ∷ record { module_name = "appo"; ips = a.appo_ips }
    ∷ record { module_name = "appt"; ips = a.appt_ips }
    ∷ record { module_name = "iam"; ips = a.iam_ips }
    ∷ record { module_name = "usermgr"; ips = a.user_mgr_ips }
    ∷ record { module_name = "nodeman"; ips = a.node_man_ips }
    ∷ record { module_name = "bkmonitorv3-monitor"; ips = role_ips a a.monitor_v3_monitor_ips }
    ∷ record {
      module_name = "bkmonitorv3-influxdb-proxy";
      ips = role_ips a a.monitor_v3_influxdb_proxy_ips;
    }
    ∷ record { module_name = "bkmonitorv3-transfer"; ips = role_ips a a.monitor_v3_transfer_ips }
    ∷ record {
      module_name = "bkmonitorv3-unify-query";
      ips = role_ips a a.monitor_v3_unify_query_ips;
    }
    ∷ []

-- allIPs of buildAllHosts
abbrev pub ip_lists : Addresses → List (List String)
ip_lists a =
    a.paas_ips ∷ a.cmdb_ips ∷ a.job_ips ∷ a.gse_ips ∷ a.appo_ips ∷ a.appt_ips ∷ a.iam_ips
    ∷ a.user_mgr_ips ∷ a.node_man_ips ∷ a.monitor_v3_ips ∷ a.monitor_v3_monitor_ips
    ∷ a.monitor_v3_influxdb_proxy_ips ∷ a.monitor_v3_transfer_ips ∷ a.monitor_v3_unify_query_ips
    ∷ a.es7_ips ∷ a.rabbit_mq_ips ∷ a.mysql_ips ∷ a.mongo_db_ips ∷ a.redis_ips
    ∷ a.redis_sentinel_ips ∷ []

-- The inner loop of buildAllHosts: `seen` holds the addresses of the map, and the result is what
-- the loop appends, with the map behind it.
unfoldable pub add_ips : List String → List String → List String × List String
add_ips seen [] = ([], seen)
add_ips seen (ip ∷ ips) =
    let skipped = add_ips seen ips in
    let taken = add_ips (ip ∷ seen) ips in
    if not (mem ip seen) then (ip ∷ taken.0, taken.1) else skipped

-- The outer loop.
unfoldable pub add_lists : List String → List (List String) → List String
unfolding add_ips
add_lists seen [] = []
add_lists seen (ips ∷ rest) = (add_ips seen ips).0 ++ add_lists (add_ips seen ips).1 rest

-- buildAllHosts
unfoldable pub build_all_hosts : Addresses → List String
unfolding add_lists
build_all_hosts a = add_lists [] (ip_lists a)

-- Validate: `none` is a configuration with hosts
unfoldable pub validate_hosts : List String → Option String
validate_hosts [] =
    some "no hosts found: set at least one BK_{MODULE}_IP_COMMA environment variable"
validate_hosts (h ∷ hs) = none
