-- ===== src/Collector/Registry.antt =====
-- inspect/collector/service_registry.go: the sub-modules of the services.
use we_term.Prelude.{Bool, List, String, [], false, true, ℕ, ◌∷◌}

-- SubModule
pub record SubModule : Type 0 where
  pub name : String
  pub service_unit : String
  pub process_name : String
  pub port : ℕ
  pub healthz_path : String
  pub healthz_type : String
  pub healthz_port : ℕ
  pub skip_status_check : Bool
  pub skip_healthz_check : Bool

-- a SubModule with the fields that most of them give
abbrev pub sub_module : String → String → String → ℕ → String → String → SubModule
sub_module name service_unit process_name port healthz_path healthz_type = record {
  name = name;
  service_unit = service_unit;
  process_name = process_name;
  port = port;
  healthz_path = healthz_path;
  healthz_type = healthz_type;
  healthz_port = 0;
  skip_status_check = false;
  skip_healthz_check = false;
}

abbrev pub paas_modules : List SubModule
paas_modules =
    sub_module "appengine" "bk-paas-appengine" "uwsgi-open_paas-appengine.ini" 8000 "/v1/healthz/"
      "http_status"
    ∷ sub_module "console" "bk-paas-console" "uwsgi-open_paas-console.ini" 8004 "/console/healthz/"
        "http_status"
    ∷ sub_module "esb" "bk-paas-esb" "uwsgi-open_paas-esb.ini" 8002 "/healthz/" "http_status"
    ∷ sub_module "login" "bk-paas-login" "uwsgi-open_paas-login.ini" 8003 "/healthz/" "http_status"
    ∷ sub_module "paas" "bk-paas-paas" "uwsgi-open_paas-paas.ini" 8001 "/healthz/" "http_status"
    ∷ []

abbrev pub cmdb_modules : List SubModule
cmdb_modules =
    sub_module "cmdb-admin" "bk-cmdb-admin" "cmdb_admin" 9000 "/healthz" "json_ok"
    ∷ sub_module "cmdb-api" "bk-cmdb-api" "cmdb_api" 9001 "/healthz" "json_ok"
    ∷ sub_module "cmdb-auth" "bk-cmdb-auth" "cmdb_auth" 9002 "/healthz" "json_ok"
    ∷ sub_module "cmdb-cloud" "bk-cmdb-cloud" "cmdb_cloud" 9003 "/healthz" "json_ok"
    ∷ sub_module "cmdb-core" "bk-cmdb-core" "cmdb_core" 9004 "/healthz" "json_ok"
    ∷ sub_module "cmdb-datacollection" "bk-cmdb-datacollection" "cmdb_datacollection" 9005
        "/healthz" "json_ok"
    ∷ sub_module "cmdb-event" "bk-cmdb-event" "cmdb_event" 9006 "/healthz" "json_ok"
    ∷ sub_module "cmdb-host" "bk-cmdb-host" "cmdb_host" 9007 "/healthz" "json_ok"
    ∷ sub_module "cmdb-operation" "bk-cmdb-operation" "cmdb_operation" 9008 "/healthz" "json_ok"
    ∷ sub_module "cmdb-proc" "bk-cmdb-proc" "cmdb_proc" 9009 "/healthz" "json_ok"
    ∷ sub_module "cmdb-task" "bk-cmdb-task" "cmdb_task" 9011 "/healthz" "json_ok"
    ∷ sub_module "cmdb-topo" "bk-cmdb-topo" "cmdb_topo" 9012 "/healthz" "json_ok"
    ∷ sub_module "cmdb-web" "bk-cmdb-web" "cmdb_web" 9013 "/healthz" "json_ok"
    ∷ sub_module "cmdb-cache" "bk-cmdb-cache" "cmdb_cache" 9014 "/healthz" "json_ok"
    ∷ []

abbrev pub job_modules : List SubModule
job_modules =
    sub_module "job-backup" "bk-job-backup" "job-backup" 10507 "/actuator/health" "json_up"
    ∷ sub_module "job-config" "bk-job-config" "job-config" 10500 "/actuator/health" "json_up"
    ∷ sub_module "job-crontab" "bk-job-crontab" "job-crontab" 10501 "/actuator/health" "json_up"
    ∷ sub_module "job-execute" "bk-job-execute" "job-execute" 10502 "/actuator/health" "json_up"
    ∷ sub_module "job-logsvr" "bk-job-logsvr" "job-logsvr" 10504 "/actuator/health" "json_up"
    ∷ sub_module "job-manage" "bk-job-manage" "job-manage" 10505 "/actuator/health" "json_up"
    ∷ record (sub_module "job-analysis" "bk-job-analysis" "job-analysis" 10508 "/actuator/health"
        "json_up") { skip_status_check = true; skip_healthz_check = true }
    ∷ record (sub_module "job-gateway" "bk-job-gateway" "job-gateway" 10503 "/actuator/health"
        "json_up") { healthz_port = 19876 }
    ∷ []

abbrev pub gse_modules : List SubModule
gse_modules =
    sub_module "gse-alarm" "bk-gse-alarm" "gse_alarm" 0 "" "none"
    ∷ sub_module "gse-api" "bk-gse-api" "gse_api" 0 "" "none"
    ∷ sub_module "gse-btsvr" "bk-gse-btsvr" "gse_btsvr" 0 "" "none"
    ∷ sub_module "gse-data" "bk-gse-data" "gse_data" 0 "" "none"
    ∷ sub_module "gse-dba" "bk-gse-dba" "gse_dba" 0 "" "none"
    ∷ sub_module "gse-procmgr" "bk-gse-procmgr" "gse_procmgr" 0 "" "none"
    ∷ sub_module "gse-config" "bk-gse-config" "gse_config" 0 "" "none"
    ∷ sub_module "gse-task" "bk-gse-task" "gse_task" 0 "" "none"
    ∷ []

abbrev pub appo_modules : List SubModule
appo_modules = sub_module "bk-paasagent" "bk-paasagent" "paasagent" 0 "" "none" ∷ []

abbrev pub appt_modules : List SubModule
appt_modules = sub_module "bk-paasagent" "bk-paasagent" "paasagent" 0 "" "none" ∷ []

abbrev pub iam_modules : List SubModule
iam_modules = sub_module "bkiam" "bk-iam" "bkiam" 5001 "/healthz" "http_status" ∷ []

abbrev pub usermgr_modules : List SubModule
usermgr_modules = sub_module "usermgr" "bk-usermgr" "usermgr" 8009 "/healthz/" "http_status" ∷ []

abbrev pub nodeman_modules : List SubModule
nodeman_modules = sub_module "nodeman" "bk-nodeman" "nodeman" 10300 "/" "http_alive" ∷ []

abbrev pub bkmonitorv3_monitor_modules : List SubModule
bkmonitorv3_monitor_modules =
    sub_module "monitor" "bk-monitor" "supervisord" 10204 "/" "http_alive" ∷ []

abbrev pub bkmonitorv3_influxdb_proxy_modules : List SubModule
bkmonitorv3_influxdb_proxy_modules =
    sub_module "influxdb-proxy" "bk-influxdb-proxy" "influxdb-proxy" 10203 "/" "http_alive" ∷ []

abbrev pub bkmonitorv3_transfer_modules : List SubModule
bkmonitorv3_transfer_modules =
    sub_module "transfer" "bk-transfer" "transfer" 10202 "/" "http_alive" ∷ []

abbrev pub bkmonitorv3_unify_query_modules : List SubModule
bkmonitorv3_unify_query_modules =
    sub_module "unify-query" "bk-unify-query" "unify-query" 10206 "/" "http_alive" ∷ []

-- ModuleRegistry
abbrev pub module_registry : List (String × List SubModule)
module_registry =
    ("paas", paas_modules)
    ∷ ("cmdb", cmdb_modules)
    ∷ ("job", job_modules)
    ∷ ("gse", gse_modules)
    ∷ ("appo", appo_modules)
    ∷ ("appt", appt_modules)
    ∷ ("iam", iam_modules)
    ∷ ("usermgr", usermgr_modules)
    ∷ ("nodeman", nodeman_modules)
    ∷ ("bkmonitorv3-monitor", bkmonitorv3_monitor_modules)
    ∷ ("bkmonitorv3-influxdb-proxy", bkmonitorv3_influxdb_proxy_modules)
    ∷ ("bkmonitorv3-transfer", bkmonitorv3_transfer_modules)
    ∷ ("bkmonitorv3-unify-query", bkmonitorv3_unify_query_modules)
    ∷ []
