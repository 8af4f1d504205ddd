-- ===== src/Tests/Settings.antt =====
-- Concrete cases of the theorems about inspect/config.
use we_term.Config.Env.{
  Env, IsItem, env_or_default, parse_bool_env, parse_float_env, parse_int_env,
  parse_positive_float_env, parse_stalled_blacklist,
}
use we_term.Config.Hosts.{build_all_hosts}
use we_term.Config.Load.{
  load, load_addresses, load_credentials, load_endpoints, load_ports, load_thresholds,
}
use we_term.Config.Load.Hosts.{load_hosts}
use we_term.Config.Load.Readable.{load_succeeds, readable, reads_int}
use we_term.Config.Settings.{Config}
use we_term.Prelude.{All, String, false, if◌then◌else◌, none, refl, some, true, ◌&&◌, ◌==◌, ◌≡◌}
use we_term.Prelude.Attempt.{done, is_done}
use we_term.Prelude.Int.{pos, ℤ}
use we_term.Prelude.Sorting.{Distinct}
use we_term.Tests.Data.{int_floats, limits}

-- one host for paas, with spaces around it, and one for MySQL
abbrev env_of : String → Env
env_of cpu key =
    if key == "BK_PAAS_IP_COMMA"
    then some " 10.0.0.1,,10.0.0.2 "
    else if key == "BK_MYSQL_IP_COMMA"
    then some "10.0.0.2"
    else if key == "INSPECT_CPU_THRESHOLD"
    then some cpu
    else none

load_succeeds_example : is_done (load {F = ℤ} (env_of "ninety") "out") ≡ (
    readable int_floats (env_of "ninety")
    && (reads_int (env_of "ninety") "INSPECT_SSH_PORT"
        && (reads_int (env_of "ninety") "INSPECT_RABBITMQ_API_TIMEOUT_SEC" && true)))
load_succeeds_example = load_succeeds int_floats (env_of "ninety") "out"

-- an environment that sets nothing but the list of paas
abbrev small_env : Env
small_env key = if key == "BK_PAAS_IP_COMMA" then some "10.0.0.1" else none

-- what Load makes of it
abbrev pub small_config : Config ℤ
small_config = record {
  addresses = load_addresses small_env;
  ports = load_ports small_env;
  bk_monitor_v3 = load_endpoints small_env;
  all_hosts = build_all_hosts (load_addresses small_env);
  creds = load_credentials small_env;
  thresholds = limits;
  ssh = record {
    ssh_user = env_or_default small_env "INSPECT_SSH_USER" "root";
    ssh_port = pos 22;
    ssh_key_path = "";
    ssh_use_sudo = parse_bool_env small_env "INSPECT_SSH_USE_SUDO" false;
    ssh_timeout = pos 30;
  };
  rabbit_mq_api_timeout_sec = pos 60;
  output_dir = "out";
  check_mount_path = "";
  disk_include_nfs = parse_bool_env small_env "INSPECT_DISK_INCLUDE_NFS" false;
}

small_loaded : load small_env "out" ≡ done small_config
unfolding load load_thresholds parse_float_env parse_int_env parse_positive_float_env
    parse_stalled_blacklist int_floats
small_loaded = refl

load_hosts_example : Distinct small_config.all_hosts × All IsItem small_config.all_hosts
load_hosts_example = load_hosts int_floats small_env "out" small_config small_loaded
