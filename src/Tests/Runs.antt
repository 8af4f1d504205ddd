-- ===== src/Tests/Runs.antt =====
-- Concrete cases of the theorems about inspect/runner.
use we_term.Config.Env.{Env}
use we_term.Config.Load.{load_addresses, load_credentials, load_endpoints, load_ports}
use we_term.Config.Settings.{Config}
use we_term.Notify.Alerts.{extract_alerts}
use we_term.Notify.Config.{validate_notify}
use we_term.Notify.Demote.Hosts.{shown_on_hosts}
use we_term.Notify.Dispatch.{load_state, missing, prepare, prepare_context, prepare_report}
use we_term.Notify.Item.{AlertItem, cold_state}
use we_term.Prelude.{
  All, List, Option, String, [], eqb, false, if◌then◌else◌, keep, length, none, refl, some, ℕ, ◌++◌,
  ◌==◌, ◌∷◌, ◌≡◌,
}
use we_term.Prelude.Attempt.{done}
use we_term.Prelude.Int.{pos, ℤ}
use we_term.Runner.{Probes}
use we_term.Runner.Attribution.{run_cpu_alerts}
use we_term.Runner.Report.{first_error, outcome_of, phases_begun, run-prepare, run_exact}
use we_term.Runner.Run.{full_report, run}
use we_term.Tests.Data.{host_at, int_floats, limits, mail_config}

abbrev no_env : Env
no_env key = none

abbrev config : Config ℤ
config = record {
  addresses = load_addresses no_env;
  ports = load_ports no_env;
  bk_monitor_v3 = load_endpoints no_env;
  all_hosts = "10.0.0.1" ∷ "10.0.0.2" ∷ [];
  creds = load_credentials no_env;
  thresholds = limits;
  ssh = record {
    ssh_user = "root";
    ssh_port = pos 22;
    ssh_key_path = "";
    ssh_use_sudo = false;
    ssh_timeout = pos 30;
  };
  rabbit_mq_api_timeout_sec = pos 60;
  output_dir = "out";
  check_mount_path = "";
  disk_include_nfs = false;
}

-- two hosts, of which the first has too high a CPU load, and nothing else; `cancelled` is what the
-- checks of the context answer
abbrev pub probes : (ℕ → Option String) → Probes ℤ
probes cancelled = record {
  timestamp = "2026-01-01 00:00:00";
  ssh_error = none;
  ctx_err = cancelled;
  all_hosts = λ ips path nfs. host_at "10.0.0.1" (pos 99) ∷ host_at "10.0.0.2" (pos 5) ∷ [];
  all_services = λ cfg. [];
  es = λ cfg. [];
  mysql = λ cfg. [];
  redis_standalone = λ cfg. [];
  redis_sentinel = λ cfg. none;
  mongo = λ cfg. [];
  rabbit_mq = λ cfg. none;
  replication = λ cfg. none;
  bk_monitor_deps = λ cfg. none;
}

-- a run that is cancelled before the third phase
abbrev cut_short : ℕ → Option String
cut_short k = if eqb k 3 then some "context canceled" else none

run_exact_example :
    ((run (probes cut_short) config).result
      ≡ outcome_of
          (first_error none none none (some "context canceled"))
          (full_report (probes cut_short) config))
    × (length (run (probes cut_short) config).progress
        ≡ phases_begun none none none (some "context canceled"))
run_exact_example = run_exact int_floats (probes cut_short) config

abbrev pub whole : Probes ℤ
whole = probes (λ k. none)

whole_ran : (run whole config).result ≡ done (full_report whole config)
unfolding run
whole_ran = refl

-- a run that collects the first of these hosts only
abbrev lone : Probes ℤ
lone = record whole { all_hosts = λ ips path nfs. host_at "10.0.0.1" (pos 99) ∷ [] }

lone_ran : (run lone config).result ≡ done (full_report lone config)
unfolding run
lone_ran = refl

prepared_run : prepare (some mail_config) missing 500 (full_report lone config) ≡ (
  some (prepare_context mail_config cold_state 500 (full_report lone config)),
  prepare_report mail_config cold_state 500 (full_report lone config),
)
unfolding prepare validate_notify load_state
prepared_run = refl

run-prepare_example :
    ((others : List AlertItem) × ((prepare_context mail_config cold_state 500
          (full_report lone config)).filtered
        ≡ shown_on_hosts (prepare_report mail_config cold_state 500 (full_report lone config)).hosts
          ++ others))
    × ((prepare_report mail_config cold_state 500 (full_report lone config)).summary.warn_count
        ≡ length (prepare_context mail_config cold_state 500 (full_report lone config)).filtered)
run-prepare_example =
    run-prepare int_floats lone config (full_report lone config)
      (prepare_report mail_config cold_state 500 (full_report lone config)) mail_config missing 500
      (prepare_context mail_config cold_state 500 (full_report lone config))
      (host_at "10.0.0.1" (pos 99)) refl lone_ran prepared_run

run_cpu_alerts_example :
    All
      (λ a. a.host ≡ "10.0.0.2")
      (keep (λ a. a.field == "cpu_usage") (extract_alerts (some (full_report whole config))))
run_cpu_alerts_example =
    run_cpu_alerts int_floats whole config (full_report whole config)
      (host_at "10.0.0.1" (pos 99) ∷ []) (host_at "10.0.0.2" (pos 5)) whole_ran refl
