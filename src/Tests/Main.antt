-- ===== src/Tests/Main.antt =====
-- Concrete cases of the theorems about inspect/main.go.
use we_term.Checker.Es.{check_es}
use we_term.Checker.Host.{check_host, check_usage, grade, load_climbs}
use we_term.Checker.Mongo.{check_bk_deps, check_mongo}
use we_term.Checker.RabbitMq.{check_rabbit_mq}
use we_term.Checker.Redis.{check_redis, check_redis_sentinel}
use we_term.Checker.Replication.{check_replication}
use we_term.Checker.Result.{check_each, collect}
use we_term.Config.Env.{
  Env, parse_float_env, parse_int_env, parse_ip_list, parse_positive_float_env,
}
use we_term.Config.Hosts.{build_all_hosts, validate_hosts}
use we_term.Config.Load.{load, load_addresses, load_thresholds}
use we_term.Lock.{acquire, lock_opened}
use we_term.Main.{
  Session, after_load, after_prepare, after_run, after_write, at_end, closed, config_path,
  default_path, dispatch_config, guarded, inspect, main, notify_config, validated, with_lock,
}
use we_term.Main.Agrees.{Tells, main-Tells}
use we_term.Main.Ends.{main-IsIdle}
use we_term.Main.Locking.{main_busy}
use we_term.Notify.Config.{fill_defaults, load_notify, parsed, validate_notify}
use we_term.Notify.Dispatch.{
  Mail, choose_action, dispatch, load_state, missing, perform, prepare, prepare_context,
  send_then_save,
}
use we_term.Notify.Persistence.{apply_persistence}
use we_term.Notify.Trigger.{decide}
use we_term.Output.{
  Reports, Writer, put_html, put_json, whole, write_dir, write_html, write_json, write_reports,
}
use we_term.Prelude.{Bool, Option, eqb, false, if◌then◌else◌, none, refl, some, true, ◌==◌, ◌≡◌}
use we_term.Prelude.Attempt.{done}
use we_term.Prelude.Int.{ℤ}
use we_term.Prelude.Text.{append}
use we_term.Prelude.Words.{is_space, split_on, trim_space}
use we_term.Runner.{cross_check_sentinel_master}
use we_term.Runner.Run.{component_phase, host_checks, run, service_phase}
use we_term.Tests.Data.{eager_config, int_floats, world}
use we_term.Tests.Procmon.{one_lock}
use we_term.Tests.Runs.{probes}

abbrev no_files : Reports
no_files = record { html = none; json = none }

abbrev writer : Writer ℤ
writer = record {
  dir_error = none;
  render = λ report. done "<html>";
  html_put = whole;
  marshal = λ report. done "{}";
  json_put = whole;
  join_path = λ dir name. append dir (append "/" name);
  absolute = λ path. none;
}

-- one host is configured
abbrev one_host : Env
one_host key = if key == "BK_PAAS_IP_COMMA" then some "10.0.0.1" else none

-- a run that finds a host with too high a CPU load; a mail is sent at once
abbrev session : Session ℤ
session = record {
  shows_version = false;
  output_dir = "out";
  env = one_host;
  home = done "/root";
  lock_dir_error = none;
  lock_file = done 5;
  probes = probes (λ k. none);
  notify_file = parsed eager_config;
  now = 500;
  world = world;
  writer = writer;
  html_read = some "<body>fine</body>";
}

-- the same, with no host configured
abbrev hostless : Session ℤ
hostless = record session { env = λ key. none }

hostless_fails : eqb (main hostless missing no_files one_lock none int_floats).0.exit_code 0 ≡ false
unfolding main after_load load load_thresholds parse_float_env parse_int_env
    parse_positive_float_env int_floats validated validate_hosts build_all_hosts load_addresses
    parse_ip_list
hostless_fails = refl

main-IsIdle_example :
    ((main hostless missing no_files one_lock none int_floats).0.state ≡ missing)
    × ((main hostless missing no_files one_lock none int_floats).0.attempted ≡ none)
main-IsIdle_example = main-IsIdle int_floats hostless missing no_files one_lock none hostless_fails

-- another instance holds the lock with the open file 3
main_busy_example :
    ((main session missing no_files one_lock (some 3) int_floats).0.state ≡ missing)
    × ((main session missing no_files one_lock (some 3) int_floats).0.reports ≡ no_files)
    × ((main session missing no_files one_lock (some 3) int_floats).0.attempted ≡ none)
    × ((main session missing no_files one_lock (some 3) int_floats).1 ≡ some 3)
unfolding config_path default_path append
main_busy_example =
    main_busy int_floats session missing no_files one_lock (some 3)
      "/root/.config/weops/config.json" 5 refl refl refl refl

-- the mail that the run attempts
abbrev mail_of : Option Mail → Mail
mail_of none = record { subject = ""; body = ""; html_body = ""; attachment = "" }
mail_of (some mail) = mail

abbrev is_some : Option Mail → Bool
is_some none = false
is_some (some mail) = true

mail_of-some : (m : Option Mail) → is_some m ≡ true → m ≡ some (mail_of m)
mail_of-some none h = absurd (cc h)
mail_of-some (some mail) h = refl

abbrev session_mail : Mail
session_mail = mail_of (main session missing no_files one_lock none int_floats).0.attempted

session_mails :
    (main session missing no_files one_lock none int_floats).0.attempted ≡ some session_mail
unfolding main after_load load load_thresholds parse_float_env parse_int_env
    parse_positive_float_env int_floats validated validate_hosts build_all_hosts load_addresses
    parse_ip_list split_on trim_space is_space guarded acquire lock_opened with_lock at_end inspect
    after_run after_prepare after_write closed dispatch_config dispatch config_path default_path
    append notify_config load_notify fill_defaults run prepare validate_notify perform choose_action
    send_then_save write_reports write_dir write_html put_html write_json put_json prepare_context
    load_state decide apply_persistence component_phase host_checks collect check_host grade
    check_usage load_climbs service_phase check_each check_es check_redis check_redis_sentinel
    cross_check_sentinel_master check_mongo check_rabbit_mq check_bk_deps check_replication
session_mails =
    mail_of-some (main session missing no_files one_lock none int_floats).0.attempted refl

main-Tells_example :
    Tells int_floats session missing no_files
      (main session missing no_files one_lock none int_floats).0
      session_mail
main-Tells_example =
    main-Tells int_floats session missing no_files one_lock none session_mail session_mails
