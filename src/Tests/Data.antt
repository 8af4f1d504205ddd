-- ===== src/Tests/Data.antt =====
-- Inputs for the theorems. The numbers are whole ones, in place of Go's float64.
use we_term.Config.Thresholds.{Thresholds}
use we_term.Model.Float.{FloatOps}
use we_term.Model.Host.{HostMetrics}
use we_term.Model.Report.{InspectReport}
use we_term.Model.Status.{CheckResult, ok, warn}
use we_term.Notify.Config.{NotifyConfig}
use we_term.Notify.Dispatch.{World}
use we_term.Notify.Item.{AlertItem, PendingItem}
use we_term.Prelude.{
  ◌/◌, Bool, List, String, [], false, if◌then◌else◌, none, some, true, ℕ, ◌+◌, ◌==◌, ◌∷◌,
}
use we_term.Prelude.Int.{pos_part, ◌+ℤ◌, ◌*ℤ◌, negsuc, eqb_ℤ, leb_ℤ, ltb_ℤ, pos, ℤ}
use we_term.Prelude.Numerals.{atoi}
use we_term.Prelude.Text.{itoa}

-- what strconv.ParseFloat answers for a whole number
unfoldable read_int : String → ℤ × Bool
unfolding atoi
read_int s = elim (atoi s) [ none ↦ (pos 0, false) | some n ↦ (n, true) ]

instance unfoldable pub int_floats : FloatOps ℤ
unfolding read_int ◌+ℤ◌ ◌*ℤ◌
int_floats = record {
  zero_float = pos 0;
  of_int = λ n. n;
  less = ltb_ℤ;
  less_eq = leb_ℤ;
  equal = eqb_ℤ;
  plus = ◌+ℤ◌;
  minus = λ a b. a +ℤ (negsuc 0 *ℤ b);
  times = ◌*ℤ◌;
  over = λ a b. pos (pos_part a / pos_part b);
  truncate = λ a. a;
  show_fixed = λ n z. itoa z;
  show_short = λ z. itoa z;
  parse_float = λ s. if s == "0.01" then (pos 1, true) else read_int s;
}

abbrev pub mail_config : NotifyConfig
mail_config = record {
  email = record {
    enabled = true;
    smtp_host = "smtp.example";
    smtp_port = pos 25;
    use_tls = false;
    username = "";
    password = "";
    from = "inspect@example";
    to = "ops@example" ∷ [];
  };
  trigger = record { min_interval_minutes = pos 120; send_recovery_mail = true };
  persistence = record { consecutive_runs = pos 2 };
  path = "/etc/notify.json";
}

-- the same, where one run is enough
abbrev pub eager_config : NotifyConfig
eager_config = record mail_config { persistence = record { consecutive_runs = pos 1 } }

-- the same, with the mails off
abbrev pub silent_config : NotifyConfig
silent_config = record mail_config { email = record mail_config.email { enabled = false } }

abbrev pub world : World
world = record { digest = λ s. s; deliver = λ cfg mail. true; save_fails = none }

-- a mail server that refuses every mail
abbrev pub no_mail_world : World
no_mail_world = record world { deliver = λ cfg mail. false }

abbrev pub down_check : CheckResult
down_check = record { field = "mysql.down"; value = "1"; status = warn; threshold = "0" }

abbrev pub fine_check : CheckResult
fine_check = record { field = "es.green"; value = "green"; status = ok; threshold = "" }

abbrev pub down_alert : AlertItem
down_alert = record { host = ""; field = "mysql.down"; value = "1"; threshold = "0" }

abbrev pub blank_report : List CheckResult → ℕ → ℕ → InspectReport ℤ
blank_report checks oks warns = record {
  timestamp = "2026-01-01 00:00:00";
  hosts = [];
  services = [];
  es = [];
  mysql = [];
  redis_standalone = [];
  redis_sentinel = none;
  mongo_db = [];
  rabbit_mq = none;
  replication = none;
  bk_monitor_v3 = none;
  summary = record { total = oks + warns; ok_count = oks; warn_count = warns; unknown_count = 0 };
  all_checks = checks;
}

abbrev pub warned_report : InspectReport ℤ
warned_report = blank_report (down_check ∷ fine_check ∷ []) 1 1

abbrev pub calm_report : InspectReport ℤ
calm_report = blank_report (fine_check ∷ []) 1 0

-- the alert of `warned_report`, seen in one run
abbrev pub seen_once : List (String × PendingItem)
seen_once = ("|mysql.down", record { count = pos 1; first_seen = 100 }) ∷ []

abbrev pub flagged : List (String × Bool)
flagged = ("|mysql.down", true) ∷ []

abbrev pub limits : Thresholds ℤ
limits = record {
  cpu_usage = pos 95;
  disk_usage = pos 95;
  inode_usage = pos 95;
  mem_usage = pos 95;
  max_open_files = pos 65536;
  mysql_repl_lag_sec = pos 60;
  redis_repl_io_sec = pos 10;
  rabbitmq_queue_backlog = pos 10000;
  stalled_ack_rate_max = pos 1;
  stalled_publish_rate_min = pos 0;
  stalled_vhost_blacklist = "bk_bknodeman" ∷ [];
  es_heap_percent = pos 85;
  es_ram_percent = pos 95;
  es_unassigned_shards = pos 0;
  redis_celery_queue = pos 1000;
  redis_monitor_queue = pos 10000;
  service_containers_exited = pos 0;
}

-- a host at an address with a CPU load in percent
abbrev pub host_at : String → ℤ → HostMetrics ℤ
host_at ip cpu = record {
  ip = ip;
  cpu_usage = cpu;
  mem_usage = pos 40;
  load_avg1 = pos 3;
  load_avg5 = pos 2;
  load_avg15 = pos 1;
  swap_usage = pos 0;
  disk_usage =
      record { mount_point = "/"; fs_type = "xfs"; usage = "97%"; usage_float = pos 97 } ∷ [];
  inode_usage = [];
  max_open_files = pos 102400;
  process_total = pos 200;
  ntpd = "N/A";
  chronyd = "active";
  selinux = "Disabled";
  firewalld = "inactive";
  proxy = pos 0;
  iptables = "N/A";
  network = record { close_wait = pos 0; established = pos 9; listen = pos 4; time_wait = pos 1 };
  run_days = pos 12;
  version = "7";
  kernel = "3.10";
  memory = pos 64;
  swap = pos 0;
  core = pos 8;
  manufacturer = "";
  product = "";
  serial = "";
  error = "";
}
