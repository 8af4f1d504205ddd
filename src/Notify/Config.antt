-- ===== src/Notify/Config.antt =====
-- inspect/notify/config.go: the notification settings, their defaults and their validation.
use we_term.Prelude.{
  Bool, List, Option, String, [], arith, if◌then◌else◌, is_empty, none, not, some, true, ◌==◌, ◌∷◌,
  ◌≡◌,
}
use we_term.Prelude.Int.{eqb_ℤ, leb_ℤ, ltb_ℤ, pos, ℤ}
use we_term.Prelude.Text.{concat}

pub record EmailConfig : Type 0 where
  pub enabled : Bool
  pub smtp_host : String
  pub smtp_port : ℤ
  pub use_tls : Bool
  pub username : String
  pub password : String
  pub from : String
  pub to : List String

pub record TriggerConfig : Type 0 where
  pub min_interval_minutes : ℤ
  pub send_recovery_mail : Bool

pub record PersistenceConfig : Type 0 where
  pub consecutive_runs : ℤ

pub record NotifyConfig : Type 0 where
  pub email : EmailConfig
  pub trigger : TriggerConfig
  pub persistence : PersistenceConfig
  pub path : String

-- What Load meets at the path: os.Stat, os.ReadFile and json.Unmarshal, in that order.
pub data ConfigFile : Type 0 where
  absent : ConfigFile
  stat_error : String → ConfigFile
  read_error : String → ConfigFile
  parse_error : String → ConfigFile
  parsed : NotifyConfig → ConfigFile

-- (*Config, error): no file is no configuration and no error
pub data Loaded : Type 0 where
  no_config : Loaded
  failed : String → Loaded
  loaded : NotifyConfig → Loaded

-- The defaults that Load fills in.
unfoldable pub fill_defaults : String → NotifyConfig → NotifyConfig
fill_defaults path cfg = record cfg {
  path = path;
  trigger = record cfg.trigger {
    min_interval_minutes =
        if leb_ℤ cfg.trigger.min_interval_minutes (pos 0)
        then pos 120
        else cfg.trigger.min_interval_minutes;
  };
  persistence = record cfg.persistence {
    consecutive_runs =
        if leb_ℤ cfg.persistence.consecutive_runs (pos 0)
        then pos 2
        else cfg.persistence.consecutive_runs;
  };
}

-- Load, at the path that ConfigPath answers
unfoldable pub load_notify : String → ConfigFile → Loaded
unfolding fill_defaults concat
load_notify path absent = no_config
load_notify path (stat_error e) = failed (concat ("stat " ∷ path ∷ ": " ∷ e ∷ []))
load_notify path (read_error e) = failed (concat ("read " ∷ path ∷ ": " ∷ e ∷ []))
load_notify path (parse_error e) = failed (concat ("parse " ∷ path ∷ ": " ∷ e ∷ []))
load_notify path (parsed cfg) = loaded (fill_defaults path cfg)

-- Validate: the message of the first missing piece
unfoldable pub validate_notify : NotifyConfig → Option String
validate_notify c =
    if not c.email.enabled
    then none
    else if c.email.smtp_host == ""
    then some "email.smtp_host 未配置"
    else if eqb_ℤ c.email.smtp_port (pos 0)
    then some "email.smtp_port 未配置"
    else if c.email.from == ""
    then some "email.from 未配置"
    else if is_empty c.email.to
    then some "email.to 未配置"
    else none

-- A loaded configuration has a positive interval and asks for at least one run.
pub load_notify-positive :
    (path : String) (file : ConfigFile) (cfg : NotifyConfig)
    → load_notify path file ≡ loaded cfg
    → (ltb_ℤ (pos 0) cfg.trigger.min_interval_minutes ≡ true)
      × (leb_ℤ (pos 1) cfg.persistence.consecutive_runs ≡ true)
      × (cfg.path ≡ path)
unfolding load_notify
load_notify-positive path absent cfg h = cc
load_notify-positive path (stat_error e) cfg h = cc
load_notify-positive path (read_error e) cfg h = cc
load_notify-positive path (parse_error e) cfg h = cc
load_notify-positive path (parsed c) cfg h = ground arith
