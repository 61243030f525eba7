-- ===== src/Config.antt =====
-- internal/config/config.go: the configuration from defaults, a YAML file and the environment.
-- The float64 `RateLimitPerSec` has an abstract type. What the file system, the YAML decoder, the
-- environment and `fmt.Sscanf(s, "%d")` give is a parameter.
pub mod Precedence
mod Examples
use jira_connector.Base.{
  ℕ, String, Bool, true, false, Option, none, some, List, [], ◌∷◌, ◌++◌, not, if◌then◌else◌,
}
use jira_connector.Base.Int.{ℤ, pos, leb_ℤ, eqb_ℤ}
use jira_connector.Base.Text.{append, is_empty}
use jira_connector.GoError.{
  GoError, sentinel, err_jira_base_url_required, wrap, errors_join, Result, ok, err, ◌>>=◌, wrapped,
}

abbrev pub default_max_results : ℤ
default_max_results = pos 50

abbrev pub default_min_retry : ℤ
default_min_retry = pos 1000

abbrev pub default_max_retry : ℤ
default_max_retry = pos 60000

abbrev pub default_config_path : String
default_config_path = "config/dev.yaml"

abbrev pub default_log_level : String
default_log_level = "info"

abbrev pub default_db_host : String
default_db_host = "localhost"

abbrev pub default_db_port : ℤ
default_db_port = pos 5432

abbrev pub default_db_user : String
default_db_user = "postgres"

abbrev pub default_db_password : String
default_db_password = "password"

abbrev pub default_db_name : String
default_db_name = "jira_connector"

abbrev pub default_metrics_addr : String
default_metrics_addr = ":9090"

abbrev pub default_pprof_addr : String
default_pprof_addr = ":6060"

pub record JiraConfig (Rate : Type 0) : Type 0 where
  pub base_url : String
  pub token : String
  pub max_results : ℤ
  pub min_retry_delay : ℤ
  pub max_retry_delay : ℤ
  pub rate_limit_per_sec : Rate

pub record DbConfig : Type 0 where
  pub host : String
  pub port : ℤ
  pub user : String
  pub password : String
  pub db_name : String

pub record ObsEndpoint : Type 0 where
  pub enabled : Option Bool
  pub addr : String

abbrev or_true : Option Bool → Bool
or_true none = true
or_true (some b) = b

unfoldable pub is_enabled : ObsEndpoint → Bool
is_enabled e = or_true e.enabled

-- `log_level` is App.LogLevel.
pub record AppConfig (Rate : Type 0) : Type 0 where
  pub jira : JiraConfig Rate
  pub db : DbConfig
  pub metrics : ObsEndpoint
  pub pprof : ObsEndpoint
  pub log_level : String

-- `if x == "" { x = d }`
abbrev pub or_default : String → String → String
or_default x d = if is_empty x then d else x

-- `if x <= 0 { x = d }`
abbrev pub or_positive : ℤ → ℤ → ℤ
or_positive x d = if leb_ℤ x (pos 0) then d else x

-- What the program reads from outside. `not_positive r` is `r <= 0`.
pub data FileRead : Type 0 where
  content : String → FileRead
  missing : FileRead
  unreadable : GoError → FileRead

pub record Outside (Rate : Type 0) : Type 0 where
  pub getenv : String → String
  pub read_file : String → FileRead
  pub unmarshal : String → Result (AppConfig Rate)
  pub zero_config : AppConfig Rate
  pub scan_int : String → Option ℤ
  pub not_positive : Rate → Bool
  pub default_rate_limit : Rate

module _ {Rate : Type 0} (o : Outside Rate) where
  open o use {getenv, read_file, unmarshal, zero_config, scan_int, not_positive, default_rate_limit}

  unfoldable pub apply_jira_defaults : JiraConfig Rate → JiraConfig Rate
  apply_jira_defaults cfg = record cfg {
    max_results = or_positive cfg.max_results default_max_results;
    min_retry_delay = or_positive cfg.min_retry_delay default_min_retry;
    max_retry_delay = or_positive cfg.max_retry_delay default_max_retry;
    rate_limit_per_sec =
        if not_positive cfg.rate_limit_per_sec then default_rate_limit else cfg.rate_limit_per_sec;
  }

  unfoldable pub apply_db_defaults : DbConfig → DbConfig
  apply_db_defaults cfg = record {
    host = or_default cfg.host default_db_host;
    port = if eqb_ℤ cfg.port (pos 0) then default_db_port else cfg.port;
    user = or_default cfg.user default_db_user;
    password = or_default cfg.password default_db_password;
    db_name = or_default cfg.db_name default_db_name;
  }

  unfoldable pub apply_defaults : AppConfig Rate → AppConfig Rate
  unfolding apply_jira_defaults apply_db_defaults
  apply_defaults cfg = record {
    jira = apply_jira_defaults cfg.jira;
    db = apply_db_defaults cfg.db;
    metrics = record {
      enabled = cfg.metrics.enabled;
      addr = or_default cfg.metrics.addr default_metrics_addr;
    };
    pprof = record {
      enabled = cfg.pprof.enabled;
      addr = or_default cfg.pprof.addr default_pprof_addr;
    };
    log_level = or_default cfg.log_level default_log_level;
  }

  -- `if v := os.Getenv(key); v != "" { x = v }`
  abbrev pub override : String → String → String
  override key x = or_default (getenv key) x

  unfoldable pub parse_int : String → ℤ → ℤ
  parse_int s fallback = elim (scan_int s) [ none ↦ fallback | some n ↦ n ]

  unfoldable pub override_obs_from_env : AppConfig Rate → AppConfig Rate
  override_obs_from_env cfg = record cfg {
    metrics = record {
      enabled = cfg.metrics.enabled;
      addr = override "METRICS_ADDR" cfg.metrics.addr;
    };
    pprof = record { enabled = cfg.pprof.enabled; addr = override "PPROF_ADDR" cfg.pprof.addr };
  }

  unfoldable pub override_from_env : AppConfig Rate → AppConfig Rate
  unfolding parse_int override_obs_from_env
  override_from_env cfg = override_obs_from_env (record cfg {
    jira = record {
      base_url = override "JIRA_BASE_URL" cfg.jira.base_url;
      token = override "JIRA_TOKEN" cfg.jira.token;
      max_results = cfg.jira.max_results;
      min_retry_delay = cfg.jira.min_retry_delay;
      max_retry_delay = cfg.jira.max_retry_delay;
      rate_limit_per_sec = cfg.jira.rate_limit_per_sec;
    };
    db = record {
      host = override "DB_HOST" cfg.db.host;
      port =
          if is_empty (getenv "DB_PORT")
          then cfg.db.port
          else parse_int (getenv "DB_PORT") default_db_port;
      user = override "DB_USER" cfg.db.user;
      password = override "DB_PASSWORD" cfg.db.password;
      db_name = override "DB_NAME" cfg.db.db_name;
    };
    log_level = override "LOG_LEVEL" cfg.log_level;
  })

  unfoldable pub validate : AppConfig Rate → Option GoError
  validate cfg =
      errors_join
        (if is_empty cfg.jira.base_url then sentinel err_jira_base_url_required ∷ [] else [])

  unfoldable pub env_or : String → String → String
  env_or key fallback = override key fallback

  -- A missing file is no error: the configuration is then the zero value.
  abbrev pub decoded : String → FileRead → Result (AppConfig Rate)
  decoded path (content text) = wrapped "unmarshal config" (unmarshal text)
  decoded path missing = ok zero_config
  decoded path (unreadable e) = err (wrap (append "read config \"" (append path "\"")) e)

  abbrev pub checked : AppConfig Rate → Option GoError → Result (AppConfig Rate)
  checked cfg none = ok cfg
  checked cfg (some e) = err (wrap "validate config" e)

  abbrev pub completed : AppConfig Rate → Result (AppConfig Rate)
  completed cfg = let cfg' = override_from_env (apply_defaults cfg) in checked cfg' (validate cfg')

  unfoldable pub load : String → Result (AppConfig Rate)
  unfolding env_or
  load path =
      let path' = if is_empty path then env_or "CONNECTOR_CONFIG" default_config_path else path in
      decoded path' (read_file path') >>= completed
