-- ===== src/Config/Examples.antt =====
-- A file that names a Jira URL, and an environment without settings.
use jira_connector.Base.{ℕ, ◌≡◌, String, false, none, refl}
use jira_connector.Base.Int.{pos}
use jira_connector.GoError.{ok}
use jira_connector.Config.{
  AppConfig, Outside, content, load, decoded, apply_defaults, override_from_env, validate,
}
use jira_connector.Config.Precedence.{IsLayered, IsUsable, config_path, load-ok}

-- A configuration file of which only the Jira URL is given.
abbrev file_of : String → AppConfig ℕ
file_of url = record {
  jira = record {
    base_url = url;
    token = "";
    max_results = pos 0;
    min_retry_delay = pos 0;
    max_retry_delay = pos 0;
    rate_limit_per_sec = 0;
  };
  db = record { host = ""; port = pos 0; user = ""; password = ""; db_name = "" };
  metrics = record { enabled = none; addr = "" };
  pprof = record { enabled = none; addr = "" };
  log_level = "";
}

abbrev outside : String → Outside ℕ
outside url = record {
  getenv = λ key. "";
  read_file = λ path. content "yaml";
  unmarshal = λ text. ok (file_of url);
  zero_config = file_of "";
  scan_int = λ s. none;
  not_positive = λ r. false;
  default_rate_limit = 10;
}

abbrev loaded : AppConfig ℕ
unfolding override_from_env apply_defaults
loaded =
    override_from_env (outside "https://jira")
      (apply_defaults (outside "https://jira") (file_of "https://jira"))

load-ok_example :
    (file : AppConfig ℕ) × (decoded
        (outside "https://jira")
        (config_path (outside "https://jira") "")
        (content "yaml")
      ≡ ok file)
    × IsLayered (outside "https://jira") file loaded
    × IsUsable (outside "https://jira") loaded
unfolding load validate override_from_env apply_defaults
load-ok_example = load-ok (outside "https://jira") "" loaded refl refl
