-- ===== src/App/Examples.antt =====
-- A job that is seen running once and completed then, and a command that is interrupted.
use jira_connector.Base.{◌≡◌, some, none, [], ◌∷◌, ◌++◌, refl, inl}
use jira_connector.Manager.{JobSnapshot}
use jira_connector.App.{poll, wait_for_sync}
use jira_connector.App.Waiting.{wait_for_sync-ends, verdict}
use jira_connector.Base.{ℕ, false}
use jira_connector.Base.Int.{pos}
use jira_connector.GoError.{ok}
use jira_connector.Config.{AppConfig, Outside, content}
use jira_connector.Database.Examples.{
  Handles, is_open, nothing_open, local, sql_with, sql_with-HasHandles,
}
use jira_connector.App.Command.{App, Selected, interrupted, RunFlags, run_command}
use jira_connector.App.Release.{Releases, run_command-Releases}

abbrev snap_at : ℕ → JobSnapshot
snap_at state = record {
  id = "u1";
  project_key = "AB";
  state = state;
  processed = 3;
  total = 3;
  err_msg = "";
  started_at = 1;
  finished_at = 2;
}

wait_for_sync-ends_example :
    wait_for_sync "u1" ((poll (some (snap_at 1)) ∷ []) ++ poll (some (snap_at 2)) ∷ poll none ∷ [])
    ≡ some (verdict (snap_at 2))
wait_for_sync-ends_example =
    wait_for_sync-ends "u1" (poll (some (snap_at 1)) ∷ []) (poll none ∷ []) (snap_at 2) (refl, tt)
      (inl refl)

abbrev cfg : AppConfig ℕ
cfg = record {
  jira = record {
    base_url = "https://jira";
    token = "";
    max_results = pos 50;
    min_retry_delay = pos 1;
    max_retry_delay = pos 9;
    rate_limit_per_sec = 5;
  };
  db = local;
  metrics = record { enabled = none; addr = "" };
  pprof = record { enabled = none; addr = "" };
  log_level = "info";
}

abbrev outside : Outside ℕ
outside = record {
  getenv = λ key. "";
  read_file = λ path. content "yaml";
  unmarshal = λ text. ok cfg;
  zero_config = cfg;
  scan_int = λ s. none;
  not_positive = λ r. false;
  default_rate_limit = 10;
}

abbrev flags : RunFlags
flags = record { config = ok ""; project = ok "AB" }

abbrev interrupt : App → Handles → Selected × Handles
interrupt a w = (interrupted, w)

run_command-Releases_example :
    Releases is_open nothing_open
      (run_command (sql_with none) interrupt (λ s. s) outside flags nothing_open)
run_command-Releases_example =
    run_command-Releases (sql_with none) is_open (sql_with-HasHandles none) interrupt
      (λ a w i. refl) (λ a w. (none, refl)) (λ s. s) outside flags nothing_open
