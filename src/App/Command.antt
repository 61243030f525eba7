-- ===== src/App/Command.antt =====
-- cmd/internal/cli/run.go and cmd/internal/app/app.go: the command `run`, from its flags to its exit.
use jira_connector.Base.{ℕ, String, Option, none, some, List, if◌then◌else◌}
use jira_connector.Base.Text.{is_empty}
use jira_connector.GoError.{
  GoError, wrap, join, sentinel, err_init_application, err_no_project_key, Result, ok, err, ◌>>=◌,
  wrapped,
}
use jira_connector.App.{Event, run}
use jira_connector.Config.{AppConfig, Outside, load}
use jira_connector.Database.{Sql, new_connection}
use jira_connector.Jira.Client.{Client}
use jira_connector.Jira.Fetch
use jira_connector.Manager.{new_manager}
use jira_connector.Sync.{Service, SyncResult}

abbrev pub default_config_path : String
default_config_path = "config/release.yaml"

-- What reading each flag gives.
pub record RunFlags : Type 0 where
  pub config : Result String
  pub project : Result String

-- The registry is that of the syncer.
pub record App : Type 0 where
  pub jira_client : Client
  pub syncer : Service
  pub database : ℕ
  pub project_key : String

-- What the `select` of the command takes: the end of its context, or the error that the sync sends,
-- from what SyncProject returned and what its polls saw.
pub data Selected : Type 0 where
  interrupted : Selected
  finished : Result SyncResult → List Event → Selected

-- The configuration and the project key of the flags.
unfoldable pub read_flags :
    {Rate : Type 0} → Outside Rate → RunFlags → Result (AppConfig Rate × String)
read_flags o flags = wrapped "get config flag" flags.config >>= λ path.
    wrapped "load config" (load o path) >>= λ cfg.
    wrapped "failed to get project flag" flags.project >>= λ key.
    if is_empty key then err (sentinel err_no_project_key) else ok (cfg, key)

module _ {Rate W : Type 0} (sql : Sql W) (trim : String → String) where
  abbrev pub built : AppConfig Rate → String → Result ℕ × W → Result App × W
  built cfg key (err e, w) = (err (wrap "init database" e), w)
  built cfg key (ok database, w) = (
    ok (record {
      jira_client = Fetch.new trim cfg.jira;
      syncer = record { manager = new_manager; mtr = none };
      database = database;
      project_key = key;
    }),
    w,
  )

  -- New of the application.
  unfoldable pub new : AppConfig Rate → String → W → Result App × W
  new cfg key w = built cfg key (new_connection sql cfg.db w)

abbrev pub close_error : {W : Type 0} → Option GoError × W → Option GoError × W
close_error (none, w) = (none, w)
close_error (some e, w) = (some (wrap "close database" e), w)

-- Close of the application, whose database is set.
unfoldable pub close : {W : Type 0} → Sql W → App → W → Option GoError × W
close sql a w = close_error (sql.close_db a.database w)

-- `none` here is a wait without end: no poll has decided, and nothing interrupts it.
abbrev pub verdict : Selected → Option (Option GoError)
verdict interrupted = some none
verdict (finished result events) = run result events

abbrev pub exit_with : {W : Type 0} → Option (Option GoError) → W → Option (Option GoError × W)
exit_with none w = none
exit_with (some e) w = some (e, w)

module _ {W : Type 0} (sql : Sql W) (connector : App → W → Selected × W) where
  -- The deferred Close runs whatever was selected, and its error is dropped.
  abbrev pub selected : App → Selected × W → Option (Option GoError × W)
  selected a (s, w) = exit_with (verdict s) (close sql a w).1

  abbrev pub launched : Result App × W → Option (Option GoError × W)
  launched (err e, w) = some (some (join (sentinel err_init_application) e), w)
  launched (ok a, w) = selected a (connector a w)

  module _ {Rate : Type 0} (trim : String → String) where
    abbrev pub configured : Result (AppConfig Rate × String) → W → Option (Option GoError × W)
    configured (err e) w = some (some e, w)
    configured (ok (cfg, key)) w = launched (new sql trim cfg key w)

    unfoldable pub run_command : Outside Rate → RunFlags → W → Option (Option GoError × W)
    unfolding read_flags close
    run_command o flags w = configured (read_flags o flags) w
