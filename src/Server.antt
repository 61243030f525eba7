-- ===== src/Server.antt =====
-- cmd/internal/cli/server/server.go: the command `serve`. The flags, `net`, the environment file, the
-- gRPC library and `net/http` are a parameter; a listener is a handle, a number. Logging is left out.
pub mod Startup
pub mod Endpoints
mod Examples
use jira_connector.Base.{ℕ, String, Option, none, some, List, [], ◌∷◌, if◌then◌else◌}
use jira_connector.Base.Int.{ℤ, pos}
use jira_connector.Base.Text.{append, format_int}
use jira_connector.GoError.{GoError, wrap, Result, ok, err, ◌>>=◌, wrapped}
use jira_connector.Config.{AppConfig, Outside, is_enabled, load}
use jira_connector.Database.{Sql, new_connection}
use jira_connector.Jira.Client.{Client}
use jira_connector.Jira.Fetch
use jira_connector.Manager.{new_manager}
use jira_connector.Metrics
use jira_connector.Metrics.{Metrics}
use jira_connector.Observability
use jira_connector.Observability.{HttpServer, shutdown}
use jira_connector.Sync.{Service}

abbrev pub default_host : String
default_host = "0.0.0.0"

abbrev pub default_port : ℤ
default_port = pos 50052

-- What reading each flag gives.
pub record Flags : Type 0 where
  pub host : Result String
  pub port : Result ℤ
  pub config : Result String

-- What the gRPC server serves: the client of Jira, and the service with its registry and metrics.
pub record Grpc : Type 0 where
  pub client : Client
  pub service : Service
  pub interceptors : List String

pub record Server : Type 0 where
  pub grpc : Grpc
  pub lis : ℕ
  pub database : ℕ
  pub obs : Observability.Server

pub record Net (W : Type 0) : Type 0 where
  pub load_env : W → W
  pub listen : String → W → Result ℕ × W
  pub close_listener : ℕ → W → W
  -- The goroutine that listens for a diagnostic server, and the one that waits for a signal.
  pub start_http : HttpServer → W → W
  pub await_signal : W → W
  pub serve : Grpc → ℕ → W → Option GoError × W
  pub graceful_stop : Grpc → W → W
  pub shutdown_http : HttpServer → W → Option GoError × W

-- The level INFO where the text is no level.
abbrev pub build_logger : (String → Option ℤ) → String → ℤ
build_logger unmarshal_level level = elim (unmarshal_level level) [ none ↦ pos 0 | some l ↦ l ]

unfoldable pub load_config : {Rate : Type 0} → Outside Rate → Flags → Result (AppConfig Rate)
load_config o flags =
    wrapped "get config flag" flags.config >>= λ path. wrapped "load config" (load o path)

-- fmt.Sprintf("%s:%d", host, port)
unfoldable pub resolve_listen_addr : Flags → Result String
resolve_listen_addr flags = wrapped "get host flag" flags.host >>= λ host.
    wrapped "get port flag" flags.port >>= λ port. ok (append host (append ":" (format_int port)))

unfoldable pub start_observability :
    {W Rate : Type 0}
    → (HttpServer → W → W)
    → AppConfig Rate
    → Metrics
    → W
    → Observability.Server × W
start_observability launch cfg mtr w =
    Observability.new launch (some mtr) (if is_enabled cfg.metrics then cfg.metrics.addr else "")
      (if is_enabled cfg.pprof then cfg.pprof.addr else "") w

unfoldable pub build_grpc_server :
    {Rate : Type 0} → (String → String) → AppConfig Rate → Metrics → Grpc
build_grpc_server trim cfg mtr = record {
  client = Fetch.new trim cfg.jira;
  service = record { manager = new_manager; mtr = some mtr };
  interceptors = "logging" ∷ "metrics" ∷ [];
}

abbrev pub new_server :
    {Rate : Type 0} → (String → String) → AppConfig Rate → ℕ → ℕ → Observability.Server → Server
new_server trim cfg lis database obs = record {
  grpc = build_grpc_server trim cfg Metrics.new;
  lis = lis;
  database = database;
  obs = obs;
}

module _ {W : Type 0} (sql : Sql W) (net : Net W) where
  open net use {
    load_env, listen, close_listener, start_http, await_signal, serve, graceful_stop, shutdown_http,
  }

  abbrev pub serve_error : Option GoError → Option GoError
  serve_error none = none
  serve_error (some e) = some (wrap "serve" e)

  abbrev pub served : Result Server × W → Option GoError × W
  served (err e, w) = (some e, w)
  served (ok srv, w) = let (e, w') = serve srv.grpc srv.lis w in (serve_error e, w')

  abbrev pub started : Option GoError × W → Option GoError × W
  started (none, w) = (none, w)
  started (some e, w) = (some (wrap "start server" e), w)

  -- Every field of a server that startServer builds is set.
  unfoldable pub close : Server → W → W
  close srv w =
      let w' = (shutdown shutdown_http srv.obs (graceful_stop srv.grpc w)).1 in
      (sql.close_db srv.database w').1

  module _ {Rate : Type 0} (trim : String → String) where
    -- Without a database the listener is closed.
    abbrev pub connected : AppConfig Rate → ℕ → Result ℕ × W → Result Server × W
    connected cfg lis (err e, w) = (err (wrap "init database" e), close_listener lis w)
    connected cfg lis (ok database, w) =
        let (obs, w') = start_observability start_http cfg Metrics.new w in
        (ok (new_server trim cfg lis database obs), await_signal w')

    abbrev pub listening_at : AppConfig Rate → String → Result ℕ × W → Result Server × W
    listening_at cfg addr (err e, w) = (err (wrap (append "listen " addr) e), w)
    listening_at cfg addr (ok lis, w) = connected cfg lis (new_connection sql cfg.db w)

    abbrev pub resolved : AppConfig Rate → Result String → W → Result Server × W
    resolved cfg (err e) w = (err e, w)
    resolved cfg (ok addr) w = listening_at cfg addr (listen addr w)

    -- startServer up to the call of Serve.
    unfoldable pub prepare : Flags → AppConfig Rate → W → Result Server × W
    prepare flags cfg w = resolved cfg (resolve_listen_addr flags) w

    unfoldable pub start_server : Flags → AppConfig Rate → W → Option GoError × W
    unfolding prepare
    start_server flags cfg w = served (prepare flags cfg w)

    abbrev pub loaded : Flags → Result (AppConfig Rate) → W → Option GoError × W
    loaded flags (err e) w = (some (wrap "load config" e), w)
    loaded flags (ok cfg) w = started (start_server flags cfg w)

    -- `outside` is what the configuration reads, after the file .env is in the environment.
    unfoldable pub run : (W → Outside Rate) → Flags → W → Option GoError × W
    unfolding start_server load_config
    run outside flags w = let w' = load_env w in loaded flags (load_config (outside w') flags) w'
