-- ===== src/Observability.antt =====
-- internal/observability/server.go: the diagnostic HTTP servers for metrics and profiling. A handler is
-- the list of its routes; `net/http` is a parameter. Times are in seconds.
use jira_connector.Base.{ℕ, String, Option, none, some, List, [], ◌∷◌, ◌++◌, if◌then◌else◌}
use jira_connector.Base.Text.{is_empty}
use jira_connector.GoError.{GoError, is_error, err_server_closed}
use jira_connector.Metrics.{Metrics}

abbrev pub read_header_timeout : ℕ
read_header_timeout = 5

pub record HttpServer : Type 0 where
  pub name : String
  pub addr : String
  pub routes : List String
  pub header_timeout : ℕ

abbrev pub Server : Type 0
Server = List HttpServer

-- What a goroutine or Shutdown logs as an error, of the error that a call returned.
abbrev pub reported_error : Option GoError → Option GoError
reported_error none = none
reported_error (some e) = if is_error err_server_closed e then none else some e

abbrev pub pprof_mux : List String
pprof_mux =
    "/debug/pprof/" ∷ "/debug/pprof/cmdline" ∷ "/debug/pprof/profile" ∷ "/debug/pprof/symbol"
    ∷ "/debug/pprof/trace" ∷ []

-- `launch` starts the goroutine that listens for a server and serves it.
module _ {W : Type 0} (launch : HttpServer → W → W) where
  -- The server is kept for Shutdown, and its goroutine is started.
  unfoldable pub start : String → String → List String → Server × W → Server × W
  start name addr routes (servers, w) =
      let s : HttpServer = record {
        name = name;
        addr = addr;
        routes = routes;
        header_timeout = read_header_timeout;
      } in
      (servers ++ s ∷ [], launch s w)

  abbrev pub start_metrics : Option Metrics → String → Server × W → Server × W
  start_metrics none addr x = x
  start_metrics (some m) addr x =
      if is_empty addr then x else start "metrics" addr ("/metrics" ∷ []) x

  abbrev pub start_pprof : String → Server × W → Server × W
  start_pprof addr x = if is_empty addr then x else start "pprof" addr pprof_mux x

  unfoldable pub new : Option Metrics → String → String → W → Server × W
  unfolding start
  new mtr metrics_addr pprof_addr w =
      start_pprof pprof_addr (start_metrics mtr metrics_addr ([], w))

abbrev pub log_error : Option GoError → List GoError → List GoError
log_error none es = es
log_error (some e) es = e ∷ es

-- Every server is shut down, whatever the others return; the errors are logged.
unfoldable pub shutdown :
    {W : Type 0} → (HttpServer → W → Option GoError × W) → Server → W → List GoError × W
shutdown stop [] w = ([], w)
shutdown stop (s ∷ servers) w =
    let (e, w') = stop s w in
    let (es, w'') = shutdown stop servers w' in (log_error (reported_error e) es, w'')
