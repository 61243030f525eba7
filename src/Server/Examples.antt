-- ===== src/Server/Examples.antt =====
-- A start on an empty machine, with the metrics enabled and the profiling disabled.
use jira_connector.Base.{
  ◌⊎◌, ◌||◌, ◌==◌, ℕ, suc, ◌≡◌, ◌++◌, refl, String, Bool, true, false, none, some, List, [], ◌∷◌,
  arith,
}
use jira_connector.Base.Int.{pos}
use jira_connector.GoError.{GoError, ok, sentinel, err_server_closed}
use jira_connector.Config.{
  AppConfig, Outside, content, load, apply_defaults, override_from_env, validate, is_enabled,
}
use jira_connector.Database.{Sql, new_connection, run_migrations}
use jira_connector.Database.Handles.{HasHandles, SameOpen}
use jira_connector.Database.Examples.{Handles, is_open, marked, nothing_open, local}
use jira_connector.Metrics
use jira_connector.Observability.{HttpServer, start, new, shutdown}
use jira_connector.Server.{
  Server, Flags, Net, new_server, prepare, start_server, serve_error, close, start_observability,
  resolve_listen_addr,
}
use jira_connector.Server.Startup.{HasListeners, start_server-releases, close-prepare}
use jira_connector.Server.Endpoints.{enabled_endpoints}

record Machine : Type 0 where
  bases : Handles
  ports : Handles
  begun : List String
  shut : List String

abbrev add : Handles → Handles
add h = record { next = suc h.next; closed = marked h.next false h.closed }

abbrev remove : ℕ → Handles → Handles
remove i h = record h { closed = marked i true h.closed }

abbrev open_bases : Machine → ℕ → Bool
open_bases w = is_open w.bases

abbrev open_ports : Machine → ℕ → Bool
open_ports w = is_open w.ports

abbrev answering : Sql Machine
answering = record {
  open_db = λ d w. (ok w.bases.next, record w { bases = add w.bases });
  limit_db = λ h a b c w. w;
  ping_db = λ h w. (none, w);
  close_db = λ h w. (none, record w { bases = remove h w.bases });
  new_source = λ w. (ok 0, w);
  new_migrator = λ s d w. (ok 0, w);
  up = λ m w. (none, w);
  close_migrator = λ m w. w;
}

abbrev net : Net Machine
net = record {
  load_env = λ w. w;
  listen = λ addr w. (ok w.ports.next, record w { ports = add w.ports });
  close_listener = λ h w. record w { ports = remove h w.ports };
  start_http = λ s w. record w { begun = w.begun ++ s.addr ∷ [] };
  await_signal = λ w. w;
  serve = λ g lis w. (none, w);
  graceful_stop = λ g w. w;
  shutdown_http =
      λ s w. (some (sentinel err_server_closed), record w { shut = w.shut ++ s.addr ∷ [] });
}

answering-HasHandles : HasHandles answering open_bases
answering-HasHandles = record {
  opens = λ d w i. ground arith;
  opens_new = λ d w h e. ground arith;
  closes = λ h w i. ground arith;
  others = record {
    limits = λ h a b c w i. refl;
    pings = λ h w i. refl;
    sources = λ w i. refl;
    migrators = λ s d w i. refl;
    ups = λ m w i. refl;
    leaves = λ m w i. refl;
  };
}

net-HasListeners : HasListeners answering net open_bases open_ports
net-HasListeners = record {
  listens = λ a w i. ground arith;
  listens_new = λ a w n e. ground arith;
  listens_only = λ a w i. refl;
  closes = λ n w i. ground arith;
  closes_only = λ n w i. refl;
  starts = λ s w i. refl;
  starts_only = λ s w i. refl;
  awaits = λ w i. refl;
  awaits_only = λ w i. refl;
  stops_only = λ g w i. refl;
  shuts_only = λ s w i. refl;
  opens_db = λ d w i. refl;
  closes_db = λ h w i. refl;
  others = record {
    limits = λ h a b c w i. refl;
    pings = λ h w i. refl;
    sources = λ w i. refl;
    migrators = λ s d w i. refl;
    ups = λ m w i. refl;
    leaves = λ m w i. refl;
  };
}

abbrev cfg : AppConfig ℕ
cfg = record {
  jira = record {
    base_url = "https://jira";
    token = "";
    max_results = pos 50;
    min_retry_delay = pos 1;
    max_retry_delay = pos 9;
    rate_limit_per_sec = 5;
  };
  db = local;
  metrics = record { enabled = none; addr = ":9090" };
  pprof = record { enabled = some false; addr = ":6060" };
  log_level = "info";
}

abbrev outside : Outside ℕ
outside = record {
  getenv = λ key. "";
  read_file = λ path. content "yaml";
  unmarshal = λ text. ok cfg;
  zero_config = cfg;
  scan_int = λ s. none;
  not_positive = λ r. false;
  default_rate_limit = 10;
}

abbrev flags : Flags
flags = record { host = ok "0.0.0.0"; port = ok (pos 50052); config = ok "" }

abbrev empty : Machine
empty = record { bases = nothing_open; ports = nothing_open; begun = []; shut = [] }

abbrev metrics_server : HttpServer
metrics_server = record {
  name = "metrics";
  addr = ":9090";
  routes = "/metrics" ∷ [];
  header_timeout = 5;
}

abbrev ready : Machine
ready = record {
  bases = add nothing_open;
  ports = add nothing_open;
  begun = ":9090" ∷ [];
  shut = [];
}

abbrev server : Server
server = new_server (λ s. s) cfg 0 0 (metrics_server ∷ [])

start_server-releases_example :
    ((e : GoError) × (w' : Machine) × (start_server answering net (λ s. s) flags cfg empty
        ≡ (some e, w'))
      × SameOpen open_bases empty w'
      × SameOpen open_ports empty w')
    ⊎ ((srv : Server) × (w' : Machine) × (start_server answering net (λ s. s) flags cfg empty ≡ (
      serve_error answering net (net.serve srv.grpc srv.lis w').0,
      (net.serve srv.grpc srv.lis w').1,
    ))
        × ((i : ℕ) → open_bases w' i ≡ (i == srv.database || open_bases empty i))
        × ((i : ℕ) → open_ports w' i ≡ (i == srv.lis || open_ports empty i)))
start_server-releases_example =
    start_server-releases answering net open_bases open_ports net-HasListeners answering-HasHandles
      (λ s. s) cfg flags empty

close-prepare_example : SameOpen open_bases empty (close answering net server ready)
unfolding prepare resolve_listen_addr new_connection run_migrations start_observability new start
    is_enabled
close-prepare_example =
    close-prepare answering net open_bases open_ports net-HasListeners answering-HasHandles (λ s. s)
      cfg flags empty ready server refl

enabled_endpoints_example :
    let r = start_observability net.start_http cfg Metrics.new empty in
    (r.1.begun ≡ ":9090" ∷ []) × ((shutdown net.shutdown_http r.0 ready).1.shut ≡ ":9090" ∷ [])
unfolding load apply_defaults override_from_env validate is_enabled
enabled_endpoints_example =
    enabled_endpoints outside "" cfg Metrics.new net.start_http net.shutdown_http (λ w. w.begun)
      (λ w. w.shut) refl refl (λ s w. refl) (λ s w. refl) empty ready
