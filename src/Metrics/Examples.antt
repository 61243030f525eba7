-- ===== src/Metrics/Examples.antt =====
-- The counters after the start of one job, and a registry with two foreign names.
use jira_connector.Base.{◌≡◌, String, some, List, [], ◌∷◌, ◌++◌, refl}
use jira_connector.Metrics.Registry.{must_register, register_runtime_collectors}
use jira_connector.Metrics.Registering.{own_names, register_runtime_collectors-fine}

abbrev grpc : List String
grpc = "grpc_server_started_total" ∷ []

abbrev runtime : List String
runtime = "go_goroutines" ∷ []

register_runtime_collectors-fine_example :
    register_runtime_collectors grpc runtime
    ≡ some (("go_goroutines" ∷ "grpc_server_started_total" ∷ []) ++ own_names)
unfolding must_register
register_runtime_collectors-fine_example =
    register_runtime_collectors-fine grpc runtime refl (refl, tt) (refl, tt)
