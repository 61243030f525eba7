-- ===== src/Metrics/Registry.antt =====
-- internal/metrics/metrics.go: the descriptions of the instruments and their registration. Help texts
-- and the bounds of the buckets are left out; the gRPC metrics and the runtime collectors are the names
-- that their libraries register.
use jira_connector.Base.{
  String, Bool, false, ◌||◌, Option, none, some, List, [], ◌∷◌, ◌++◌, map, if◌then◌else◌,
}
use jira_connector.Base.Text.{append, str_eq}

abbrev pub namespace : String
namespace = "connector"

pub data Kind : Type 0 where
  counter gauge histogram : Kind

pub record Instrument : Type 0 where
  pub kind : Kind
  pub subsystem : String
  pub name : String
  pub labels : List String

-- The name under which Prometheus registers an instrument.
unfoldable pub full_name : Instrument → String
full_name i = append namespace (append "_" (append i.subsystem (append "_" i.name)))

abbrev instrument : Kind → String → String → List String → Instrument
instrument kind subsystem name labels = record {
  kind = kind;
  subsystem = subsystem;
  name = name;
  labels = labels;
}

unfoldable pub init_jira : List Instrument
init_jira =
    instrument counter "jira" "requests_total" ("operation" ∷ "outcome" ∷ [])
    ∷ instrument histogram "jira" "request_duration_seconds" ("operation" ∷ [])
    ∷ instrument counter "jira" "retries_total" []
    ∷ []

unfoldable pub init_sync : List Instrument
init_sync =
    instrument counter "sync" "jobs_started_total" []
    ∷ instrument counter "sync" "jobs_completed_total" []
    ∷ instrument counter "sync" "jobs_failed_total" []
    ∷ instrument gauge "sync" "jobs_active" []
    ∷ instrument counter "sync" "issues_processed_total" []
    ∷ instrument histogram "sync" "duration_seconds" []
    ∷ []

abbrev pub contains : String → List String → Bool
contains n [] = false
contains n (m ∷ ms) = let rest = contains n ms in str_eq n m || rest

-- MustRegister panics, `none`, where a name is registered already.
unfoldable pub must_register : List String → List String → Option (List String)
must_register registry [] = some registry
must_register registry (n ∷ ns) =
    let rest = must_register (n ∷ registry) ns in if contains n registry then none else rest

-- New on a fresh registry, where the gRPC metrics register `grpc`.
unfoldable pub registered : List String → Option (List String)
unfolding init_jira init_sync must_register full_name
registered grpc = must_register [] (map full_name (init_jira ++ init_sync) ++ grpc)

abbrev after_new : List String → Option (List String) → Option (List String)
after_new runtime none = none
after_new runtime (some registry) = must_register registry runtime

-- RegisterRuntimeCollectors, after New.
unfoldable pub register_runtime_collectors : List String → List String → Option (List String)
unfolding registered
register_runtime_collectors grpc runtime = after_new runtime (registered grpc)
