-- ===== src/Metrics/Registering.antt =====
-- internal/metrics/metrics.go: registration without panic.
use jira_connector.Base.{
  String, Bool, true, false, ◌||◌, Option, none, some, List, [], ◌∷◌, ◌++◌, ◌≡◌, refl, All, arith,
  if◌then◌else◌,
}
use jira_connector.Metrics.Registry.{
  full_name, init_jira, init_sync, contains, must_register, registered, register_runtime_collectors,
}

-- The names of the connector's own instruments, the last registered first.
abbrev pub own_names : List String
own_names =
    "connector_sync_duration_seconds" ∷ "connector_sync_issues_processed_total"
    ∷ "connector_sync_jobs_active" ∷ "connector_sync_jobs_failed_total"
    ∷ "connector_sync_jobs_completed_total" ∷ "connector_sync_jobs_started_total"
    ∷ "connector_jira_retries_total" ∷ "connector_jira_request_duration_seconds"
    ∷ "connector_jira_requests_total" ∷ []

abbrev pub IsForeign : String → Type 0
IsForeign n = contains n own_names ≡ false

contains-append :
    (n : String) (xs ys : List String) → contains n (xs ++ ys) ≡ (contains n xs || contains n ys)
contains-append n [] ys = refl
contains-append n (x ∷ xs) ys = rw (contains-append n xs ys) (ground (arith))

-- A name that is registered has not been registered before.
taken_apart :
    {A : Type 0} (b : Bool) (o : Option A) {r : A}
    → (if b then none else o) ≡ some r
    → (b ≡ false) × (o ≡ some r)
taken_apart true o h = cc
taken_apart false o h = (refl, h)

beside_own :
    (registry ns : List String) {r : List String}
    → must_register registry ns ≡ some r
    → All IsForeign ns
    → must_register (registry ++ own_names) ns ≡ some (r ++ own_names)
unfolding must_register
beside_own registry [] h foreign = cc
beside_own registry (n ∷ ns) h foreign =
    let (absent, later) = taken_apart (contains n registry) (must_register (n ∷ registry) ns) h in
    rw (contains-append n registry own_names, absent, foreign.0)
      (beside_own (n ∷ registry) ns later foreign.1)

must_register-append :
    (registry xs ys : List String) {r : List String}
    → must_register registry (xs ++ ys) ≡ some r
    → (m : List String) × (must_register registry xs ≡ some m) × (must_register m ys ≡ some r)
unfolding must_register
must_register-append registry [] ys h = (registry, refl, h)
must_register-append registry (x ∷ xs) ys h =
    let (absent, later) =
      taken_apart (contains x registry) (must_register (x ∷ registry) (xs ++ ys)) h in
    let (m, front, back) = must_register-append (x ∷ registry) xs ys later in
    (m, rw absent front, back)

own_first : (grpc : List String) → registered grpc ≡ must_register own_names grpc
unfolding registered must_register init_jira init_sync full_name
own_first grpc = refl

-- If the gRPC metrics and the runtime collectors can be registered together on a registry of their
-- own, and none of their names is one of the connector's, then New and RegisterRuntimeCollectors do
-- not panic, and the registry has their names and the names of the nine instruments of the connector.
pub register_runtime_collectors-fine :
    (grpc runtime : List String) {r : List String}
    → must_register [] (grpc ++ runtime) ≡ some r
    → All IsForeign grpc
    → All IsForeign runtime
    → register_runtime_collectors grpc runtime ≡ some (r ++ own_names)
unfolding register_runtime_collectors
register_runtime_collectors-fine grpc runtime h g k =
    let (m, first, second) = must_register-append [] grpc runtime h in
    rw (own_first grpc, beside_own [] grpc first g) (beside_own m runtime second k)
