-- ===== src/Lib.antt =====
-- The Jira connector: a Go service that downloads the issues of a Jira project and stores them as
-- rows in PostgreSQL. A gRPC handler or the command line asks the sync service for a project; the
-- service looks the project up in Jira, registers a job, and a goroutine pages through the issues,
-- maps each of them and its people to rows, and writes each page in one transaction.
--
-- The parts, the files that model them, and the code:
--   Base, GoError, Strconv - Go's integers, texts, maps and errors as far as the program uses them:
--     int64 and uint64 with their wrap-around, errors.Is and errors.As over wrapped errors, ParseInt.
--   Manager - internal/service/sync/manager.go. The mutex makes each method one function on the
--     registry; Manager.Jobs has the concurrent executions, as a step relation of the registry and
--     the goroutines that are at work (internal/service/sync/sync.go, SyncProject).
--   Sync - internal/service/sync/sync.go: collecting the authors of an issue (Sync.Authors), writing
--     a page (Sync.Commit), fetching a page through the pool (Sync.Fetching), the loop over pages
--     (Sync.Paging), SyncProject (Sync.Projects), the goroutine of a job as a whole and its steps in
--     Manager.Jobs (Sync.Job), and a page and a whole job on the tables of the database
--     (Sync.Storage).
--   WorkerPool - internal/workerpool/workerpool.go: the goroutines around the two channels, as a step
--     relation. In Sync.Fetching a run of the pool is a parameter; Sync.Fetching.Accounts joins both.
--   Jira, JiraError - internal/client/jira/jira.go: the data, one attempt and its outcome
--     (Jira.Client), the retry loop of the method `do` (Jira.Retry), the requests (Jira.Fetch).
--   Mapper, Raw - internal/mapper/jira_to_raw.go, internal/repository/models/raw/models.go.
--   Repo - internal/repository/postgres/postgres.go, internal/repository/repository.go, over any
--     database; Repo.Postgres is one such database, the tables of the schema raw under the five
--     queries of internal/repository/postgres/queries and the keys of
--     internal/database/migrations/000001_init_raw_data_scheme.up.sql.
--   Metrics - internal/metrics/metrics.go. Config - internal/config/config.go.
--   Handler - internal/handler/grpc/handler.go; Handler.Client - cmd/internal/cli/client/client.go.
--   App - cmd/internal/app/app.go; App.Command - cmd/internal/cli/run.go.
--   Database - internal/database/connection.go. Observability - internal/observability/server.go.
--   Server - cmd/internal/cli/server/server.go, which builds all of these from a configuration.
-- Modules named Examples hold concrete runs.
--
-- A name of the code is spelled in lower case with underscores: SyncProject is sync_project. Where a
-- function of the code has several steps, helpers of the same file take the result of each call, and
-- the function composes them in the order of the code. State is passed on: a registry and metrics
-- (Service), the outside of the Jira client (W), the database (D).
--
-- Bounds and fuel: in the code only the deadline of the context bounds the retry loop and the loop
-- over pages. Here they are on fuel, one unit for an attempt or a request, and return `none` where it
-- runs out; the results below say for which fuel they return. An int64 or uint64 that the code
-- computes with wraps around.
--
-- A database, a listener or a migrator that the code opens is a number, its handle; what is open is a
-- function of the outside and the handle.
--
-- Not modelled: logging; the value of a float64, which has an abstract type; the migrations after the
-- first one; internal/app/app.go, which builds the parts as the command does; the flags of cobra and
-- the waiting for a signal; the generated code in gen/. HTTP, JSON, YAML, the rate limiter, the clock,
-- uuid, gRPC, database/sql and golang-migrate are parameters. `%q` is written as quotation marks
-- around the text, without escapes. In the tables of Repo.Postgres a text holds no NUL, and a
-- TIMESTAMP keeps the time it is given, with its zone.
pub mod Base
pub mod GoError
pub mod JiraError
pub mod Strconv
pub mod Raw
pub mod Jira
pub mod Metrics
pub mod Config
pub mod Database
pub mod Observability
pub mod Mapper
pub mod Repo
pub mod WorkerPool
pub mod Manager
pub mod Sync
pub mod Handler
pub mod Server
pub mod App
