-- ===== src/Sync/Projects.antt =====
-- internal/service/sync/sync.go, `ensureProject`, `SyncProject` with its goroutine, and
-- `GetAvailableProjects`. Logging is left out.
pub mod Outcomes
pub mod Ids
pub mod Search
use jira_connector.Base.{
  ℕ, String, Bool, true, false, Option, none, some, List, [], ◌∷◌, ◌&&◌, not, if◌then◌else◌,
}
use jira_connector.Base.Int.{ℤ, pos}
use jira_connector.Base.Text.{str_eq, format_int}
use jira_connector.GoError.{
  GoError, sentinel, detail, wrap, error_text, is_error, err_project_not_found,
  err_invalid_repository, err_project_already_exists, Result, ok, err, wrapped,
}
use jira_connector.Jira.{Project, ProjectsResponse}
use jira_connector.Mapper.{map_project_to_raw}
use jira_connector.Repo.{Database, Querier, insert_project_row}
use jira_connector.Manager.{Manager, StartResult, start, complete, fail}
use jira_connector.Metrics.{sync_job_started, sync_job_finished, observe_sync_duration}
use jira_connector.Sync.{Service, SyncResult, default_projects_limit}

-- What the field `repo` holds: a *postgres.PostgresRepository, or another Repository.
pub data Repository : Type 0 where
  postgres : Querier → Repository
  foreign : Repository

-- The Jira client's listing of projects.
abbrev pub Listing : Type 0 → Type 0
Listing W = String → ℤ → ℤ → W → Result ProjectsResponse × W

unfoldable pub get_available_projects :
    {W : Type 0} → Listing W → String → ℤ → ℤ → W → Result ProjectsResponse × W
get_available_projects listing query limit page w =
    let (r, w') = listing query limit page w in (wrapped "get projects" r, w')

-- The first project of that key.
unfoldable pub find_project : String → List Project → Option Project
find_project key [] = none
find_project key (p ∷ ps) =
    let rest = find_project key ps in if str_eq p.key key then some p else rest

-- What SyncProject returns, the service it leaves, and the goroutine that it launches: the id of
-- its job and of the project.
pub record Started : Type 0 where
  pub result : Result SyncResult
  pub service : Service
  pub launched : Option (String × ℤ)

abbrev pub start_result : Service → ℤ → Manager × StartResult → Started
start_result s project_id (m, res) =
    if res.started
    then record {
      result = ok (record {
        sync_id = res.sync_id;
        project_id = format_int project_id;
        status = "running";
      });
      service = record { manager = m; mtr = sync_job_started s.mtr };
      launched = some (res.sync_id, project_id);
    }
    else record {
      result = ok (record {
        sync_id = res.sync_id;
        project_id = format_int project_id;
        status = "already_running";
      });
      service = record { manager = m; mtr = s.mtr };
      launched = none;
    }

abbrev pub start_ensured : ℕ → String → String → Service → Result ℤ → Started
start_ensured now uuid key s (err e) = record {
  result = err (wrap "ensure project" e);
  service = s;
  launched = none;
}
start_ensured now uuid key s (ok project_id) =
    start_result s project_id (start now uuid key s.manager)

module _ {Time W D : Type 0} (base : Database Time D) (listing : Listing W) where
  abbrev pub inserted : ℤ → Option GoError × D → Result ℤ × D
  inserted id (none, d) = (ok id, d)
  inserted id (some e, d) =
      if is_error err_project_already_exists e
      then (ok id, d)
      else (err (wrap "insert project" e), d)

  abbrev pub ensure_found : Querier → String → Option Project → D → Result ℤ × D
  ensure_found q key none d = (err (detail (sentinel err_project_not_found) key), d)
  ensure_found q key (some proj) d =
      inserted (map_project_to_raw proj).id (insert_project_row base q (map_project_to_raw proj) d)

  abbrev pub ensure_listed : Querier → String → Result ProjectsResponse → D → Result ℤ × D
  ensure_listed q key (err e) d = (err (wrap "get projects" e), d)
  ensure_listed q key (ok resp) d = ensure_found q key (find_project key resp.values) d

  unfoldable pub ensure_project : Querier → String → W → D → Result ℤ × W × D
  ensure_project q key w d =
      let (r, w') = listing "" (pos default_projects_limit) (pos 0) w in
      let (id, d') = ensure_listed q key r d in (id, w', d')

  unfoldable pub sync_project : Repository → ℕ → String → String → Service → W → D → Started × W × D
  sync_project foreign now uuid key s w d = (
    record { result = err (sentinel err_invalid_repository); service = s; launched = none },
    w,
    d,
  )
  sync_project (postgres q) now uuid key s w d =
      let (id, w', d') = ensure_project q key w d in (start_ensured now uuid key s id, w', d')

-- The end of the goroutine, after `runSync` has returned.
unfoldable pub finish_job : ℕ → String → Option GoError → Service → Service
finish_job now sync_id none s = record {
  manager = complete now sync_id s.manager;
  mtr = sync_job_finished false (observe_sync_duration s.mtr);
}
finish_job now sync_id (some e) s = record {
  manager = fail now sync_id (error_text e) s.manager;
  mtr = sync_job_finished true (observe_sync_duration s.mtr);
}
