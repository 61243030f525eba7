-- ===== src/Sync/Job.antt =====
-- internal/service/sync/sync.go: the goroutine that `SyncProject` launches, `runSync` and the report of
-- its end to the registry and the metrics. Logging is left out.
pub mod Starting
pub mod Reports
pub mod Refinement
pub mod Completion
use jira_connector.Base.{ℕ, String, Option, none, some}
use jira_connector.GoError.{GoError}
use jira_connector.Sync.Paging.{Calls, Progress, Answer, run_sync}
use jira_connector.Sync.Projects.{finish_job}

abbrev pub reported : {W : Type 0} → ℕ → String → Answer W → Option (Progress W)
reported now sync_id none = none
reported now sync_id (some (e, p)) =
    some (record p { service = finish_job now sync_id e p.service })

-- `now` is the time of the end, `fuel` bounds the searches.
unfoldable pub run_job :
    {W : Type 0} → Calls W → ℕ → ℕ → String → String → Progress W → Option (Progress W)
unfolding run_sync
run_job calls fuel now sync_id project_key p =
    reported now sync_id (run_sync calls fuel sync_id project_key p)
