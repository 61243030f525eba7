-- ===== src/Sync.antt =====
-- internal/service/sync/sync.go: the service. Its state is the job registry and the metrics; the
-- database and the Jira client are states and calls of the outside.
pub mod Authors
pub mod Commit
pub mod Paging
pub mod Projects
pub mod Fetching
pub mod Job
pub mod Storage
mod Examples
use jira_connector.Base.{ℕ, String, Bool, true, false, Option, none, some}
use jira_connector.Base.Int.{ℤ}
use jira_connector.Manager.{Manager}
use jira_connector.Metrics.{Metrics}

-- The type `Result` of sync.go.
pub record SyncResult : Type 0 where
  pub sync_id : String
  pub project_id : String
  pub status : String

-- What the service owns and changes.
pub record Service : Type 0 where
  pub manager : Manager
  pub mtr : Option Metrics

abbrev pub default_projects_limit : ℕ
default_projects_limit = 100

abbrev pub default_page_size : ℕ
default_page_size = 50
