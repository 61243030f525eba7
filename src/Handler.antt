-- ===== src/Handler.antt =====
-- internal/handler/grpc/handler.go: the three calls of the gRPC service. A message of the generated
-- code is a record of the fields that the handler reads or writes; an error is a status.
pub mod Calls
pub mod Client
pub mod Remote
mod Examples
use jira_connector.Base.{
  ℕ, ◌%◌, ◌^◌, String, Bool, Option, none, some, List, map, ◌==◌, if◌then◌else◌,
}
use jira_connector.Base.Int.{ℤ, int32}
use jira_connector.Base.Text.{append, is_empty, str_eq}
use jira_connector.GoError.{
  GoError, error_text, is_error, context_canceled, err_project_not_found, Result, ok, err,
}
use jira_connector.Jira.{Project, ProjectsResponse}
use jira_connector.Manager.{
  JobState, JobSnapshot, Manager, job_state_running, job_state_completed, job_state_failed, status,
}
use jira_connector.Sync.{SyncResult}

-- google.golang.org/grpc/codes, those that occur.
pub data Code : Type 0 where
  canceled invalid_argument not_found internal : Code

pub record Status : Type 0 where
  pub code : Code
  pub message : String

pub data Reply (A : Type 0) : Type 0 where
  reply : A → Reply A
  refuse : Status → Reply A

unfoldable pub to_grpc_error : GoError → Status
to_grpc_error e =
    if is_error context_canceled e
    then record { code = canceled; message = append "request cancelled: " (error_text e) }
    else if is_error err_project_not_found e
    then record { code = not_found; message = append "project not found: " (error_text e) }
    else record { code = internal; message = append "connector error: " (error_text e) }

pub record JiraProject : Type 0 where
  pub id : String
  pub key : String
  pub title : String
  pub self : String

pub record GetAvailableProjectsResponse : Type 0 where
  pub projects : List JiraProject
  pub total : ℤ
  pub is_last : Bool

abbrev pub jira_project : Project → JiraProject
jira_project proj = record { id = proj.id; key = proj.key; title = proj.name; self = proj.self }

-- `service` is what the service's GetAvailableProjects returned for the query, limit and page of the
-- request.
unfoldable pub get_available_projects : Result ProjectsResponse → Reply GetAvailableProjectsResponse
unfolding to_grpc_error
get_available_projects (err e) = refuse (to_grpc_error e)
get_available_projects (ok resp) = reply (record {
  projects = map jira_project resp.values;
  total = int32 resp.total;
  is_last = resp.is_last;
})

pub record DownloadProjectResponse : Type 0 where
  pub project_id : String
  pub sync_id : String
  pub status : String
  pub message : String

abbrev pub downloaded : String → Result SyncResult → Reply DownloadProjectResponse
downloaded key (err e) = refuse (to_grpc_error e)
downloaded key (ok result) = reply (record {
  project_id = result.project_id;
  sync_id = result.sync_id;
  status = result.status;
  message =
      if str_eq result.status "already_running"
      then append "sync already in progress for project " key
      else append "sync started for project " key;
})

-- `sync` is the call of SyncProject: it changes the state `S` and returns a result.
unfoldable pub download_project :
    {S : Type 0}
    → (String → S → Result SyncResult × S)
    → String
    → S
    → Reply DownloadProjectResponse × S
unfolding to_grpc_error
download_project sync key s =
    let (r, s') = sync key s in
    if is_empty key
    then (refuse (record { code = invalid_argument; message = "project_key is required" }), s)
    else (downloaded key r, s')

-- The proto enum SyncState.
pub data SyncState : Type 0 where
  unspecified running completed failed : SyncState

unfoldable pub sync_state_to_proto : JobState → SyncState
sync_state_to_proto s =
    if s == job_state_running
    then running
    else if s == job_state_completed
    then completed
    else if s == job_state_failed
    then failed
    else unspecified

pub record GetSyncStatusResponse : Type 0 where
  pub sync_id : String
  pub state : SyncState
  pub processed : ℕ
  pub total : ℕ
  pub error : String
  pub project_key : String

abbrev pub status_reply : String → Option JobSnapshot → Reply GetSyncStatusResponse
status_reply sync_id none =
    refuse
      (record { code = not_found; message = append "sync job \"" (append sync_id "\" not found") })
status_reply sync_id (some snap) = reply (record {
  sync_id = snap.id;
  state = sync_state_to_proto snap.state;
  processed = snap.processed % 2 ^ 32;
  total = snap.total % 2 ^ 32;
  error = snap.err_msg;
  project_key = snap.project_key;
})

unfoldable pub get_sync_status : String → Manager → Reply GetSyncStatusResponse
unfolding sync_state_to_proto
get_sync_status sync_id m =
    if is_empty sync_id
    then refuse (record { code = invalid_argument; message = "sync_id is required" })
    else status_reply sync_id (status sync_id m)

-- LoggingInterceptor: the answer of the handler, with the code that is logged, of which `none` is OK.
abbrev pub logged_code : {A : Type 0} → Reply A → Option Code
logged_code (reply a) = none
logged_code (refuse s) = some s.code

unfoldable pub logging_interceptor :
    {A S : Type 0} → (S → Reply A × S) → S → Reply A × Option Code × S
logging_interceptor handler s = let (r, s') = handler s in (r, logged_code r, s')
