-- ===== src/Handler/Calls.antt =====
-- internal/handler/grpc/handler.go: the codes of errors, and the life of a job by its id.
use jira_connector.Base.{All, ℕ, ◌%◌, ◌^◌, ◌≡◌, refl, String, false, Option, none, some, arith, ap}
use jira_connector.Base.Int.{pos}
use jira_connector.Base.Text.{is_empty, eq_refl}
use jira_connector.GoError.{GoError, detail, wrap, Result, ok}
use jira_connector.Jira.{ProjectsResponse}
use jira_connector.Repo.{Database, Querier}
use jira_connector.Manager.{Manager, Job, start, status, complete, fail}
use jira_connector.Sync.{Service, SyncResult}
use jira_connector.Sync.Projects.Search.{IsOther}
use jira_connector.Sync.Projects.{Listing, Repository, postgres, sync_project}
use jira_connector.Sync.Projects.Outcomes.{sync_project-absent}
use jira_connector.Handler.{
  Code, not_found, Reply, reply, refuse, to_grpc_error, download_project, get_sync_status,
  downloaded, running, completed, failed,
}

-- Wrapping an error, in front or behind, does not change the code that the client gets.
pub to_grpc_error-wrap :
    (e : GoError) (text text' : String)
    → ((to_grpc_error (wrap text e)).code ≡ (to_grpc_error e).code)
      × ((to_grpc_error (detail e text')).code ≡ (to_grpc_error e).code)
unfolding to_grpc_error
to_grpc_error-wrap e text text' = (ground arith, ground arith)

abbrev pub code_of : {A : Type 0} → Reply A → Option Code
code_of (reply a) = none
code_of (refuse s) = some s.code

-- The service's SyncProject, as the handler calls it: the state is the service, the world and the
-- database.
abbrev pub sync_call :
    {Time W D : Type 0}
    → Database Time D
    → Listing W
    → Repository
    → ℕ
    → String
    → String
    → Service × W × D
    → Result SyncResult × (Service × W × D)
sync_call base listing repo now uuid key (s, w, d) =
    let (r, w', d') = sync_project base listing repo now uuid key s w d in
    (r.result, (r.service, w', d'))

-- A request to download a project whose key is not on the first page of projects is refused with the
-- code NotFound.
pub download_project-unknown :
    {Time W D : Type 0} (base : Database Time D) (listing : Listing W) (q : Querier) (now : ℕ)
    (uuid key : String) (s : Service) (w w' : W) (d : D) (resp : ProjectsResponse)
    → is_empty key ≡ false
    → listing "" (pos 100) (pos 0) w ≡ (ok resp, w')
    → All (IsOther key) resp.values
    → code_of (download_project (sync_call base listing (postgres q) now uuid) key (s, w, d)).0
      ≡ some not_found
unfolding download_project
download_project-unknown base listing q now uuid key s w w' d resp named listed absent = rw named (
    ap (λ r. code_of (downloaded key r.0.result))
      (sync_project-absent base listing q now uuid key s w w' d resp listed absent))

-- A job that Start has just registered, for a project that was not being synced, is reported under
-- its id as running, with nothing processed.
pub get_sync_status-start :
    (now : ℕ) (uuid key : String) (m : Manager)
    → is_empty uuid ≡ false
    → m.by_key key ≡ none
    → get_sync_status uuid (start now uuid key m).0
      ≡ reply (record {
        sync_id = uuid;
        state = running;
        processed = 0;
        total = 0;
        error = "";
        project_key = key;
      })
unfolding get_sync_status start status
get_sync_status-start now uuid key m named free = rw (named, free, eq_refl) refl

-- A registered job that Complete or Fail ends is reported as completed, or as failed with its
-- message; its counters are reported modulo 2 ^ 32.
pub get_sync_status-end :
    (now : ℕ) (id msg : String) (m : Manager) (j : Job)
    → is_empty id ≡ false
    → m.by_id id ≡ some j
    → (get_sync_status id (complete now id m)
        ≡ reply (record {
          sync_id = j.id;
          state = completed;
          processed = j.processed % 2 ^ 32;
          total = j.total % 2 ^ 32;
          error = j.err_msg;
          project_key = j.project_key;
        }))
      × (get_sync_status id (fail now id msg m)
          ≡ reply (record {
            sync_id = j.id;
            state = failed;
            processed = j.processed % 2 ^ 32;
            total = j.total % 2 ^ 32;
            error = msg;
            project_key = j.project_key;
          }))
unfolding get_sync_status status complete fail
get_sync_status-end now id msg m j named e =
    (rw (named, e, eq_refl) refl, rw (named, e, eq_refl) refl)
