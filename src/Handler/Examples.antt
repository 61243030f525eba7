-- ===== src/Handler/Examples.antt =====
-- Requests to the gRPC handlers.
use jira_connector.Base.{ℕ, suc, ◌≡◌, String, none, [], ◌∷◌, refl, true, arith}
use jira_connector.Base.Int.{pos}
use jira_connector.GoError.{Result, ok}
use jira_connector.Jira.{ProjectsResponse}
use jira_connector.Manager.{Manager, Job, new_manager, start, complete, fail}
use jira_connector.Sync.{Service, SyncResult}
use jira_connector.Sync.Projects.{Listing}
use jira_connector.Handler.{reply, get_sync_status, completed, failed}
use jira_connector.Handler.Client.{ClientFlags, run}
use jira_connector.Handler.Remote.{projects_exit, sync_exit, dial, run-projects, run-download}
use jira_connector.Handler.Calls.{get_sync_status-end}

abbrev no_projects : ProjectsResponse
no_projects = record {
  values = [];
  total = pos 0;
  start_at = pos 0;
  max_results = pos 50;
  is_last = true;
}

abbrev service : Service
service = record { manager = new_manager; mtr = none }

abbrev one_job : Manager
unfolding start
one_job = (start 5 "u1" "AB" new_manager).0

abbrev job : Job
job = record {
  id = "u1";
  project_key = "AB";
  state = 1;
  processed = 0;
  total = 0;
  err_msg = "";
  started_at = 5;
  finished_at = 0;
}

get_sync_status-end_example :
    (get_sync_status "u1" (complete 9 "u1" one_job)
      ≡ reply (record {
        sync_id = "u1";
        state = completed;
        processed = 0;
        total = 0;
        error = "";
        project_key = "AB";
      }))
    × (get_sync_status "u1" (fail 9 "u1" "lost" one_job)
        ≡ reply (record {
          sync_id = "u1";
          state = failed;
          processed = 0;
          total = 0;
          error = "lost";
          project_key = "AB";
        }))
unfolding start
get_sync_status-end_example = get_sync_status-end 9 "u1" "lost" one_job job refl refl

abbrev flags : String → ClientFlags
flags cmd = record {
  addr = "localhost:50052";
  cmd = cmd;
  key = "AB";
  search = "";
  limit = pos 10;
  page = pos 0;
}

abbrev listing : Listing ℕ
listing query limit page w = (
  ok (record no_projects {
    values = record { id = "7"; key = "AB"; name = "Alpha"; self = "" } ∷ [];
    total = pos 1;
  }),
  suc w,
)

-- A connection that counts its calls, to a service that lists a project and starts a sync.
abbrev one_sync : String → ℕ → Result SyncResult × ℕ
one_sync key w = (ok (record { sync_id = "u1"; project_id = "7"; status = "running" }), suc w)

run-projects_example :
    run
      (dial (λ addr w. (none, suc w)) suc listing one_sync (flags "projects") 0 1 refl)
      (flags "projects")
      0
    ≡ (projects_exit (listing "" (pos 10) (pos 0) 1).0, 3)
run-projects_example =
    run-projects (λ addr w. (none, suc w)) suc listing one_sync (flags "projects") 0 1 refl refl
      (record { above = omega arith; below = omega arith })
      (record { above = omega arith; below = omega arith })

run-download_example :
    run
      (dial (λ addr w. (none, suc w)) suc listing one_sync (flags "download") 0 1 refl)
      (flags "download")
      0
    ≡ (sync_exit "AB" (one_sync "AB" 1).0, 3)
run-download_example =
    run-download (λ addr w. (none, suc w)) suc listing one_sync (flags "download") 0 1 refl refl
      refl
