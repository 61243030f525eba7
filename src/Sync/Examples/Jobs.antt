-- ===== src/Sync/Examples/Jobs.antt =====
-- The job of project AB from its start to its end.
use jira_connector.Base.{◌≡◌, some, none, List, [], refl, arith}
use jira_connector.Base.Int.{int64, ◌+ℤ◌}
use jira_connector.Jira.{Issue}
use jira_connector.Manager.{JobSnapshot, job_state_completed, status, start, set_total}
use jira_connector.Manager.Jobs.{Reach, leave, idle, here, request}
use jira_connector.Repo.{db}
use jira_connector.Sync.Paging.{Progress, run_sync, pages, round}
use jira_connector.Sync.Projects.{postgres, sync_project}
use jira_connector.Sync.Job.{run_job}
use jira_connector.Sync.Job.Starting.{with_launched, sync_project-Reach}
use jira_connector.Sync.Job.Reports.{still}
use jira_connector.Sync.Job.Refinement.{OnlyReports, Ended, run_job-refines}
use jira_connector.Sync.Job.Completion.{run_job-completes}
use jira_connector.Sync.Examples.Requests.{
  three_issues, honest, honest-IsHonest, one_job, one_job-Reach, listing, database, service,
}

abbrev job_start : Progress (List Issue)
job_start = record { service = record { manager = one_job.manager; mtr = none }; world = [] }

honest-OnlyReports : OnlyReports "u1" honest
honest-OnlyReports page s w = still

sync_project-Reach_example :
    let r = (sync_project database listing (postgres db) 5 "u1" "AB" service 0 0).0 in
    Reach (with_launched r.launched "AB" r.service.manager idle)
sync_project-Reach_example =
    sync_project-Reach "AB" idle database listing (postgres db) 5 "u1" service 0 0 here refl refl

run_job-completes_example :
    (q : Progress (List Issue)) × (run_job honest 4 9 "u1" "AB" job_start ≡ some q)
    × (q.world ≡ three_issues)
    × Reach (leave "u1" "AB" q.service.manager one_job)
    × (snap : JobSnapshot) × (status "u1" q.service.manager ≡ some snap)
    × (snap.state ≡ job_state_completed)
unfolding one_job request start
run_job-completes_example =
    run_job-completes honest (λ xs w. w ≡ xs) three_issues "u1" "AB" honest-IsHonest (omega arith)
      honest-OnlyReports one_job-Reach (omega arith) 9 [] job_start refl refl

abbrev job_end : Progress (List Issue)
job_end = record {
  service = record { manager = set_total "u1" 3 one_job.manager; mtr = none };
  world = three_issues;
}

run_job-refines_example :
    (q : Progress (List Issue)) × (run_job honest 4 9 "u1" "AB" job_start ≡ some q)
    × (q.world ≡ three_issues)
    × Reach (leave "u1" "AB" q.service.manager one_job)
    × (snap : JobSnapshot) × (status "u1" q.service.manager ≡ some snap)
    × Ended none snap
unfolding one_job request start run_sync pages round int64 ◌+ℤ◌
run_job-refines_example =
    run_job-refines honest "u1" "AB" honest-OnlyReports one_job-Reach (omega arith) 4 9 job_start
      job_end none refl refl
