-- ===== src/Manager/Examples.antt =====
-- A run of the registry: one job is started for project AB, a second one for CD.
use jira_connector.Base.{◌<◌, ◌≡◌, ◌≢◌, ◌⊎◌, ◌↔◌, String, some, none, false, refl, arith}
use jira_connector.Manager.{Job, start, complete, job_state_running, job_state_completed}
use jira_connector.Manager.Jobs.{
  System, Reach, Step, here, next, call_start, succeed, idle, request, leave, one_sync_per_project,
  by_key-iff-active, start_deduplicates, finished_is_final,
}

abbrev one_job : System
unfolding request start
one_job = request 5 "u1" "AB" idle

abbrev two_jobs : System
unfolding request start
two_jobs = request 6 "u2" "CD" one_job

first_start : Step idle one_job
unfolding request start
first_start = call_start 5 "u1" "AB" idle refl

second_start : Step one_job two_jobs
unfolding request start
second_start = call_start 6 "u2" "CD" one_job refl

one_job-Reach : Reach one_job
one_job-Reach = next here first_start

two_jobs-Reach : Reach two_jobs
two_jobs-Reach = next one_job-Reach second_start

abbrev first_id : String
first_id = "u1"

abbrev second_id : String
second_id = "u2"

one_sync_per_project_example : (second_id ≡ second_id) × (two_jobs.active second_id "CD" ≡ 1)
unfolding request start
one_sync_per_project_example =
    one_sync_per_project two_jobs-Reach second_id second_id "CD" (omega arith) (omega arith)

by_key-iff-active_example :
    (two_jobs.manager.by_key "AB" ≡ some first_id) ↔ (0 < two_jobs.active first_id "AB")
by_key-iff-active_example = by_key-iff-active two_jobs-Reach "AB" first_id

start_deduplicates_example :
    ((start 9 "u3" "CD" two_jobs.manager).1 ≡ record { sync_id = second_id; started = false })
    × ((request 9 "u3" "CD" two_jobs).active ≡ two_jobs.active)
unfolding request start
start_deduplicates_example = start_deduplicates two_jobs-Reach 9 "u3" second_id "CD" (omega arith)

-- The first job has ended.
abbrev one_left : System
unfolding request start complete
one_left = leave first_id "AB" (complete 8 first_id two_jobs.manager) two_jobs

first_end : Step two_jobs one_left
unfolding request start complete
first_end = succeed 8 first_id "AB" two_jobs (omega arith)

one_left-Reach : Reach one_left
one_left-Reach = next two_jobs-Reach first_end

abbrev ended_job : Job
ended_job = record {
  id = first_id;
  project_key = "AB";
  state = job_state_completed;
  processed = 0;
  total = 0;
  err_msg = "";
  started_at = 5;
  finished_at = 8;
}

third_start : Step one_left (request 9 "u3" "AB" one_left)
unfolding request start complete
third_start = call_start 9 "u3" "AB" one_left refl

not_running : job_state_completed ≢ job_state_running
not_running e = omega arith

finished_is_final_example :
    ((request 9 "u3" "AB" one_left).manager.by_id first_id ≡ some ended_job)
    ⊎ ((request 9 "u3" "AB" one_left).manager.by_id first_id ≡ none)
unfolding request start complete
finished_is_final_example =
    finished_is_final one_left-Reach first_id ended_job refl not_running third_start
