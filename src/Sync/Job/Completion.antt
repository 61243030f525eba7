-- ===== src/Sync/Job/Completion.antt =====
-- internal/service/sync/sync.go: whole jobs, from the request to their end.
use jira_connector.Base.{ℕ, suc, ◌^◌, ◌<◌, ◌≡◌, ◌++◌, sym, subst, String, none, some, List, length}
use jira_connector.Jira.{Issue}
use jira_connector.Manager.{JobSnapshot, job_state_completed, status}
use jira_connector.Manager.Jobs.{System, Reach, leave}
use jira_connector.Sync.Paging.{Calls, Progress}
use jira_connector.Sync.Paging.Coverage.{IsHonest, run_sync-coverage}
use jira_connector.Sync.Job.{run_job}
use jira_connector.Sync.Job.Refinement.{OnlyReports, run_job-refines}

-- A job of a reachable registry against a server that holds a list of fewer than 2 ^ 62 issues
-- throughout and answers honestly, where nothing is cancelled, no page of the list fails, and the
-- processing of a page only reports progress to the registry: with one search more than there are
-- issues the goroutine ends, all issues have been processed once and in order, the registry is again
-- reachable with the goroutine gone, and Status reports the job as Completed.
pub run_job-completes :
    {W : Type 0} (calls : Calls W) (Did : List Issue → W → Type 0) (items : List Issue)
    (id key : String) {sys : System}
    → IsHonest calls Did items
    → length items < 2 ^ 62
    → OnlyReports id calls
    → Reach sys
    → 0 < sys.active id key
    → (now : ℕ) (xs : List Issue) (p : Progress W) → p.service.manager ≡ sys.manager
    → Did xs p.world
    → (q : Progress W) × (run_job calls (suc (length items)) now id key p ≡ some q)
      × Did (xs ++ items) q.world
      × Reach (leave id key q.service.manager sys)
      × (snap : JobSnapshot) × (status id q.service.manager ≡ some snap)
      × (snap.state ≡ job_state_completed)
run_job-completes calls Did items id key honest few only r a now xs p same done =
    let (p', ran, all) = run_sync-coverage calls Did items honest few id key xs p done in
    let (q, ended, kept, reached, snap, shown, verdict) =
      run_job-refines calls id key only r a (suc (length items)) now p p' none same ran in
    (q, ended, subst (Did (xs ++ items)) (sym kept) all, reached, snap, shown, verdict)
