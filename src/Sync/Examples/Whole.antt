-- ===== src/Sync/Examples/Whole.antt =====
-- The job of project AB, whose one issue is fetched and stored in the tables of Sync.Examples.Tables.
use mathlib.Core.List.{Perm}
use mathlib.Core.List.Perm
use jira_connector.Base.{
  ℕ, ◌≡◌, refl, sym, subst, ap, String, some, none, List, [], ◌∷◌, map, All, take, drop, arith,
}
use jira_connector.Base.Int.{ℤ, pos, negsuc}
use jira_connector.GoError.{Result, ok}
use jira_connector.Jira.{Issue, SearchResponse}
use jira_connector.Manager.{JobSnapshot, job_state_completed, status, start}
use jira_connector.Manager.Jobs.{Reach, leave, request}
use jira_connector.Repo.Postgres.{Server}
use jira_connector.WorkerPool.{Task, TaskResult}
use jira_connector.Sync.Authors.{ProcessedIssue}
use jira_connector.Sync.Fetching.{IssueTaskPayload, RunPool, page_tasks, collect}
use jira_connector.Sync.Paging.{Progress}
use jira_connector.Sync.Job.{run_job}
use jira_connector.Sync.Storage.{live, IsStorable}
use jira_connector.Sync.Storage.Jobs.{IsServing, Holds, job_calls, sync_job-stores}
use jira_connector.Sync.Examples.Pages.{plain, issue_of}
use jira_connector.Sync.Examples.Requests.{one_job, one_job-Reach}
use jira_connector.Sync.Examples.Tables.{tables, item, item-IsStorable}

abbrev issues : List Issue
issues = issue_of "AB-1" "1" ∷ []

abbrev offset : ℤ → ℕ
offset (pos n) = n
offset (negsuc n) = 0

abbrev page_at : ℕ → SearchResponse
page_at a = record {
  issues = take 1 (drop a issues);
  total = pos 1;
  start_at = pos a;
  max_results = pos 1;
}

abbrev search : String → ℤ → ℤ → ℕ → Result SearchResponse × ℕ
search jql start_at limit w = (ok (page_at (offset start_at)), w)

abbrev answers : List (Task IssueTaskPayload) → List (TaskResult ProcessedIssue)
answers [] = []
answers (t ∷ ts) = record { task_id = t.id; outcome = ok item } ∷ answers ts

abbrev pool : RunPool ℕ
pool ts w = (record { refused = none; results = answers ts }, w)

abbrev fetched : Issue → ProcessedIssue
fetched i = item

collect-answers :
    (page : List Issue) → collect (answers (page_tasks (pos 7) page)) ≡ map fetched page
unfolding collect page_tasks
collect-answers [] = refl
collect-answers (i ∷ page) = ap (λ l. item ∷ l) (collect-answers page)

fetched-IsStorable : (page : List Issue) → All (IsStorable plain tables.project) (map fetched page)
fetched-IsStorable [] = tt
fetched-IsStorable (i ∷ page) = (item-IsStorable, fetched-IsStorable page)

serving : IsServing plain (λ w. none) search pool (pos 7) fetched issues tables
serving = record {
  uncancelled = λ w. refl;
  page_size = λ a w. 1;
  page_size-pos = λ a w. omega arith;
  reply = λ a w. page_at a;
  reply_issues = λ a w. refl;
  reply_total = λ a w. refl;
  answers = λ jql a w. refl;
  takes = λ n a w. refl;
  fetches = λ n a w.
      subst (λ l. Perm l (map fetched (take n (drop a issues))))
        (sym (collect-answers (take n (drop a issues)))) Perm.rfl;
  storable = λ n a w.
      subst (All (IsStorable plain tables.project)) (sym (collect-answers (take n (drop a issues))))
        (fetched-IsStorable (take n (drop a issues)));
}

sync_job-stores_example :
    (q : Progress (ℕ × Server String)) × (run_job
        (job_calls plain (λ w. none) search pool (pos 7) fetched issues tables serving "u1")
        2
        9
        "u1"
        "AB"
        (record {
          service = record { manager = one_job.manager; mtr = none };
          world = (0, live tables tables);
        })
      ≡ some q)
    × Holds plain fetched tables issues q.world.1
    × Reach (leave "u1" "AB" q.service.manager one_job)
    × (snap : JobSnapshot) × (status "u1" q.service.manager ≡ some snap)
    × (snap.state ≡ job_state_completed)
unfolding one_job request start
sync_job-stores_example =
    sync_job-stores plain (λ w. none) search pool (pos 7) fetched issues tables serving "u1" "AB"
      (omega arith) one_job-Reach (omega arith) 9 (record { manager = one_job.manager; mtr = none })
      0 (live tables tables) refl refl
