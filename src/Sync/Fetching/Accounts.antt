-- ===== src/Sync/Fetching/Accounts.antt =====
-- internal/service/sync/sync.go, `fetchPageIssues`: where the issues of a page end up.
use jira_connector.Base.{
  ℕ, suc, ◌+◌, ◌<◌, ◌≡◌, refl, ap, String, false, List, [], ◌∷◌, length, arith,
}
use jira_connector.Base.Int.{ℤ}
use jira_connector.GoError.{Result, ok, err}
use jira_connector.Jira.{Issue}
use jira_connector.WorkerPool.{Task, TaskResult, Pool, Reach}
use jira_connector.WorkerPool.Delivery.{weigh_ids, weigh_tasks, weigh_results}
use jira_connector.WorkerPool.Completion.{every_task_answered}
use jira_connector.Sync.Authors.{ProcessedIssue}
use jira_connector.Sync.Fetching.{IssueTaskPayload, page_tasks, collect_one, collect}

-- The ids of the results that are errors.
abbrev pub failed_one : String → Result ProcessedIssue → List String → List String
failed_one id (err e) rest = id ∷ rest
failed_one id (ok item) rest = rest

unfoldable pub failed_ids : List (TaskResult ProcessedIssue) → List String
failed_ids [] = []
failed_ids (r ∷ rs) = failed_one r.task_id r.outcome (failed_ids rs)

-- The ids of the others.
abbrev pub fetched_one : String → Result ProcessedIssue → List String → List String
fetched_one id (err e) rest = rest
fetched_one id (ok item) rest = id ∷ rest

unfoldable pub fetched_ids : List (TaskResult ProcessedIssue) → List String
fetched_ids [] = []
fetched_ids (r ∷ rs) = fetched_one r.task_id r.outcome (fetched_ids rs)

-- The keys of a page.
abbrev pub weigh_keys : (String → ℕ) → List Issue → ℕ
weigh_keys weight [] = 0
weigh_keys weight (i ∷ is') = weight i.key + weigh_keys weight is'

-- What the pool has been given once every task of a list has been submitted in turn.
abbrev pub submitted_after : {P : Type 0} → List (Task P) → List String → List String
submitted_after [] ids = ids
submitted_after (t ∷ ts) ids = submitted_after ts (t.id ∷ ids)

weigh-submitted :
    {P : Type 0} (weight : String → ℕ) (ts : List (Task P)) (ids : List String)
    → weigh_ids weight (submitted_after ts ids) ≡ weigh_tasks weight ts + weigh_ids weight ids
weigh-submitted weight [] ids = omega arith
weigh-submitted weight (t ∷ ts) ids = omega (arith, weigh-submitted weight ts (t.id ∷ ids))

weigh-page :
    (weight : String → ℕ) (project_id : ℤ) (page : List Issue)
    → weigh_tasks weight (page_tasks project_id page) ≡ weigh_keys weight page
unfolding page_tasks
weigh-page weight project_id [] = refl
weigh-page weight project_id (i ∷ is') = omega (arith, weigh-page weight project_id is')

weigh_one :
    (weight : String → ℕ) (id : String) (o : Result ProcessedIssue) (xs ys : List String) (n : ℕ)
    → n ≡ weigh_ids weight xs + weigh_ids weight ys
    → weight id + n ≡ weigh_ids weight (fetched_one id o xs) + weigh_ids weight (failed_one id o ys)
weigh_one weight id (ok item) xs ys n e = omega (arith, e)
weigh_one weight id (err x) xs ys n e = omega (arith, e)

weigh-parts :
    (weight : String → ℕ) (rs : List (TaskResult ProcessedIssue))
    → weigh_results weight rs ≡ weigh_ids weight (fetched_ids rs) + weigh_ids weight (failed_ids rs)
unfolding fetched_ids failed_ids
weigh-parts weight [] = omega arith
weigh-parts weight (r ∷ rs) =
    weigh_one weight r.task_id r.outcome (fetched_ids rs) (failed_ids rs) _ (weigh-parts weight rs)

-- If a pool with at least one worker is given the tasks of a page and comes to its end without a
-- cancellation, its results closed and drained, the keys of the page are exactly those whose issue
-- was fetched and those whose fetch failed, each equally often (in every weight of keys).
pub page_accounted :
    {n q : ℕ} {s : Pool IssueTaskPayload ProcessedIssue} (weight : String → ℕ) (project_id : ℤ)
    (page : List Issue)
    → Reach n q s
    → 0 < n
    → s.cancelled ≡ false
    → s.results_open ≡ false
    → s.results ≡ []
    → s.submitted ≡ submitted_after (page_tasks project_id page) []
    → weigh_keys weight page
      ≡ weigh_ids weight (fetched_ids s.received) + weigh_ids weight (failed_ids s.received)
page_accounted {s} weight project_id page r some_workers calm closed empty given = omega (
  arith,
  every_task_answered weight r some_workers calm closed empty,
  weigh-parts weight s.received,
  weigh-submitted weight (page_tasks project_id page) [],
  weigh-page weight project_id page,
  ap (weigh_ids weight) given,
)

one-length :
    (id : String) (o : Result ProcessedIssue) (xs : List ProcessedIssue) (ids : List String)
    → length xs ≡ length ids
    → length (collect_one o xs) ≡ length (fetched_one id o ids)
one-length id (ok item) xs ids e = ap suc e
one-length id (err x) xs ids e = e

-- Exactly one issue is collected for each result that is no error.
pub collect-length :
    (rs : List (TaskResult ProcessedIssue)) → length (collect rs) ≡ length (fetched_ids rs)
unfolding collect fetched_ids
collect-length [] = refl
collect-length (r ∷ rs) =
    one-length r.task_id r.outcome (collect rs) (fetched_ids rs) (collect-length rs)
