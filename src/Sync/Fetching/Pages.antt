-- ===== src/Sync/Fetching/Pages.antt =====
-- internal/service/sync/sync.go, `processPage`: the database and the counters after a page.
use jira_connector.Base.{◌≡◌, refl, String, Option, none, List, length}
use jira_connector.Base.Int.{ℤ}
use jira_connector.GoError.{GoError, Result, ok, err}
use jira_connector.Jira.{Issue}
use jira_connector.Mapper.{Codec}
use jira_connector.Repo.{Database, Querier, db}
use jira_connector.Repo.Transactions.{IsTransactional}
use jira_connector.Sync.{Service}
use jira_connector.Sync.Authors.{ProcessedIssue}
use jira_connector.Sync.Commit.Atomic.{PageUnchanged, commit_page-atomic}
use jira_connector.Sync.Commit.Counting.{CountsPage, commit_page-counts}
use jira_connector.Sync.Fetching.Accounts.{fetched_ids, collect-length}
use jira_connector.Sync.Fetching.{
  PoolRun, RunPool, page_tasks, collect, fetch_page_issues, commit_fetched, process_page,
}

-- The result without the outside of the client.
abbrev pub without_world :
    {W D : Type 0} → Option GoError × Service × W × D → Option GoError × Service × D
without_world (e, s, w, d) = (e, s, d)

module _ (codec : Codec) {W D V : Type 0} (base : Database codec.Time D) (run : RunPool W)
    (stored : D → V) (laws : IsTransactional base stored) where
  commit_fetched-Unchanged :
      (q : Querier) (id : String) (s : Service) (p : Result (List ProcessedIssue) × W) (d : D)
      → PageUnchanged codec base stored laws
          (stored d)
          (without_world (commit_fetched codec base run q id s p d))
  commit_fetched-Unchanged q id s (err e, w) d = refl
  commit_fetched-Unchanged q id s (ok collected, w) d =
      commit_page-atomic codec base stored laws q id collected s d

  -- Over a database of which only a successful commit changes what is stored: whenever processPage
  -- returns an error, be it of the pool or of any statement, the database stores what it stored
  -- before the page.
  pub process_page-atomic :
      (q : Querier) (id : String) (project_id : ℤ) (page : List Issue) (s : Service) (w : W) (d : D)
      → PageUnchanged codec base stored laws
          (stored d)
          (without_world (process_page codec base run q id project_id page s w d))
  unfolding process_page
  process_page-atomic q id project_id page s w d =
      commit_fetched-Unchanged q id s (fetch_page_issues run project_id page w) d

module _ (codec : Codec) {W D : Type 0} (base : Database codec.Time D) (run : RunPool W) where
  -- If no Submit fails and processPage succeeds on a database handle, the counters have moved by the
  -- number of results that are no errors, which may be less than the page has issues.
  pub process_page-counts :
      (id : String) (project_id : ℤ) (page : List Issue) (s : Service) (w w' : W) (d : D)
      (p : PoolRun)
      → run (page_tasks project_id page) w ≡ (p, w')
      → p.refused ≡ none
      → CountsPage codec base
          (length (fetched_ids p.results))
          id
          s
          (without_world (process_page codec base run db id project_id page s w d))
  unfolding process_page fetch_page_issues
  process_page-counts id project_id page s w w' d p ran accepted =
      rw (ran, accepted, ← collect-length p.results)
        (commit_page-counts codec base id (collect p.results) s d)
