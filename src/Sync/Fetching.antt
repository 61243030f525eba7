-- ===== src/Sync/Fetching.antt =====
-- internal/service/sync/sync.go, `fetchPageIssues` and `processPage`: the issues of a page go through
-- a worker pool, and what comes back is committed. What a run of the pool gives is a parameter here;
-- the pool itself is in WorkerPool. Logging is left out.
pub mod Accounts
pub mod Pages
use jira_connector.Base.{String, Option, none, some, List, [], ◌∷◌}
use jira_connector.Base.Int.{ℤ}
use jira_connector.Base.Text.{append}
use jira_connector.GoError.{GoError, wrap, Result, ok, err}
use jira_connector.Jira.{Issue, SearchResponse}
use jira_connector.Mapper.{Codec}
use jira_connector.Repo.{Database, Querier}
use jira_connector.WorkerPool.{Task, TaskResult}
use jira_connector.Sync.{Service}
use jira_connector.Sync.Authors.{ProcessedIssue}
use jira_connector.Sync.Commit.{commit_page}
use jira_connector.Sync.Paging.{Calls}

pub record IssueTaskPayload : Type 0 where
  pub issue_key : String
  pub project_id : ℤ

unfoldable pub page_tasks : ℤ → List Issue → List (Task IssueTaskPayload)
page_tasks project_id [] = []
page_tasks project_id (i ∷ is') =
    record { id = i.key; payload = record { issue_key = i.key; project_id = project_id } }
    ∷ page_tasks project_id is'

-- The loop over the results, in the order in which they arrive: a failed fetch is passed over.
abbrev pub collect_one : Result ProcessedIssue → List ProcessedIssue → List ProcessedIssue
collect_one (err e) rest = rest
collect_one (ok item) rest = item ∷ rest

unfoldable pub collect : List (TaskResult ProcessedIssue) → List ProcessedIssue
collect [] = []
collect (r ∷ rs) = collect_one r.outcome (collect rs)

-- A run of the pool on the tasks of a page: the key whose Submit failed, with its error, if there is
-- one, and the results in the order of their arrival.
pub record PoolRun : Type 0 where
  pub refused : Option (String × GoError)
  pub results : List (TaskResult ProcessedIssue)

abbrev pub RunPool : Type 0 → Type 0
RunPool W = List (Task IssueTaskPayload) → W → PoolRun × W

abbrev pub waited :
    Option (String × GoError) → List (TaskResult ProcessedIssue) → Result (List ProcessedIssue)
waited (some (key, e)) rs = err (wrap "fetch page" (wrap (append "submit " key) e))
waited none rs = ok (collect rs)

unfoldable pub fetch_page_issues :
    {W : Type 0} → RunPool W → ℤ → List Issue → W → Result (List ProcessedIssue) × W
unfolding page_tasks collect
fetch_page_issues run project_id page w =
    let (p, w') = run (page_tasks project_id page) w in (waited p.refused p.results, w')

module _ (codec : Codec) {W D : Type 0} (base : Database codec.Time D) (run : RunPool W) where
  abbrev pub commit_fetched :
      Querier
      → String
      → Service
      → Result (List ProcessedIssue) × W
      → D
      → Option GoError × Service × W × D
  commit_fetched q sync_id s (err e, w) d = (some e, s, w, d)
  commit_fetched q sync_id s (ok collected, w) d =
      let (e, s', d') = commit_page codec base q sync_id collected s d in (e, s', w, d')

  unfoldable pub process_page :
      Querier → String → ℤ → List Issue → Service → W → D → Option GoError × Service × W × D
  unfolding fetch_page_issues commit_page
  process_page q sync_id project_id page s w d =
      commit_fetched q sync_id s (fetch_page_issues run project_id page w) d

  -- What runSync calls: the context, the search of the client, and this processing of a page.
  abbrev pub sync_calls :
      (W → Option GoError)
      → (String → ℤ → ℤ → W → Result SearchResponse × W)
      → Querier
      → String
      → ℤ
      → Calls (W × D)
  sync_calls ctx_err search q sync_id project_id = record {
    cancelled = λ x. ctx_err x.0;
    search = λ jql start_at limit x. let (r, w') = search jql start_at limit x.0 in (r, (w', x.1));
    process_page = λ page s x.
        let (e, s', w', d') = process_page q sync_id project_id page s x.0 x.1 in (e, s', (w', d'));
  }
