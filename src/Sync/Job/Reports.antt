-- ===== src/Sync/Job/Reports.antt =====
-- internal/service/sync/sync.go: what the processing of a page does to the registry.
use jira_connector.Base.{ℕ, ◌≡◌, refl, String, Option, none, some, List, [], ◌∷◌}
use jira_connector.Base.Int.{ℤ}
use jira_connector.GoError.{GoError, Result, ok, err}
use jira_connector.Jira.{Issue}
use jira_connector.Mapper.{Codec}
use jira_connector.Repo.{Database, Querier, close_tx, in_tx, new_tx, with_transaction}
use jira_connector.Manager.{Manager, set_total, incr_processed}
use jira_connector.Sync.{Service}
use jira_connector.Sync.Authors.{ProcessedIssue}
use jira_connector.Sync.Commit.{
  next_item, commit_items, page_result, commit_page, insert_processed_issue, counted,
}
use jira_connector.Sync.Fetching.{RunPool, process_page, commit_fetched}

-- What a job does to the registry while it runs: it reports its total and its progress.
pub data Reports (id : String) (m : Manager) : Manager → Type 0 where
  still : Reports id m m
  total : {m' : Manager} (n : ℕ) → Reports id m m' → Reports id m (set_total id n m')
  progress : {m' : Manager} → Reports id m m' → Reports id m (incr_processed id m')

pub Reports-trans :
    {id : String} {a b c : Manager} → Reports id a b → Reports id b c → Reports id a c
Reports-trans r still = r
Reports-trans r (total n s) = total n (Reports-trans r s)
Reports-trans r (progress s) = progress (Reports-trans r s)

module _ (codec : Codec) {D : Type 0} (base : Database codec.Time D) (id : String) where
  next_item-Reports :
      (go : Service → D → Option GoError × Service × D) (s : Service) (p : Option GoError × D)
      → ((s : Service) (d : D) → Reports id s.manager (go s d).1.manager)
      → Reports id s.manager (next_item codec base id go s p).1.manager
  next_item-Reports go s (some e, d) h = still
  next_item-Reports go s (none, d) h =
      Reports-trans (progress still) (h (counted codec base id s) d)

  commit_items-Reports :
      (items : List ProcessedIssue) (q : Querier) (s : Service) (d : D)
      → Reports id s.manager (commit_items codec base id items q s d).1.manager
  unfolding commit_items
  commit_items-Reports [] q s d = still
  commit_items-Reports (item ∷ items) q s d =
      next_item-Reports (commit_items codec base id items q) s
        (insert_processed_issue codec base q item d) (λ s' d'. commit_items-Reports items q s' d')

  close_tx-service :
      (q : Querier) (r : Option GoError × Service × D)
      → (page_result codec base (close_tx base q r)).1 ≡ r.1
  close_tx-service q (none, s, d) = refl
  close_tx-service q (some e, s, d) = refl

  in_tx-Reports :
      (items : List ProcessedIssue) (s : Service) (p : Result Querier × D)
      → Reports id s.manager
          (page_result codec base (in_tx base (commit_items codec base id items) s p)).1.manager
  in_tx-Reports items s (err e, d) = still
  in_tx-Reports items s (ok q, d) =
      rw (close_tx-service q (commit_items codec base id items q s d))
        (commit_items-Reports items q s d)

  pub commit_page-Reports :
      (q : Querier) (items : List ProcessedIssue) (s : Service) (d : D)
      → Reports id s.manager (commit_page codec base q id items s d).1.manager
  unfolding commit_page with_transaction
  commit_page-Reports q items s d = in_tx-Reports items s (new_tx base q d)

module _ (codec : Codec) {W D : Type 0} (base : Database codec.Time D) (run : RunPool W)
    (id : String) where
  commit_fetched-Reports :
      (q : Querier) (s : Service) (r : Result (List ProcessedIssue) × W) (d : D)
      → Reports id s.manager (commit_fetched codec base run q id s r d).1.manager
  commit_fetched-Reports q s (err e, w) d = still
  commit_fetched-Reports q s (ok items, w) d = commit_page-Reports codec base id q items s d

  pub process_page-Reports :
      (q : Querier) (project_id : ℤ) (page : List Issue) (s : Service) (w : W) (d : D)
      → Reports id s.manager (process_page codec base run q id project_id page s w d).1.manager
  unfolding process_page
  process_page-Reports q project_id page s w d = commit_fetched-Reports q s _ d
