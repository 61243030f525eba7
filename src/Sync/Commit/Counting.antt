-- ===== src/Sync/Commit/Counting.antt =====
-- internal/service/sync/sync.go, `commitPage`: the progress counters.
use jira_connector.Base.{
  ℕ, zero, suc, ◌≤◌, ◌≡◌, refl, String, Option, none, some, List, [], ◌∷◌, length, arith,
  Option-cases, inl, inr,
}
use jira_connector.GoError.{GoError}
use jira_connector.Mapper.{Codec}
use jira_connector.Repo.{Database, Querier, db, tx, began, close_tx, in_tx, new_tx, commit_tx}
use jira_connector.Sync.{Service}
use jira_connector.Sync.Authors.{ProcessedIssue}
use jira_connector.Sync.Commit.{counted, next_item, commit_items, page_result, commit_page}

module _ (codec : Codec) {D : Type 0} (base : Database codec.Time D) where
  -- The counters after so many issues.
  abbrev pub counted_times : ℕ → String → Service → Service
  counted_times zero id s = s
  counted_times (suc n) id s = counted_times n id (counted codec base id s)

  -- How far the counters have moved: by the whole page if there was no error.
  abbrev pub Advanced : ℕ → String → Service → Option GoError × Service × D → Type 0
  Advanced len id s (none, s', d) = s' ≡ counted_times len id s
  Advanced len id s (some e, s', d) = (n : ℕ) × (suc n ≤ len) × (s' ≡ counted_times n id s)

  Advanced-suc :
      (len : ℕ) (id : String) (s : Service) (r : Option GoError × Service × D)
      → Advanced len id (counted codec base id s) r
      → Advanced (suc len) id s r
  Advanced-suc len id s (none, s', d) h = h
  Advanced-suc len id s (some e, s', d) (n, less, same) = (suc n, omega arith, same)

  next_item-Advanced :
      (len : ℕ) (id : String) (more : Service → D → Option GoError × Service × D) (s : Service)
      (p : Option GoError × D)
      → ((s : Service) (d : D) → Advanced len id s (more s d))
      → Advanced (suc len) id s (next_item codec base id more s p)
  next_item-Advanced len id more s (some e, d) go = (0, omega arith, refl)
  next_item-Advanced len id more s (none, d) go =
      Advanced-suc len id s _ (go (counted codec base id s) d)

  commit_items-Advanced :
      (id : String) (items : List ProcessedIssue) (q : Querier) (s : Service) (d : D)
      → Advanced (length items) id s (commit_items codec base id items q s d)
  unfolding commit_items
  commit_items-Advanced id [] q s d = refl
  commit_items-Advanced id (item ∷ items) q s d =
      next_item-Advanced (length items) id (commit_items codec base id items q) s _
        (λ s' d'. commit_items-Advanced id items q s' d')

  -- On success the counters have moved by the number of issues on the page.
  abbrev pub CountsPage : ℕ → String → Service → Option GoError × Service × D → Type 0
  CountsPage len id s (none, s', d) = s' ≡ counted_times len id s
  CountsPage len id s (some e, s', d) = Unit

  close_tx-Counts :
      (len : ℕ) (id : String) (s : Service) (r : Option GoError × Service × D)
      → Advanced len id s r
      → CountsPage len id s (page_result codec base (close_tx base tx r))
  close_tx-Counts len id s (some e, s', d) h = tt
  close_tx-Counts len id s (none, s', d) h = elim (Option-cases (commit_tx base tx d).0) [
    | inl e ↦ rw e h
    | inr (x, e) ↦ rw e tt
  ]

  in_tx-Counts :
      (id : String) (items : List ProcessedIssue) (s : Service) (p : Option GoError × D)
      → CountsPage
          (length items)
          id
          s
          (page_result codec base (in_tx base (commit_items codec base id items) s (began p)))
  in_tx-Counts id items s (some e, d) = tt
  in_tx-Counts id items s (none, d) =
      close_tx-Counts (length items) id s _ (commit_items-Advanced id items tx s d)

  -- Whenever commitPage succeeds on a database handle, the job's counter and the metric of processed
  -- issues have moved by exactly the number of issues on the page.
  pub commit_page-counts :
      (id : String) (items : List ProcessedIssue) (s : Service) (d : D)
      → CountsPage (length items) id s (commit_page codec base db id items s d)
  unfolding commit_page new_tx
  commit_page-counts id items s d = in_tx-Counts id items s (base.begin d)
