-- ===== src/Sync/Commit.antt =====
-- internal/service/sync/sync.go, `insertProcessedIssue` and `commitPage`: a page of issues is
-- written in one transaction. Logging is left out, with the reading of Status for it.
pub mod Atomic
pub mod Counting
use jira_connector.Base.{
  String, Bool, true, false, Option, none, some, List, [], ◌∷◌, not, if◌then◌else◌,
}
use jira_connector.Base.Int.{ℤ}
use jira_connector.Base.Text.{append}
use jira_connector.GoError.{GoError, wrap, is_error, err_author_already_exists, Result, ok, err}
use jira_connector.Jira.{Author}
use jira_connector.Raw
use jira_connector.Mapper.{Codec, map_author_to_raw, map_issue_to_raw, map_changelog_to_raw}
use jira_connector.Repo.{
  Database, Querier, insert_author_row, insert_issue_row, delete_status_changes,
  insert_status_change_row, with_transaction,
}
use jira_connector.Manager.{incr_processed}
use jira_connector.Metrics.{inc_issues_processed}
use jira_connector.Sync.{Service}
use jira_connector.Sync.Authors.{ProcessedIssue}

-- Is the error fatal for the author's insertion?
abbrev pub author_failure : Option GoError → Bool
author_failure none = false
author_failure (some e) = not (is_error err_author_already_exists e)

abbrev pub wrap_some : String → Option GoError → Option GoError
wrap_some prefix none = none
wrap_some prefix (some e) = some (wrap prefix e)

module _ (codec : Codec) {D : Type 0} (base : Database codec.Time D) where
  open codec use {Time}

  abbrev pub next_author :
      String → (D → Option GoError × D) → Option GoError × D → Option GoError × D
  next_author name more (e, d) =
      let rest = more d in
      if author_failure e then (wrap_some (append "author " name) e, d) else rest

  unfoldable pub insert_authors : Querier → List Author → D → Option GoError × D
  insert_authors q [] d = (none, d)
  insert_authors q (a ∷ as') d =
      next_author a.name (insert_authors q as') (insert_author_row base q (map_author_to_raw a) d)

  -- A failing insertion of a status change is logged and passed over.
  unfoldable pub insert_changes : Querier → List (Raw.StatusChange Time) → D → D
  insert_changes q [] d = d
  insert_changes q (ch ∷ chs) d = insert_changes q chs (insert_status_change_row base q ch d).1

  abbrev pub after_delete : Querier → ProcessedIssue → ℤ → Option GoError × D → Option GoError × D
  after_delete q item id (some e, d) =
      (some (wrap (append "reset status changes " item.jira_issue.key) e), d)
  after_delete q item id (none, d) =
      (none, insert_changes q (map_changelog_to_raw codec item.jira_issue id) d)

  abbrev pub after_issue : Querier → ProcessedIssue → ℤ → Option GoError × D → Option GoError × D
  after_issue q item id (some e, d) =
      (some (wrap (append "insert issue " item.jira_issue.key) e), d)
  after_issue q item id (none, d) = after_delete q item id (delete_status_changes base q id d)

  abbrev pub insert_row :
      Querier → ProcessedIssue → Result (Raw.Issue Time) → D → Option GoError × D
  insert_row q item (err e) d = (some (wrap "map issue" e), d)
  insert_row q item (ok row) d = after_issue q item row.id (insert_issue_row base q row d)

  abbrev pub after_authors : Querier → ProcessedIssue → Option GoError × D → Option GoError × D
  after_authors q item (some e, d) = (some e, d)
  after_authors q item (none, d) =
      insert_row q item (map_issue_to_raw codec item.jira_issue item.project_id item.fields) d

  unfoldable pub insert_processed_issue : Querier → ProcessedIssue → D → Option GoError × D
  unfolding insert_authors insert_changes
  insert_processed_issue q item d = after_authors q item (insert_authors q item.authors d)

  -- The counters of the job and of the metrics, one issue further.
  abbrev pub counted : String → Service → Service
  counted sync_id s = record {
    manager = incr_processed sync_id s.manager;
    mtr = inc_issues_processed s.mtr;
  }

  abbrev pub next_item :
      String
      → (Service → D → Option GoError × Service × D)
      → Service
      → Option GoError × D
      → Option GoError × Service × D
  next_item sync_id more s (some e, d) = (some e, s, d)
  next_item sync_id more s (none, d) = more (counted sync_id s) d

  -- The operation that commitPage hands to WithTransaction.
  unfoldable pub commit_items :
      String → List ProcessedIssue → Querier → Service → D → Option GoError × Service × D
  commit_items sync_id [] q s d = (none, s, d)
  commit_items sync_id (item ∷ items) q s d =
      next_item sync_id (commit_items sync_id items q) s (insert_processed_issue q item d)

  abbrev pub page_result : Option GoError × Service × D → Option GoError × Service × D
  page_result (e, s, d) = (wrap_some "commit page" e, s, d)

  unfoldable pub commit_page :
      Querier → String → List ProcessedIssue → Service → D → Option GoError × Service × D
  unfolding commit_items with_transaction
  commit_page q sync_id collected s d =
      page_result (with_transaction base q (commit_items sync_id collected) s d)
