-- ===== src/Sync/Commit/Atomic.antt =====
-- internal/service/sync/sync.go, `commitPage`: what the database stores after a page.
use jira_connector.Base.{
  ◌≡◌, refl, ◌∙◌, String, Option, none, some, List, [], ◌∷◌, Bool-cases, inl, inr,
}
use jira_connector.Base.Int.{ℤ}
use jira_connector.GoError.{GoError, Result, ok, err}
use jira_connector.Jira.{Author}
use jira_connector.Raw
use jira_connector.Mapper.{Codec, map_author_to_raw}
use jira_connector.Repo.{
  Database, Querier, tx, insert_author_row, insert_issue_row, delete_status_changes,
  insert_status_change_row,
}
use jira_connector.Repo.Transactions.{IsTransactional, Unchanged, with_transaction-atomic}
use jira_connector.Sync.{Service}
use jira_connector.Sync.Authors.{ProcessedIssue}
use jira_connector.Sync.Commit.{
  author_failure, next_author, insert_authors, insert_changes, after_delete, after_issue,
  insert_row, after_authors, insert_processed_issue, next_item, commit_items, page_result,
  commit_page,
}

module _ (codec : Codec) {D V : Type 0} (base : Database codec.Time D) (stored : D → V)
    (laws : IsTransactional base stored) where
  open codec use {Time}

  next_author-keeps :
      (v : V) (name : String) (more : D → Option GoError × D) (p : Option GoError × D)
      → stored p.1 ≡ v
      → ((d : D) → stored d ≡ v → stored (more d).1 ≡ v)
      → stored (next_author codec base name more p).1 ≡ v
  next_author-keeps v name more (e, d) h go = elim (Bool-cases (author_failure e)) [
    | inl f ↦ rw f h
    | inr f ↦ rw f (go d h)
  ]

  insert_authors-keeps :
      (v : V) (as' : List Author) (d : D)
      → stored d ≡ v
      → stored (insert_authors codec base tx as' d).1 ≡ v
  unfolding insert_authors insert_author_row
  insert_authors-keeps v [] d h = h
  insert_authors-keeps v (a ∷ as') d h =
      next_author-keeps v a.name (insert_authors codec base tx as')
        (insert_author_row base tx (map_author_to_raw a) d) (laws.exec_keeps _ _ d ∙ h)
        (λ d' h'. insert_authors-keeps v as' d' h')

  insert_changes-keeps :
      (v : V) (chs : List (Raw.StatusChange Time)) (d : D)
      → stored d ≡ v
      → stored (insert_changes codec base tx chs d) ≡ v
  unfolding insert_changes insert_status_change_row
  insert_changes-keeps v [] d h = h
  insert_changes-keeps v (ch ∷ chs) d h =
      insert_changes-keeps v chs (insert_status_change_row base tx ch d).1
        (laws.exec_keeps _ _ d ∙ h)

  after_delete-keeps :
      (v : V) (item : ProcessedIssue) (id : ℤ) (p : Option GoError × D)
      → stored p.1 ≡ v
      → stored (after_delete codec base tx item id p).1 ≡ v
  after_delete-keeps v item id (some e, d) h = h
  after_delete-keeps v item id (none, d) h = insert_changes-keeps v _ d h

  after_issue-keeps :
      (v : V) (item : ProcessedIssue) (id : ℤ) (p : Option GoError × D)
      → stored p.1 ≡ v
      → stored (after_issue codec base tx item id p).1 ≡ v
  unfolding delete_status_changes
  after_issue-keeps v item id (some e, d) h = h
  after_issue-keeps v item id (none, d) h =
      after_delete-keeps v item id _ (laws.exec_keeps _ _ d ∙ h)

  insert_row-keeps :
      (v : V) (item : ProcessedIssue) (r : Result (Raw.Issue Time)) (d : D)
      → stored d ≡ v
      → stored (insert_row codec base tx item r d).1 ≡ v
  unfolding insert_issue_row
  insert_row-keeps v item (err e) d h = h
  insert_row-keeps v item (ok row) d h =
      after_issue-keeps v item row.id _ (laws.exec_keeps _ _ d ∙ h)

  after_authors-keeps :
      (v : V) (item : ProcessedIssue) (p : Option GoError × D)
      → stored p.1 ≡ v
      → stored (after_authors codec base tx item p).1 ≡ v
  after_authors-keeps v item (some e, d) h = h
  after_authors-keeps v item (none, d) h = insert_row-keeps v item _ d h

  next_item-keeps :
      (v : V) (id : String) (more : Service → D → Option GoError × Service × D) (s : Service)
      (p : Option GoError × D)
      → stored p.1 ≡ v
      → ((s : Service) (d : D) → stored d ≡ v → stored (more s d).2 ≡ v)
      → stored (next_item codec base id more s p).2 ≡ v
  next_item-keeps v id more s (some e, d) h go = h
  next_item-keeps v id more s (none, d) h go = go _ d h

  commit_items-keeps :
      (v : V) (id : String) (items : List ProcessedIssue) (s : Service) (d : D)
      → stored d ≡ v
      → stored (commit_items codec base id items tx s d).2 ≡ v
  unfolding commit_items insert_processed_issue
  commit_items-keeps v id [] s d h = h
  commit_items-keeps v id (item ∷ items) s d h =
      next_item-keeps v id (commit_items codec base id items tx) s
        (insert_processed_issue codec base tx item d)
        (after_authors-keeps v item (insert_authors codec base tx item.authors d)
          (insert_authors-keeps v item.authors d h))
        (λ s' d' h'. commit_items-keeps v id items s' d' h')

  -- What a page leaves in the database if it returns an error.
  abbrev pub PageUnchanged : V → Option GoError × Service × D → Type 0
  PageUnchanged v (none, s, d) = Unit
  PageUnchanged v (some e, s, d) = stored d ≡ v

  page_result-Unchanged :
      (v : V) (r : Option GoError × Service × D)
      → Unchanged {S = Service} base stored laws v r
      → PageUnchanged v (page_result codec base r)
  page_result-Unchanged v (none, s, d) h = tt
  page_result-Unchanged v (some e, s, d) h = h

  -- Over a database of which only a successful commit changes what is stored: whenever commitPage
  -- returns an error, whichever of its statements failed, or the commit, the database stores what it
  -- stored before the page.
  pub commit_page-atomic :
      (q : Querier) (id : String) (items : List ProcessedIssue) (s : Service) (d : D)
      → PageUnchanged (stored d) (commit_page codec base q id items s d)
  unfolding commit_page
  commit_page-atomic q id items s d = page_result-Unchanged (stored d) _ (
      with_transaction-atomic base stored laws (commit_items codec base id items)
        (λ s d. commit_items-keeps (stored d) id items s d refl) q s d)
