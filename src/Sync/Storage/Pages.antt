-- ===== src/Sync/Storage/Pages.antt =====
-- internal/service/sync/sync.go, `commitPage` over the tables.
use jira_connector.Base.{
  ◌≡◌, refl, ap, ◌∙◌, String, true, Option, none, some, List, [], ◌∷◌, inl, inr, All, length,
}
use jira_connector.Base.Int.{ℤ}
use jira_connector.Jira.{Author}
use jira_connector.Raw
use jira_connector.Mapper.{Codec, hash_id, map_changelog_to_raw}
use jira_connector.Repo.{tx}
use jira_connector.Repo.Postgres.{Tables, Server, exists, postgres}
use jira_connector.Sync.Authors.{ProcessedIssue}
use jira_connector.Sync.Authors.Tracking.{Has}
use jira_connector.Sync.Commit.{insert_processed_issue}
use jira_connector.Sync.Storage.{live, put_authors, row_of, store, IsStorable}
use jira_connector.Sync.Storage.Authors.{put_authors-exists}
use jira_connector.Sync.Storage.Statements.{put_row_twice}
use jira_connector.Sync.Storage.Issues.{insert_processed_issue-stores}
use jira_connector.Sync.Storage.{store_all}
use jira_connector.Sync.Commit.{commit_items, commit_page, counted}
use jira_connector.Sync.Commit.Counting.{counted_times}
use jira_connector.Sync.{Service}
use jira_connector.Repo.{db, with_transaction, new_tx, commit_tx}
use jira_connector.Repo.Postgres.{commit}

put_authors-same :
    (as' : List Author) (f : ℤ → Option Raw.Author)
    → ((name : String) → Has name as' → exists (f (hash_id name)) ≡ true)
    → put_authors as' f ≡ f
put_authors-same [] f h = refl
put_authors-same (a ∷ as') f h =
    rw (h a.name (inl refl)) (put_authors-same as' f (λ n m. h n (inr m)))

store_twice :
    (codec : Codec) (item : ProcessedIssue) (t : Tables codec.Time)
    → store codec item (store codec item t) ≡ store codec item t
store_twice codec item t =
    let f = put_authors item.authors t.author in
    let id = (row_of codec item).id in
    rw
      (
        put_authors-same item.authors f (λ n m. put_authors-exists n item.authors t.author m),
        put_row_twice id (some (row_of codec item)) (some (row_of codec item)) t.issue,
        put_row_twice id (map_changelog_to_raw codec item.jira_issue id)
            (map_changelog_to_raw codec item.jira_issue id) t.changes,
      )
      refl

module _ (codec : Codec) (project : ℤ → Option Raw.Project) where
  open codec use {Time}

  -- Storing an issue again, as the next sync of its project does, succeeds and changes nothing.
  pub insert_processed_issue-again :
      (item : ProcessedIssue)
      → IsStorable codec project item
      → (c t : Tables Time) → t.project ≡ project
      → let d = (insert_processed_issue codec postgres tx item (live c t)).1 in
        insert_processed_issue codec postgres tx item d ≡ (none, d)
  insert_processed_issue-again item h c t same =
      rw (insert_processed_issue-stores codec project item h c t same) (
        insert_processed_issue-stores codec project item h c (store codec item t) same
        ∙ ap (λ t'. (none, live c t')) (store_twice codec item t))

  commit_items-stores :
      (id : String) (items : List ProcessedIssue) (s : Service) (c t : Tables Time)
      → All (IsStorable codec project) items
      → t.project ≡ project
      → commit_items codec postgres id items tx s (live c t)
        ≡ (none, counted_times codec postgres (length items) id s, live c (store_all codec items t))
  unfolding commit_items
  commit_items-stores id [] s c t h same = refl
  commit_items-stores id (item ∷ items) s c t h same =
      rw (insert_processed_issue-stores codec project item h.0 c t same)
        (commit_items-stores id items (counted codec postgres id s) c (store codec item t) h.1 same)

  -- A page of storable issues of a stored project is stored: commitPage succeeds, the database then
  -- stores what it stored before with each issue of the page stored in turn, and the counters have
  -- moved by the number of issues.
  pub commit_page-stores :
      (id : String) (items : List ProcessedIssue) (s : Service) (d : Server Time)
      → All (IsStorable codec project) items
      → d.committed.project ≡ project
      → let r = commit_page codec postgres db id items s d in
        (r.0 ≡ none)
        × (r.1 ≡ counted_times codec postgres (length items) id s)
        × (r.2.committed ≡ store_all codec items d.committed)
  unfolding commit_page with_transaction new_tx commit_tx commit
  commit_page-stores id items s d h same =
      rw (commit_items-stores id items s d.committed d.committed h same) (refl, refl, refl)
