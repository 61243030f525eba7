-- ===== src/Sync/Storage/Overcount.antt =====
-- internal/service/sync/sync.go, `commitPage` over the tables: the progress counters of a page that is
-- not stored.
use jira_connector.Base.{
  ◌≡◌, refl, String, false, Option, some, List, [], ◌∷◌, ◌++◌, ◌⊎◌, inl, inr, All, length,
}
use jira_connector.Base.Int.{ℤ}
use jira_connector.GoError.{GoError, wrap, Result, ok, err}
use jira_connector.Raw
use jira_connector.Strconv.{parse_int}
use jira_connector.Mapper.{Codec, map_issue_to_raw}
use jira_connector.Repo.{db, tx, with_transaction, new_tx, rollback_tx}
use jira_connector.Repo.Postgres.{Tables, Server, postgres}
use jira_connector.Sync.{Service}
use jira_connector.Sync.Authors.{ProcessedIssue}
use jira_connector.Sync.Commit.{insert_processed_issue, commit_items, commit_page, counted}
use jira_connector.Sync.Commit.Counting.{counted_times}
use jira_connector.Sync.Storage.{live, put_authors, store, IsStorable}
use jira_connector.Sync.Storage.Authors.{insert_authors-live}
use jira_connector.Sync.Storage.Issues.{insert_processed_issue-stores}

Result-cases : {A : Type 0} (r : Result A) → ((a : A) × (r ≡ ok a)) ⊎ ((e : GoError) × (r ≡ err e))
Result-cases (ok a) = inl (a, refl)
Result-cases (err e) = inr (e, refl)

module _ (codec : Codec) where
  open codec use {Time}

  -- The id of the issue is not a number.
  abbrev pub IsUnnumbered : ProcessedIssue → Type 0
  IsUnnumbered item = (parse_int item.jira_issue.id).fine ≡ false

  unmapped :
      (item : ProcessedIssue)
      → IsUnnumbered item
      → (e : GoError) × (map_issue_to_raw codec item.jira_issue item.project_id item.fields ≡ err e)
  unfolding map_issue_to_raw
  unmapped item h =
      elim (Result-cases (codec.unmarshal_fields item.jira_issue.fields item.fields)) [
        | inl (fields, e) ↦ rw (e, h) (_, refl)
        | inr (x, e) ↦ rw e (_, refl)
      ]

  insert_processed_issue-fails :
      (item : ProcessedIssue) (c t : Tables Time)
      → IsUnnumbered item
      → (e : GoError) × (insert_processed_issue codec postgres tx item (live c t)
          ≡ (some e, live c (record t { author = put_authors item.authors t.author })))
  unfolding insert_processed_issue
  insert_processed_issue-fails item c t h =
      let (e, failed) = unmapped item h in
      (wrap "map issue" e, rw (insert_authors-live codec item.authors c t, failed) refl)

  commit_items-fails :
      (project : ℤ → Option Raw.Project) (id : String) (good : List ProcessedIssue)
      (bad : ProcessedIssue) (rest : List ProcessedIssue) (s : Service) (c t : Tables Time)
      → All (IsStorable codec project) good
      → t.project ≡ project
      → IsUnnumbered bad
      → (e : GoError) × (t' : Tables Time) × (commit_items codec postgres id
            (good ++ bad ∷ rest)
            tx
            s
            (live c t)
          ≡ (some e, counted_times codec postgres (length good) id s, live c t'))
  unfolding commit_items
  commit_items-fails project id [] bad rest s c t h same lacks =
      let (e, failed) = insert_processed_issue-fails bad c t lacks in
      (e, record t { author = put_authors bad.authors t.author }, rw failed refl)
  commit_items-fails project id (item ∷ good) bad rest s c t h same lacks =
      rw (insert_processed_issue-stores codec project item h.0 c t same) (
        commit_items-fails project id good bad rest (counted codec postgres id s) c
          (store codec item t) h.1 same lacks)

  -- If the issues of a page can be stored up to one whose id is not a number, then commitPage returns
  -- an error and stores nothing of the page; but the counters have moved by the number of the issues
  -- before that one, which the rollback has removed.
  pub failed_page-overcounts :
      (id : String) (good : List ProcessedIssue) (bad : ProcessedIssue) (rest : List ProcessedIssue)
      (s : Service) (d : Server Time)
      → All (IsStorable codec d.committed.project) good
      → IsUnnumbered bad
      → let r = commit_page codec postgres db id (good ++ bad ∷ rest) s d in
        ((e : GoError) × (r.0 ≡ some e))
        × (r.1 ≡ counted_times codec postgres (length good) id s)
        × (r.2.committed ≡ d.committed)
  unfolding commit_page with_transaction new_tx rollback_tx
  failed_page-overcounts id good bad rest s d h lacks =
      let (e, t', failed) =
        commit_items-fails d.committed.project id good bad rest s d.committed d.committed h refl
          lacks in
      rw failed ((_, refl), refl, refl)
