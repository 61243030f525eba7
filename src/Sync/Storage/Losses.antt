-- ===== src/Sync/Storage/Losses.antt =====
-- internal/service/sync/sync.go, `insertProcessedIssue` and `commitPage`: a status change that the
-- database refuses.
use jira_connector.Base.{
  ◌≡◌, refl, String, true, false, Option, none, some, List, [], ◌∷◌, ◌++◌, ◌⊎◌, inl, inr, arith,
  All, Bool-cases,
}
use jira_connector.Base.Int.{ℤ}
use jira_connector.GoError.{GoError, Result, ok, err, wrap, as_pg_error}
use jira_connector.Jira.{Author}
use jira_connector.Raw
use jira_connector.Mapper.{Codec, map_issue_to_raw, map_changelog_to_raw}
use jira_connector.Repo.{
  tx, insert_status_change_row, insert_issue_row, is_unique_violation, rollback_tx,
}
use jira_connector.Repo.Postgres.{
  Tables, Server, fits_int4, exists, put_row, change_fits, exec, run_statement, postgres,
}
use jira_connector.Sync.Authors.{ProcessedIssue}
use jira_connector.Sync.Commit.{
  insert_changes, insert_authors, insert_row, after_authors, insert_processed_issue,
}
use jira_connector.Sync.Storage.{live, put_authors, row_of, IsInsertable}
use jira_connector.Sync.Storage.Authors.{fits-int4, insert_authors-live}
use jira_connector.Sync.Storage.Statements.{
  int_arg-opt_text, insert_issue-live, insert_change-live, delete_changes-live,
}
use jira_connector.Sync.Commit.{commit_items, commit_page, counted}
use jira_connector.Sync.{Service}
use jira_connector.Mapper.Rows.{IsChangeOf, map_changelog_to_raw-refs}
use jira_connector.Repo.{db, with_transaction, new_tx, commit_tx}
use jira_connector.Repo.Postgres.{commit}
use jira_connector.Mapper.{map_author_to_raw}
use jira_connector.Repo.{close_tx, insert_author_row}
use jira_connector.Sync.Commit.{page_result}
use jira_connector.Sync.Storage.Statements.{insert_change-live}
use jira_connector.Sync.Storage.Issues.{row-fits, mapped}

-- A server inside a transaction of which a statement has failed.
abbrev pub stale : {Time : Type 0} → Tables Time → Tables Time → Server Time
stale c t = record { committed = c; working = t; aborted = true }

-- Some change is by an author without a row.
abbrev pub SomeRefused :
    {Time : Type 0} → (ℤ → Option Raw.Author) → List (Raw.StatusChange Time) → Type 0
SomeRefused author [] = ⊥
SomeRefused author (ch ∷ chs) = (exists (author ch.author_id) ≡ false) ⊎ SomeRefused author chs

module _ (codec : Codec) where
  open codec use {Time}

  unknown_author :
      (ch : Raw.StatusChange Time) (t : Tables Time)
      → exists (t.author ch.author_id) ≡ false
      → change_fits ch t ≡ false
  unknown_author ch t h = ground arith

  -- The driver can send the ids of the change.
  abbrev HasInts : Raw.StatusChange Time → Type 0
  HasInts ch = (fits_int4 ch.issue_id ≡ true) × (fits_int4 ch.author_id ≡ true)

  insert_change-refused :
      (ch : Raw.StatusChange Time) (c t : Tables Time)
      → HasInts ch
      → change_fits ch t ≡ false
      → (insert_status_change_row postgres tx ch (live c t)).1 ≡ stale c t
  unfolding insert_status_change_row exec run_statement
  insert_change-refused ch c t (issue, author) h =
      rw
        (int_arg-opt_text Time ch.from_status, int_arg-opt_text Time ch.to_status, h, issue, author)
        refl

  insert_changes-stale :
      (chs : List (Raw.StatusChange Time)) (c t : Tables Time)
      → insert_changes codec postgres tx chs (stale c t) ≡ stale c t
  unfolding insert_changes insert_status_change_row exec
  insert_changes-stale [] c t = refl
  insert_changes-stale (ch ∷ chs) c t = insert_changes-stale chs c t

  insert_changes-refused :
      (chs : List (Raw.StatusChange Time)) (c t : Tables Time)
      → All HasInts chs
      → SomeRefused t.author chs
      → (t' : Tables Time) × (insert_changes codec postgres tx chs (live c t) ≡ stale c t')
  unfolding insert_changes
  insert_changes-refused [] c t ints h = absurd h
  insert_changes-refused (ch ∷ chs) c t ints h = elim (Bool-cases (change_fits ch t)) [
    | inr e ↦ (t, rw (insert_change-refused ch c t ints.0 e) (insert_changes-stale chs c t))
    | inl e ↦
        let t'' : Tables Time = record t {
          changes = put_row ch.issue_id (t.changes ch.issue_id ++ ch ∷ []) t.changes;
        } in
        let (t', r) = insert_changes-refused chs c t'' ints.1 (later h e) in
        (t', rw (insert_change-live codec ch c t e) r)
  ]
    where
      later :
          (exists (t.author ch.author_id) ≡ false) ⊎ SomeRefused t.author chs
          → change_fits ch t ≡ true
          → SomeRefused t.author chs
      later (inr h) e = h
      later (inl h) e = absurd (cc (unknown_author ch t h, e))

  changes-HasInts :
      (id : ℤ)
      → fits_int4 id ≡ true
      → (chs : List (Raw.StatusChange Time)) → All (IsChangeOf codec id) chs
      → All HasInts chs
  changes-HasInts id fit [] a = tt
  changes-HasInts id fit (ch ∷ chs) ((same, author), a) =
      ((rw same fit, fits-int4 ch.author_id author), changes-HasInts id fit chs a)

  -- An issue in such a transaction.
  abbrev Refuses : Option GoError × Server Time → Server Time → Type 0
  Refuses r d = (e : GoError) × (r ≡ (some e, d))

  insert_row-stale :
      (item : ProcessedIssue) (r : Result (Raw.Issue Time)) (c t : Tables Time)
      → Refuses (insert_row codec postgres tx item r (stale c t)) (stale c t)
  unfolding insert_issue_row exec is_unique_violation as_pg_error
  insert_row-stale item (err e) c t = (wrap "map issue" e, refl)
  insert_row-stale item (ok row) c t = (_, refl)

  authors-stale :
      (item : ProcessedIssue) (as' : List Author) (c t : Tables Time)
      → Refuses
          (after_authors codec postgres tx item (insert_authors codec postgres tx as' (stale c t)))
          (stale c t)
  unfolding insert_authors insert_author_row exec is_unique_violation as_pg_error map_author_to_raw
  authors-stale item [] c t =
      insert_row-stale item (map_issue_to_raw codec item.jira_issue item.project_id item.fields) c t
  authors-stale item (a ∷ as') c t = (_, refl)

  -- A page in such a transaction ends with an error, at the latest when it is committed.
  close-stale :
      (id : String) (items : List ProcessedIssue) (s : Service) (c t : Tables Time)
      → let r =
          page_result codec postgres
            (close_tx postgres tx (commit_items codec postgres id items tx s (stale c t))) in
        ((e : GoError) × (r.0 ≡ some e)) × (r.2.committed ≡ c)
  unfolding commit_items insert_processed_issue commit_tx rollback_tx commit
  close-stale id [] s c t = ((_, refl), refl)
  close-stale id (item ∷ items) s c t =
      let (e, refused) = authors-stale item item.authors c t in rw refused ((_, refl), refl)

  row-poisoned :
      (project : ℤ → Option Raw.Project) (item : ProcessedIssue)
      → IsInsertable codec project item
      → (c t : Tables Time) → t.project ≡ project
      → SomeRefused
          (put_authors item.authors t.author)
          (map_changelog_to_raw codec item.jira_issue (row_of codec item).id)
      → (t' : Tables Time) × (insert_processed_issue codec postgres tx item (live c t)
          ≡ (none, stale c t'))
  unfolding insert_processed_issue
  row-poisoned project item h c t same lost =
      let row = row_of codec item in
      let t₁ : Tables Time = record t { author = put_authors item.authors t.author } in
      let t₂ : Tables Time = record t₁ { issue = put_row row.id (some row) t₁.issue } in
      let t₃ : Tables Time = record t₂ { changes = put_row row.id [] t₂.changes } in
      let (t', r) =
        insert_changes-refused (map_changelog_to_raw codec item.jira_issue row.id) c t₃
          (changes-HasInts row.id h.id_fits _
            (map_changelog_to_raw-refs codec item.jira_issue row.id))
          lost in
      (
        t',
        rw
            (
              insert_authors-live codec item.authors c t,
              mapped codec project item h,
              insert_issue-live codec row c t₁ (row-fits codec project item h t same),
              delete_changes-live codec row.id c t₂ h.id_fits,
              r,
            )
            refl,
      )

  -- The insertion of a status change is meant to be allowed to fail. But if the first issue of a page
  -- can be inserted and one of its status changes is by an author who has no row (one without a name,
  -- say), then commitPage returns an error and stores nothing of the page: the refused statement has
  -- aborted the transaction.
  pub refused_change-loses_page :
      (id : String) (item : ProcessedIssue) (items : List ProcessedIssue) (s : Service)
      (d : Server Time)
      → IsInsertable codec d.committed.project item
      → SomeRefused
          (put_authors item.authors d.committed.author)
          (map_changelog_to_raw codec item.jira_issue (row_of codec item).id)
      → let r = commit_page codec postgres db id (item ∷ items) s d in
        ((e : GoError) × (r.0 ≡ some e)) × (r.2.committed ≡ d.committed)
  unfolding commit_page with_transaction new_tx commit_items
  refused_change-loses_page id item items s d h lost =
      let (t', r) = row-poisoned d.committed.project item h d.committed d.committed refl lost in
      rw r (close-stale id items (counted codec postgres id s) d.committed t')
