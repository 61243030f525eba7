-- ===== src/Sync/Storage/Issues.antt =====
-- internal/service/sync/sync.go, `insertProcessedIssue` over the tables.
use jira_connector.Base.{
  ◌≡◌, refl, sym, ap, subst, String, true, false, Option, none, some, [], inl, inr, All, Bool-cases,
}
use jira_connector.Base.Int.{ℤ, pos, eqb_ℤ}
use jira_connector.Base.Text.{is_empty}
use jira_connector.GoError.{ok}
use jira_connector.Jira.{Changelog}
use jira_connector.Raw
use jira_connector.Mapper.{
  Codec, hash_id, assignee_id, int_ptr, map_issue_to_raw, map_changelog_to_raw,
}
use jira_connector.Repo.{tx}
use jira_connector.Repo.Postgres.{
  Tables, exists, refers, put_row, fits_nullable, issue_fits, postgres,
}
use jira_connector.Repo.Postgres.Laws.{put_row_self}
use jira_connector.Sync.Authors.{ProcessedIssue}
use jira_connector.Sync.Authors.Tracking.{Has}
use jira_connector.Sync.Authors.Complete.{Mentions, WroteChangelog, collect_authors_complete}
use jira_connector.Sync.Commit.{insert_row, insert_processed_issue}
use jira_connector.Sync.Storage.{
  live, put_authors, row_of, store, IsInsertable, IsStorable, HasNamedHistories,
}
use jira_connector.Sync.Storage.Authors.{hash-fits_int4, put_authors-exists, insert_authors-live}
use jira_connector.Sync.Storage.Statements.{insert_issue-live, delete_changes-live}
use jira_connector.Sync.Storage.Changes.{FitsTables, insert_changes-live, history_changes-fit}

assignee-fits : (name : String) → fits_nullable (assignee_id name) ≡ true
unfolding assignee_id int_ptr
assignee-fits String.[] = refl
assignee-fits (String.◌∷◌ a s) = elim (Bool-cases (eqb_ℤ (hash_id (String.◌∷◌ a s)) (pos 0))) [
  | inl e ↦ rw e refl
  | inr e ↦ rw e (hash-fits_int4 (String.◌∷◌ a s))
]

assignee-refers :
    (author : ℤ → Option Raw.Author) (name : String)
    → (is_empty name ≡ false → exists (author (hash_id name)) ≡ true)
    → refers author (assignee_id name) ≡ true
unfolding assignee_id int_ptr
assignee-refers author String.[] known = refl
assignee-refers author (String.◌∷◌ a s) known =
    elim (Bool-cases (eqb_ℤ (hash_id (String.◌∷◌ a s)) (pos 0))) [
      | inl e ↦ rw e refl
      | inr e ↦ rw e (known refl)
    ]

module _ (codec : Codec) (project : ℤ → Option Raw.Project) (item : ProcessedIssue)
    (h : IsInsertable codec project item) where
  open codec use {Time}

  -- Everyone whom the issue mentions has a row after the insertion of its authors.
  known :
      (f : ℤ → Option Raw.Author) (name : String)
      → is_empty name ≡ false
      → Mentions name item.jira_issue item.fields
      → exists (put_authors item.authors f (hash_id name)) ≡ true
  known f name named m = put_authors-exists name item.authors f (
      subst (λ as'. Has name as') (sym h.authors)
        (collect_authors_complete item.jira_issue item.fields name named m))

  pub row-fits :
      (t : Tables Time)
      → t.project ≡ project
      → issue_fits (row_of codec item) (record t { author = put_authors item.authors t.author })
        ≡ true
  row-fits t same =
      rw
        (
          same,
          h.id_fits,
          h.project_fits,
          hash-fits_int4 item.fields.creator.name,
          assignee-fits item.fields.assignee.name,
          h.spent_fits,
          h.project_stored,
          known t.author item.fields.creator.name h.created (inl refl),
          assignee-refers (put_authors item.authors t.author) item.fields.assignee.name
              (λ e. known t.author item.fields.assignee.name e (inr (inl refl))),
        )
        refl

  pub mapped :
      map_issue_to_raw codec item.jira_issue item.project_id item.fields ≡ ok (row_of codec item)
  unfolding map_issue_to_raw
  mapped = rw (h.decodes, h.numeric) refl

  changes-fit :
      (f : ℤ → Option Raw.Author) (id : ℤ) (log : Option Changelog)
      → item.jira_issue.changelog ≡ log
      → HasNamedHistories log
      → All
          (FitsTables codec (put_authors item.authors f) id)
          (map_changelog_to_raw codec item.jira_issue id)
  unfolding map_changelog_to_raw
  changes-fit f id none e named = rw e tt
  changes-fit f id (some log) e named = rw e (
      history_changes-fit codec (put_authors item.authors f) id log.histories
        (λ n q w. known f n q (inr (inr (subst (λ l. WroteChangelog n l) (sym e) w)))) named)

module _ (codec : Codec) (project : ℤ → Option Raw.Project) (item : ProcessedIssue)
    (h : IsStorable codec project item) where
  open codec use {Time}

  row-stored :
      (c t : Tables Time)
      → t.project ≡ project
      → let t' : Tables Time = record t { author = put_authors item.authors t.author } in
        insert_row codec postgres tx item (ok (row_of codec item)) (live c t')
        ≡ (none, live c (store codec item t))
  row-stored c t same =
      let row = row_of codec item in
      let t' : Tables Time = record t { author = put_authors item.authors t.author } in
      let t'' : Tables Time = record t' { issue = put_row row.id (some row) t'.issue } in
      rw
        (
          insert_issue-live codec row c t' (row-fits codec project item h.insertable t same),
          delete_changes-live codec row.id c t'' h.insertable.id_fits,
          insert_changes-live codec row.id c t'' (map_changelog_to_raw codec item.jira_issue row.id)
              [] h.insertable.id_fits (ap exists (put_row_self row.id (some row) t.issue))
              (changes-fit codec project item h.insertable t.author row.id item.jira_issue.changelog
                refl h.histories),
        )
        refl

  -- In a transaction without a failed statement, the insertion of a storable issue succeeds, and does
  -- to the tables exactly what storing the issue means: its authors are there, its row replaces any
  -- old one, and its status changes are those of its changelog.
  pub insert_processed_issue-stores :
      (c t : Tables Time)
      → t.project ≡ project
      → insert_processed_issue codec postgres tx item (live c t)
        ≡ (none, live c (store codec item t))
  unfolding insert_processed_issue
  insert_processed_issue-stores c t same =
      rw (insert_authors-live codec item.authors c t, mapped codec project item h.insertable)
        (row-stored c t same)
